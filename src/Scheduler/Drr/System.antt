-- ===== src/Scheduler/Drr/System.antt =====
-- The scheduler as a system of steps (src/scheduler/drr.rs): requests that come and go, turns of
-- the admission loop and the tickets it has handed out.
use tinyllb.Prelude.{
  ℕ, ◌+◌, ◌≤◌, ◌≡◌, Bool, true, some, List, [], ◌∷◌, bytes_beq, bytes_eq, arith, Bool-cases, inl,
  inr,
}
use tinyllb.Prelude.Lists.{length}
use tinyllb.Prelude.Float.{Float}
use tinyllb.Scheduler.Events.{Metrics}
use tinyllb.Flow.Id.{FlowId}
use tinyllb.Flow.Registry.{contains, FlowRegistry}
use tinyllb.Scheduler.Drr.State.{Shared, Env, new_state}
use tinyllb.Scheduler.Drr.Serve.{IsWellFormed}
use tinyllb.Scheduler.Drr.Total.{SelectsOne}
use tinyllb.Scheduler.Drr.Admit.{
  credit, Guard, AccountingReport, Turn, waits, again, granted, refused, remove_first, guard_new,
  enqueue, admitted, drop_guard, drop_ticket, report_accounting, loop_turn,
}

-- A ticket that is out is one of those counted.
pub length-remove_first :
    (id : FlowId) (l : List FlowId)
    → contains id l ≡ true
    → length (remove_first id l) + 1 ≡ length l
unfolding remove_first
length-remove_first id [] h = cc
length-remove_first id (j ∷ l) h = elim (Bool-cases (bytes_beq j id)) [
  | inl y ↦ rw y (omega arith)
  | inr n ↦ rw n (omega (arith, length-remove_first id l (ground (arith, h, n))))
]

module _ (F : Float) where
  -- The scheduler and the flows of the tickets that are out.
  pub record State : Type 0 where
    pub shared : Shared F
    pub tickets : List FlowId

  -- The tickets after a turn of the admission loop.
  abbrev pub tickets_after : Turn F → List FlowId → List FlowId
  tickets_after waits l = l
  tickets_after again l = l
  tickets_after (granted sel) l = sel.flow_id ∷ l
  tickets_after (refused sel) l = l

  -- One critical section. A turn runs with an effective cap of at most the permit budget and a
  -- selection that picks one of its candidates; only a ticket that is out is dropped. A request
  -- and a call of `credit` both start by finding or making the flow; what else writes the registry
  -- or the metrics leaves the queues alone.
  pub data Step : State → State → Type 0 where
    finds :
        {sh : Shared F} {l : List FlowId} (id : FlowId) (unix : ℕ)
        → Step
            (record { shared = sh; tickets = l })
            (record { shared = (credit id unix sh).0; tickets = l })
    arrives :
        {sh : Shared F} {l : List FlowId} (id : FlowId)
        → Step
            (record { shared = sh; tickets = l })
            (record { shared = (guard_new id sh).0; tickets = l })
    queues :
        {sh : Shared F} {l : List FlowId} (id : FlowId) (enter : ℕ) (work_unit : F.Carrier)
        → Step
            (record { shared = sh; tickets = l })
            (record { shared = (enqueue id enter work_unit sh).0; tickets = l })
    turns :
        {sh sh' : Shared F} {l : List FlowId} {t : Turn F} (env : Env F) (changed alive : Bool)
        → SelectsOne F env
        → env.cap ≤ sh.drr.max_permits
        → loop_turn F env changed alive sh ≡ some (sh', t)
        → Step
            (record { shared = sh; tickets = l })
            (record { shared = sh'; tickets = tickets_after t l })
    begins :
        {sh : Shared F} {l : List FlowId} (g : Guard) (enter now : ℕ)
        → Step
            (record { shared = sh; tickets = l })
            (record { shared = (admitted g enter now sh).0; tickets = l })
    cancels :
        {sh : Shared F} {l : List FlowId} (g : Guard)
        → Step
            (record { shared = sh; tickets = l })
            (record { shared = (drop_guard g sh).0; tickets = l })
    ends :
        {sh : Shared F} {l : List FlowId} (id : FlowId)
        → contains id l ≡ true
        → Step
            (record { shared = sh; tickets = l })
            (record { shared = drop_ticket id sh; tickets = remove_first id l })
    reports :
        {sh : Shared F} {l : List FlowId} (id : FlowId) (report : AccountingReport) (unix : ℕ)
        → Step
            (record { shared = sh; tickets = l })
            (record { shared = report_accounting id report unix sh; tickets = l })
    writes :
        {sh : Shared F} {l : List FlowId} (registry : FlowRegistry F) (metrics : Metrics)
        → Step
            (record { shared = sh; tickets = l })
            (record { shared = record sh { registry = registry; metrics = metrics }; tickets = l })

  pub data Reachable (start : State) : State → Type 0 where
    starts : Reachable start start
    steps : {s t : State} → Reachable start s → Step s t → Reachable start t

  -- The queues are well formed, and each permit is free or behind one ticket.
  pub record IsSound (max_active_flows : ℕ) (s : State) : Type 0 where
    pub well_formed : IsWellFormed s.shared.drr
    pub budget : s.shared.drr.max_permits ≡ max_active_flows
    pub permits : s.shared.drr.available_permits + length s.tickets ≡ max_active_flows

  -- The state in which the scheduler starts.
  abbrev pub start : FlowRegistry F → Metrics → ℕ → State
  start registry metrics max_active_flows = record {
    shared = record {
      drr = new_state F max_active_flows;
      registry = registry;
      waiting_queue = [];
      metrics = metrics;
    };
    tickets = [];
  }
