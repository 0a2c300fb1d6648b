-- ===== src/Scheduler/Drr/State.antt =====
-- The state of the DRR scheduler (src/scheduler/drr.rs): what the mutex guards, and the registry,
-- the reporting queue and the metrics that are shared with it.
use tinyllb.Prelude.{
  ℕ, Bool, true, false, not, Option, none, some, List, [], ◌∷◌, if◌then◌else◌, bytes_beq, bytes_eq,
}
use tinyllb.Prelude.Int.{ℤ}
use tinyllb.Prelude.Float.{Float}
use tinyllb.Prelude.Table.{lookup}
use tinyllb.Flow.Id.{FlowId}
use tinyllb.Flow.Registry.{FlowRegistry}
use tinyllb.Scheduler.Priority.{FlowCandidate}
use tinyllb.Scheduler.Events.{Metrics}

-- A queued request. Its sender is known by `pending_id`.
pub record Pending (F : Float) : Type 0 where
  pub pending_id : ℕ
  -- an Instant, in nanoseconds
  pub enqueued_at : ℕ
  pub work_unit : F.Carrier

pub record DrrState (F : Float) : Type 0 where
  pub waiting : List (FlowId × List (Pending F))
  pub rr_cursor : List FlowId
  pub available_permits : ℕ
  pub max_permits : ℕ
  pub next_pending_id : ℕ
  pub deficit : List (FlowId × ℤ)

pub record Shared (F : Float) : Type 0 where
  pub drr : DrrState F
  pub registry : FlowRegistry F
  pub waiting_queue : List FlowId
  pub metrics : Metrics

-- What a round of the admission loop reads from elsewhere: the clocks, the configuration, the
-- effective cap, the footprints of the flow tracker and the biased selection.
pub record Env (F : Float) : Type 0 where
  pub now : ℕ
  pub unix : ℕ
  pub starvation_timeout : ℕ
  pub cap : ℕ
  pub footprint : FlowId → F.Carrier
  pub select : List (FlowCandidate F) → Option FlowId

-- The flow and the queue entry of an admitted request.
pub record Selection (F : Float) : Type 0 where
  pub flow_id : FlowId
  pub pending : Pending F

abbrev pub is_nil {ℓ} : {A : Type ℓ} → List A → Bool
is_nil [] = true
is_nil (x ∷ xs) = false

-- `retain(|id| id != selected)`
abbrev pub without : FlowId → List FlowId → List FlowId
without id [] = []
without id (j ∷ js) = if bytes_beq j id then without id js else j ∷ without id js

abbrev pub has_pending : {F : Float} → DrrState F → FlowId → Bool
has_pending s id = elim (lookup id s.waiting) [ none ↦ false | some q ↦ not (is_nil q) ]

-- The state that `new_inner` starts from.
abbrev pub new_state : (F : Float) → ℕ → DrrState F
new_state F max_active_flows = record {
  waiting = [];
  rr_cursor = [];
  available_permits = max_active_flows;
  max_permits = max_active_flows;
  next_pending_id = 0;
  deficit = [];
}
