-- ===== src/Scheduler/Drr/Admission/Laws.antt =====
-- An admission as a run of the scheduler's steps, with the phases that its request goes through
-- (src/scheduler/drr.rs).
use tinyllb.Prelude.{
  ℕ, true, not, ◌||◌, ◌≡◌, refl, Option, none, some, List, Option-cases, inl, inr, if_elim,
  bytes_eq,
}
use tinyllb.Prelude.Float.{Float}
use tinyllb.Flow.Id.{FlowId}
use tinyllb.Flow.Registry.{Flow}
use tinyllb.Scheduler.Backpressure.{blocking, fail_fast, hybrid, BackpressureMode}
use tinyllb.Scheduler.Drr.State.{Shared}
use tinyllb.Scheduler.Drr.Admit.{Guard, guard_new, enqueue, admitted, drop_guard, fail_fast_check}
use tinyllb.Scheduler.Drr.System
use tinyllb.Scheduler.Drr.System.{State, Reachable, starts, steps, writes}
use tinyllb.Scheduler.Drr.Admission.{
  Answer, ticket, sender_gone, dropped, DrrConfig, Passage, Admission, granted, rejected, abandoned,
  wait_at_gate, wait_in_queue, leaves_with, take_answer, admit_blocking, admit_fail_fast, time_out,
  admit_hybrid, in_mode, admit,
}

-- Where a request stands: it is not counted, it holds a guard, in a queue once the guard has the
-- number of its entry, or it is admitted.
pub data Phase : Type 0 where
  outside : Phase
  waiting : Guard → Phase
  inside : Phase

module _ (F : Float) where
  abbrev pub at : Shared F → List FlowId → State F
  at sh l = record { shared = sh; tickets = l }

  -- The way of one request of the flow `id`, with steps of others between its own. A request that
  -- waits can only be admitted by its own guard, from the queue, or leave by dropping that guard.
  pub data Way (id : FlowId) (start : State F) : Phase → State F → Type 0 where
    begins : Way id start outside start
    others :
        {phase : Phase} {s t : State F}
        → Way id start phase s
        → Reachable F s t
        → Way id start phase t
    arrives :
        {sh : Shared F} {l : List FlowId}
        → Way id start outside (at sh l)
        → Way id start
            (waiting (record { flow_id = id; active = true; pending_id = none }))
            (at (guard_new id sh).0 l)
    queues :
        {sh : Shared F} {l : List FlowId} (enter : ℕ) (work_unit : F.Carrier)
        → Way id start
            (waiting (record { flow_id = id; active = true; pending_id = none }))
            (at sh l)
        → Way id start
            (waiting
              (record { flow_id = id; active = true; pending_id = some (sh.drr.next_pending_id) }))
            (at (enqueue id enter work_unit sh).0 l)
    enters :
        {sh : Shared F} {l : List FlowId} (n enter now : ℕ)
        → Way id start
            (waiting (record { flow_id = id; active = true; pending_id = some n }))
            (at sh l)
        → Way id start inside (
            at
              (admitted
                (record { flow_id = id; active = true; pending_id = some n })
                enter
                now
                sh).0
              l)
    leaves :
        {g : Guard} {sh : Shared F} {l : List FlowId}
        → Way id start (waiting g) (at sh l)
        → Way id start outside (at (drop_guard g sh).0 l)

  Reachable-trans : {s t u : State F} → Reachable F s t → Reachable F t u → Reachable F s u
  Reachable-trans r starts = r
  Reachable-trans r (steps q x) = steps (Reachable-trans r q) x

  -- Every way is made of steps of the system.
  pub Way-Reachable :
      {id : FlowId} {start s : State F} {phase : Phase} → Way id start phase s → Reachable F start s
  Way-Reachable begins = starts
  Way-Reachable (others w r) = Reachable-trans (Way-Reachable w) r
  Way-Reachable (arrives {sh} {l} w) = steps (Way-Reachable w) (System.arrives _)
  Way-Reachable (queues {sh} {l} enter work_unit w) =
      steps (Way-Reachable w) (System.queues _ enter work_unit)
  Way-Reachable (enters {sh} {l} n enter now w) =
      steps (Way-Reachable w) (System.begins _ enter now)
  Way-Reachable (leaves {g} {sh} {l} w) = steps (Way-Reachable w) (System.cancels g)

  -- Sections of others that are steps of the system.
  abbrev pub IsRun : (Shared F → Shared F) → Type 0
  IsRun f =
      (sh : Shared F) (l : List FlowId) → (l' : List FlowId) × Reachable F (at sh l) (at (f sh) l')

module _ (F : Float) (threshold : F.Carrier) (c : DrrConfig) (id : FlowId) (p : Passage F)
    (start : State F) where
  -- The request has come to a phase, in a state with some tickets out.
  abbrev pub Goes : Phase → Shared F → Type 0
  Goes phase sh = (l : List FlowId) × Way F id start phase (at F sh l)

  -- A request is granted from the queue, by its ticket; any other end leaves it outside.
  abbrev pub Ends : Shared F × Admission → Type 0
  Ends (sh, granted) = (p.answer ≡ ticket) × Goes inside sh
  Ends (sh, rejected e) = Goes outside sh
  Ends (sh, abandoned) = Goes outside sh

  pub Ends-Reachable :
      (x : Shared F × Admission) → Ends x → (l : List FlowId) × Reachable F start (at F x.0 l)
  Ends-Reachable (sh, granted) (e, (l, w)) = (l, Way-Reachable F w)
  Ends-Reachable (sh, rejected r) (l, w) = (l, Way-Reachable F w)
  Ends-Reachable (sh, abandoned) (l, w) = (l, Way-Reachable F w)

  -- Its guard before and after it has its entry.
  abbrev held : Option ℕ → Guard
  held n = record { flow_id = id; active = true; pending_id = n }

  IsRun-Goes :
      {phase : Phase} (f : Shared F → Shared F)
      → IsRun F f
      → (sh : Shared F) → Goes phase sh
      → Goes phase (f sh)
  IsRun-Goes f run sh (l, w) = let (l', r) = run sh l in (l', others w r)

  take_answer-Ends :
      (a : Answer) (n : ℕ) (sh : Shared F)
      → p.answer ≡ a
      → Goes (waiting (held (some n))) sh
      → Ends (take_answer threshold c id p a (sh, held (some n)))
  unfolding take_answer leaves_with
  take_answer-Ends ticket n sh e (l, w) = (e, (l, enters n p.enter p.now w))
  take_answer-Ends sender_gone n sh e (l, w) = (l, leaves w)
  take_answer-Ends dropped n sh e (l, w) = (l, leaves w)

  module _ (at_gate : IsRun F p.at_gate) (at_queue : IsRun F p.at_queue) where
    wait_at_gate-Goes :
        (flow : Flow F) (sh : Shared F)
        → Goes outside sh
        → Goes (waiting (held none)) (wait_at_gate threshold c id p flow sh).0
    unfolding wait_at_gate
    wait_at_gate-Goes flow sh (l, w) =
        IsRun-Goes p.at_gate at_gate _ (l, others (arrives w) (steps starts (writes _ _)))

    wait_in_queue-Goes :
        (work_unit : F.Carrier) (sh : Shared F)
        → Goes (waiting (held none)) sh
        → Goes
            (waiting (held (some (sh.drr.next_pending_id))))
            (wait_in_queue threshold c id p work_unit sh (held none)).0
    unfolding wait_in_queue
    wait_in_queue-Goes work_unit sh (l, w) =
        IsRun-Goes p.at_queue at_queue _ (l, queues p.enter work_unit w)

    -- The request in its queue until its ticket comes, its sender is gone or it is given up.
    queued-Ends :
        (work_unit : F.Carrier) (sh : Shared F)
        → Goes (waiting (held none)) sh
        → Ends (
            take_answer threshold c id p p.answer
              (wait_in_queue threshold c id p work_unit sh (held none)))
    unfolding wait_in_queue enqueue
    queued-Ends work_unit sh g =
        take_answer-Ends p.answer (sh.drr.next_pending_id) _ refl
          (wait_in_queue-Goes work_unit sh g)

    blocking-Ends :
        (work_unit : F.Carrier) (flow : Flow F) (sh : Shared F)
        → Goes outside sh
        → Ends (admit_blocking threshold c id p work_unit flow sh)
    unfolding admit_blocking wait_at_gate guard_new leaves_with
    blocking-Ends work_unit flow sh r =
        let (sh', g, opened) = wait_at_gate threshold c id p flow sh in
        let (l, w) = wait_at_gate-Goes flow sh r in
        if_elim Ends opened _ _ (λ _. queued-Ends work_unit sh' (l, w)) (λ _. (l, leaves w))

    module _ (mul_f64 : ℕ → F.Carrier → ℕ) where
      hybrid-Ends :
          (work_unit : F.Carrier) (flow : Flow F) (sh : Shared F)
          → Goes outside sh
          → Ends (admit_hybrid threshold c id p mul_f64 work_unit flow sh)
      unfolding admit_hybrid time_out wait_at_gate guard_new leaves_with wait_in_queue enqueue
      hybrid-Ends work_unit flow sh r =
          let (sh', g, opened) = wait_at_gate threshold c id p flow sh in
          let (l, w) = wait_at_gate-Goes flow sh r in
          let (l', w') = wait_in_queue-Goes work_unit sh' (l, w) in
          if_elim Ends (opened || not p.gives_up) _ _
            (λ _.
              if_elim Ends p.timer_first _ _ (λ _. (l', leaves w'))
                (λ _. queued-Ends work_unit sh' (l, w)))
            (λ _. (l, leaves w))

      in_mode-Ends :
          (m : BackpressureMode) (work_unit : F.Carrier) (flow : Flow F) (sh : Shared F)
          → Goes outside sh
          → Ends (in_mode threshold c id p mul_f64 m work_unit flow sh)
      unfolding in_mode admit_fail_fast
      in_mode-Ends blocking work_unit flow sh r = blocking-Ends work_unit flow sh r
      in_mode-Ends hybrid work_unit flow sh r = hybrid-Ends work_unit flow sh r
      in_mode-Ends fail_fast work_unit flow sh r =
          elim (Option-cases (fail_fast_check F mul_f64 c.max_queue_depth c.retry_after_base sh)) [
            | inl e ↦ rw (e, in_mode, admit_fail_fast) (blocking-Ends work_unit flow sh r)
            | inr (x, e) ↦ rw (e, in_mode, admit_fail_fast) r
          ]

      -- An admission, in any mode and with any end, goes through the phases of a request, with runs
      -- of others between: it is granted by its ticket and from the queue, and otherwise its guard
      -- has been dropped if it had one.
      pub admit-Ends :
          (work_unit : F.Carrier) (sh : Shared F)
          → Goes outside sh
          → Ends (admit threshold c id p mul_f64 work_unit sh)
      unfolding admit
      admit-Ends work_unit sh (l, w) =
          in_mode-Ends c.backpressure_mode work_unit _ _ (l, others w (steps starts (writes _ _)))
