-- ===== src/Scheduler/Facade/Gates.antt =====
-- What the gates of the scheduler guarantee over the whole way of a request (src/scheduler/mod.rs).
use tinyllb.Prelude.{
  ℕ, List, ◌≡◌, ◌≢◌, ◌⊎◌, refl, Bool, true, false, not, ◌||◌, Option-cases, inl, inr, if_elim,
  bytes_eq, arith,
}
use tinyllb.Prelude.Float.{Float}
use tinyllb.Flow.Id.{FlowId}
use tinyllb.Flow.Registry.{Flow}
use tinyllb.Scheduler.Backpressure.{BackpressureMode, blocking, fail_fast, hybrid}
use tinyllb.Scheduler.KvPolicy.{Gate, proceeds, rejected, parked}
use tinyllb.Scheduler.Drr.State.{Shared}
use tinyllb.Scheduler.Drr.Admit.{Guard, fail_fast_check}
use tinyllb.Scheduler.Drr.System.{State, Reachable}
use tinyllb.Scheduler.Drr.Admission.{
  Answer, ticket, sender_gone, dropped, DrrConfig, Admission, granted, take_answer, admit_blocking,
  admit_fail_fast, time_out, admit_hybrid, in_mode, admit, wait_at_gate, Passage,
}
use tinyllb.Scheduler.Drr.Admission.Laws.{at, Ends}
use tinyllb.Scheduler.Facade.{Scheduler, stall_gate}
use tinyllb.Scheduler.Facade.Admit.{
  Visit, enter_gate, pass_gate, past_gate, admit_with_turn_boundary,
}

module _ {F : Float} (threshold : F.Carrier) (mul_f64 : ℕ → F.Carrier → ℕ) (c : DrrConfig)
    (id : FlowId) where
  module _ (p : Passage F) where
    -- An admission that is granted had its ticket.
    abbrev Ticketed : Shared F × Admission → Type 0
    Ticketed r = r.1 ≡ granted → p.answer ≡ ticket

    take_answer-Ticketed :
        (a : Answer) (x : Shared F × Guard)
        → (take_answer threshold c id p a x).1 ≡ granted
        → a ≡ ticket
    unfolding take_answer
    take_answer-Ticketed ticket (sh, g) e = refl
    take_answer-Ticketed sender_gone (sh, g) e = cc
    take_answer-Ticketed dropped (sh, g) e = cc

    blocking-Ticketed :
        (work_unit : F.Carrier) (flow : Flow F) (sh : Shared F)
        → Ticketed (admit_blocking threshold c id p work_unit flow sh)
    unfolding admit_blocking
    blocking-Ticketed work_unit flow sh =
        if_elim Ticketed (wait_at_gate threshold c id p flow sh).2 _ _
          (λ _. take_answer-Ticketed p.answer _) (λ _ e. cc)

    in_mode-Ticketed :
        (m : BackpressureMode) (work_unit : F.Carrier) (flow : Flow F) (sh : Shared F)
        → Ticketed (in_mode threshold c id p mul_f64 m work_unit flow sh)
    unfolding in_mode admit_fail_fast admit_hybrid time_out
    in_mode-Ticketed blocking work_unit flow sh = blocking-Ticketed work_unit flow sh
    in_mode-Ticketed hybrid work_unit flow sh =
        if_elim Ticketed ((wait_at_gate threshold c id p flow sh).2 || not p.gives_up) _ _
          (λ _.
            if_elim Ticketed p.timer_first _ _ (λ _ e. cc) (λ _. take_answer-Ticketed p.answer _))
          (λ _ e. cc)
    in_mode-Ticketed fail_fast work_unit flow sh =
        elim (Option-cases (fail_fast_check F mul_f64 c.max_queue_depth c.retry_after_base sh)) [
          | inl n ↦ rw (n, in_mode, admit_fail_fast) (blocking-Ticketed work_unit flow sh)
          | inr (x, y) ↦ rw (y, in_mode, admit_fail_fast) (λ e. cc)
        ]

  module _ (v : Visit F) where
    -- The end of the request's way from a state of the system, which reaches the end's.
    abbrev pub EndsRequest : State F → Scheduler F × Admission → Type 0
    EndsRequest start x =
        Ends F threshold c id v.passage start (x.0.shared, x.1)
        × ((l : List FlowId) × Reachable F start (at F x.0.shared l))

    past_gate-granted :
        (work_unit : F.Carrier) (s : Scheduler F) (g : Gate)
        → (past_gate threshold mul_f64 c id v work_unit s g).1 ≡ granted
        → (g ≡ proceeds) × (v.passage.answer ≡ ticket)
    unfolding past_gate admit
    past_gate-granted work_unit s proceeds e =
        (refl, in_mode-Ticketed v.passage c.backpressure_mode work_unit _ _ e)
    past_gate-granted work_unit s (rejected x) e = cc
    past_gate-granted work_unit s parked e = cc

    stall_gate-proceeds :
        (g : Gate) → stall_gate v.is_stalled g ≡ proceeds → (v.is_stalled ≡ false) × (g ≡ proceeds)
    unfolding stall_gate
    stall_gate-proceeds proceeds e = ground arith
    stall_gate-proceeds (rejected x) e = cc
    stall_gate-proceeds parked e = cc

    -- The state and the gate that a request has come to when the stall signal is read.
    abbrev pub gated : Bool → Scheduler F → Scheduler F × Gate
    gated is_turn_boundary s =
        pass_gate threshold mul_f64 c id v (enter_gate threshold mul_f64 c id v is_turn_boundary s)

    -- A request is admitted only if the KV gate lets it through, the backend is not stalled then
    -- and its ticket comes.
    pub admit-granted :
        (work_unit : F.Carrier) (is_turn_boundary : Bool) (s : Scheduler F)
        → (admit_with_turn_boundary threshold mul_f64 c id v work_unit is_turn_boundary s).1
          ≡ granted
        → ((gated is_turn_boundary s).1 ≡ proceeds)
          × (v.is_stalled ≡ false)
          × (v.passage.answer ≡ ticket)
    unfolding admit_with_turn_boundary
    admit-granted work_unit is_turn_boundary s e =
        let (x, y) = past_gate-granted work_unit _ _ e in
        let (a, b) = stall_gate-proceeds (gated is_turn_boundary s).1 x in (b, a, y)

    past_gate-outside :
        (work_unit : F.Carrier) (s : Scheduler F) (g : Gate)
        → g ≢ proceeds
        → (past_gate threshold mul_f64 c id v work_unit s g).0.shared ≡ s.shared
    unfolding past_gate
    past_gate-outside work_unit s proceeds n = absurd (n refl)
    past_gate-outside work_unit s (rejected x) n = refl
    past_gate-outside work_unit s parked n = refl

    -- A request that the KV gate does not let through, or that comes out of it while the backend is
    -- stalled, is not admitted, and the queues, the registry and the metrics are as the KV gate left
    -- them.
    pub admit-turned_away :
        (work_unit : F.Carrier) (is_turn_boundary : Bool) (s : Scheduler F)
        → ((gated is_turn_boundary s).1 ≢ proceeds) ⊎ (v.is_stalled ≡ true)
        → ((admit_with_turn_boundary threshold mul_f64 c id v work_unit is_turn_boundary s).1
            ≢ granted)
          × ((admit_with_turn_boundary threshold mul_f64 c id v work_unit is_turn_boundary
                s).0.shared
              ≡ (gated is_turn_boundary s).0.shared)
    admit-turned_away work_unit is_turn_boundary s (inl n) = (
      λ e. n (admit-granted work_unit is_turn_boundary s e).0,
      unfold admit_with_turn_boundary in
          (past_gate-outside work_unit _ _
            (λ e. n (stall_gate-proceeds (gated is_turn_boundary s).1 e).1)),
    )
    admit-turned_away work_unit is_turn_boundary s (inr y) = (
      λ e. true≢false (admit-granted work_unit is_turn_boundary s e).1,
      unfold admit_with_turn_boundary in
          (past_gate-outside work_unit _ _
            (λ e. true≢false (stall_gate-proceeds (gated is_turn_boundary s).1 e).0)),
    )
      where
        true≢false : v.is_stalled ≡ false → ⊥
        true≢false e = cc

    -- The sections of others while the request is delayed are runs, whatever they do beside.
    abbrev pub IsRunDelayed : Type 0
    IsRunDelayed =
        (s : Scheduler F) (l : List FlowId)
        → (l' : List FlowId) × Reachable F (at F s.shared l) (at F (v.meanwhile s).shared l')
