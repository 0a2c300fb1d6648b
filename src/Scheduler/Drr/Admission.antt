-- ===== src/Scheduler/Drr/Admission.antt =====
-- The admission of one request by the DRR scheduler (src/scheduler/drr.rs, `admit` in its three
-- modes): the guard, the completion bias gate, the queue and the wait for a ticket. Between its
-- critical sections others run theirs.
pub mod Laws
pub mod Depths
pub mod Cancel
pub mod Restores
use tinyllb.Prelude.{ℕ, Bool, true, false, not, ◌||◌, Option, none, some, List, if◌then◌else◌}
use tinyllb.Prelude.Float.{Float}
use tinyllb.Flow.Id.{FlowId}
use tinyllb.Flow.Registry.{Flow, get_or_create}
use tinyllb.Scheduler.Backpressure.{
  BackpressureMode, blocking, fail_fast, hybrid, BackpressureRejected,
}
use tinyllb.Scheduler.Progress.{FlowProgressTracker}
use tinyllb.Scheduler.CompletionBias.{CompletionBiasGate, Seen}
use tinyllb.Scheduler.CompletionBias
use tinyllb.Scheduler.Drr.State.{Shared}
use tinyllb.Scheduler.Drr.Admit.{
  Guard, guard_new, enqueue, admitted, drop_guard, fail_fast_check, hybrid_timeout,
}

-- How the wait for a ticket ends: with a ticket, with its sender gone, or with the request given up
-- by its client.
pub data Answer : Type 0 where
  ticket sender_gone dropped : Answer

pub record DrrConfig : Type 0 where
  pub backpressure_mode : BackpressureMode
  pub max_queue_depth : ℕ
  pub retry_after_base : ℕ
  pub completion_bias_gate : CompletionBiasGate

-- What a request meets on its way: the clocks, the progress of the flows, the rounds of its wait in
-- the gate and whether its client gives up there, the sections of others during the two waits,
-- whether `max_wait` ends before the wait for a ticket does, and how that ends.
pub record Passage (F : Float) : Type 0 where
  pub enter : ℕ
  pub unix : ℕ
  pub progress : FlowProgressTracker
  pub rounds : List (Seen F)
  pub gives_up : Bool
  pub at_gate : Shared F → Shared F
  pub at_queue : Shared F → Shared F
  pub timer_first : Bool
  pub answer : Answer
  pub now : ℕ

pub data Admission : Type 0 where
  granted : Admission
  rejected : BackpressureRejected → Admission
  abandoned : Admission

module _ {F : Float} (threshold : F.Carrier) (c : DrrConfig) (id : FlowId) (p : Passage F) where
  -- The guard, and the wait in the completion bias gate with whether the gate has opened.
  unfoldable pub wait_at_gate : Flow F → Shared F → Shared F × Guard × Bool
  wait_at_gate flow sh =
      let (sh', g) = guard_new id sh in
      let (metrics, opened) =
        CompletionBias.check F threshold c.completion_bias_gate flow p.progress p.rounds
          sh'.metrics in
      (p.at_gate (record sh' { metrics = metrics }), g, opened)

  -- The request in its flow's queue until its wait ends.
  unfoldable pub wait_in_queue : F.Carrier → Shared F → Guard → Shared F × Guard
  wait_in_queue work_unit sh g =
      let (sh', my_id) = enqueue id p.enter work_unit sh in
      (p.at_queue sh', record g { pending_id = some my_id })

  -- A request that gets no ticket drops its guard.
  unfoldable pub leaves_with : Admission → Shared F × Guard → Shared F × Admission
  leaves_with outcome (sh, g) = ((drop_guard g sh).0, outcome)

  -- One second, in nanoseconds, if the sender is gone.
  unfoldable pub take_answer : Answer → Shared F × Guard → Shared F × Admission
  unfolding leaves_with
  take_answer ticket (sh, g) = ((admitted g p.enter p.now sh).0, granted)
  take_answer sender_gone (sh, g) =
      leaves_with (rejected (record { retry_after = 1000000000 })) (sh, g)
  take_answer dropped (sh, g) = leaves_with abandoned (sh, g)

  -- The gate has no timer here: a request that it does not let through waits until it is given up.
  unfoldable pub admit_blocking : F.Carrier → Flow F → Shared F → Shared F × Admission
  unfolding leaves_with
  admit_blocking work_unit flow sh =
      let (sh', g, opened) = wait_at_gate flow sh in
      if opened
      then take_answer p.answer (wait_in_queue work_unit sh' g)
      else leaves_with abandoned (sh', g)

  module _ (mul_f64 : ℕ → F.Carrier → ℕ) where
    unfoldable pub admit_fail_fast : F.Carrier → Flow F → Shared F → Shared F × Admission
    admit_fail_fast work_unit flow sh =
        elim (fail_fast_check F mul_f64 c.max_queue_depth c.retry_after_base sh) [
          | some e ↦ (sh, rejected e)
          | none ↦ admit_blocking work_unit flow sh
        ]

    -- The rejection at the end of `max_wait` counts the request itself.
    unfoldable pub time_out : Shared F × Guard → Shared F × Admission
    unfolding leaves_with
    time_out (sh, g) =
        leaves_with (rejected (hybrid_timeout F mul_f64 c.max_queue_depth c.retry_after_base sh))
          (sh, g)

    -- At the end of `max_wait` the request leaves the gate for the queue.
    unfoldable pub admit_hybrid : F.Carrier → Flow F → Shared F → Shared F × Admission
    unfolding leaves_with
    admit_hybrid work_unit flow sh =
        let (sh', g, opened) = wait_at_gate flow sh in
        let q = wait_in_queue work_unit sh' g in
        if opened || not p.gives_up
        then if p.timer_first then time_out q else take_answer p.answer q
        else leaves_with abandoned (sh', g)

    unfoldable pub in_mode : BackpressureMode → F.Carrier → Flow F → Shared F → Shared F × Admission
    in_mode blocking work_unit flow sh = admit_blocking work_unit flow sh
    in_mode fail_fast work_unit flow sh = admit_fail_fast work_unit flow sh
    in_mode hybrid work_unit flow sh = admit_hybrid work_unit flow sh

    unfoldable pub admit : F.Carrier → Shared F → Shared F × Admission
    unfolding in_mode
    admit work_unit sh =
        let (registry, flow) = get_or_create sh.registry id p.unix in
        in_mode c.backpressure_mode work_unit flow (record sh { registry = registry })
