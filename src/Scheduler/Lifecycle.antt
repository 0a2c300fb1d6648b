-- ===== src/Scheduler/Lifecycle.antt =====
-- The life of one admitted request (src/scheduler/lifecycle.rs): its guard counts the delivered
-- tokens and, when it is dropped, reports to the scheduler what the request did not use.
pub mod Credit
use tinyllb.Prelude.{
  ℕ, ◌≡◌, refl, Bool, true, false, not, Option, none, some, List, [], ◌∷◌, if◌then◌else◌,
}
use tinyllb.Prelude.Int.{ℤ, pos, ltb_ℤ}
use tinyllb.Prelude.Words.{add_i64, sub_i64, saturating_sub_i64}
use tinyllb.Prelude.Float.{Float}
use tinyllb.Flow.Id.{FlowId}
use tinyllb.Scheduler.Events.{
  Event, request_events, request_started, token_received, request_completed, request_cancelled,
  emit,
}
use tinyllb.Scheduler.Progress.{FlowProgressTracker, register, update_delivered, unregister}
use tinyllb.Scheduler.Drr.State.{Shared}
use tinyllb.Scheduler.Drr.Admit.{AccountingReport, completed, cancelled, report_accounting}

pub record LifecycleGuard : Type 0 where
  pub flow_id : FlowId
  pub estimated_cost : ℤ
  pub completed_normally : Bool
  pub delivered_tokens : ℤ

-- The scheduler with the optional progress tracker.
pub record World (F : Float) : Type 0 where
  pub shared : Shared F
  pub progress : Option FlowProgressTracker

unfoldable pub mark_completed : LifecycleGuard → LifecycleGuard
mark_completed g = record g { completed_normally = true }

-- The report of a guard that is dropped.
unfoldable pub report_of : LifecycleGuard → AccountingReport
report_of g =
    if g.completed_normally
    then if ltb_ℤ (pos 0) g.delivered_tokens
      then completed g.delivered_tokens (sub_i64 g.estimated_cost g.delivered_tokens)
      else completed g.estimated_cost (pos 0)
    else cancelled (saturating_sub_i64 g.estimated_cost g.delivered_tokens)

module _ {F : Float} where
  -- A request event in the metrics.
  abbrev pub event : World F → Event → World F
  event w e = record w { shared = record (w.shared) { metrics = emit e w.shared.metrics } }

  -- A call of the tracker, when there is one.
  abbrev pub tracked : World F → (FlowProgressTracker → FlowProgressTracker) → World F
  tracked w f = record w { progress = elim w.progress [ none ↦ none | some t ↦ some (f t) ] }

  unfoldable pub new : FlowId → ℤ → World F → World F × LifecycleGuard
  unfolding register
  new id estimated_cost w = (
    tracked (event w (request_events request_started)) (register id estimated_cost),
    record {
      flow_id = id;
      estimated_cost = estimated_cost;
      completed_normally = false;
      delivered_tokens = pos 0;
    },
  )

  unfoldable pub record_token : World F → World F
  record_token w = event w (request_events token_received)

  unfoldable pub add_delivered_tokens : ℤ → World F × LifecycleGuard → World F × LifecycleGuard
  unfolding update_delivered
  add_delivered_tokens count (w, g) = (
    tracked w (update_delivered g.flow_id count),
    record g { delivered_tokens = add_i64 g.delivered_tokens count },
  )

  -- `Drop` of the guard.
  unfoldable pub drop_lifecycle : ℕ → World F → LifecycleGuard → World F
  drop_lifecycle unix w g =
      let w' = tracked w (unregister g.flow_id g.estimated_cost g.delivered_tokens) in
      let w'' =
        event w' (
          request_events (if g.completed_normally then request_completed else request_cancelled)) in
      record w'' { shared = report_accounting g.flow_id (report_of g) unix w''.shared }
