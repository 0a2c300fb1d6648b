-- ===== src/Gateway/Handler/Serve.antt =====
-- The handler of a request as a whole (src/gateway/proxy.rs, proxy_handler).
use tinyllb.Prelude.{ℕ, Option, none, some, List, [], if◌then◌else◌, from_option}
use tinyllb.Prelude.Float.{Float}
use tinyllb.Flow.Id.{FlowId, metric_label}
use tinyllb.Flow.Registry.{Priorities, apply_priority_override}
use tinyllb.Flow.Identify.{ResolvedFlow}
use tinyllb.Scheduler.Events.{
  emit, flow_priority_source_total, auto, header, backpressure_rejections_total,
}
use tinyllb.Scheduler.Progress.{FlowProgressTracker}
use tinyllb.Scheduler.Lifecycle.{World, LifecycleGuard, new, drop_lifecycle}
use tinyllb.Scheduler.Drr.State.{Shared}
use tinyllb.Scheduler.Drr.Admit.{drop_ticket}
use tinyllb.Scheduler.Drr.Admission.{DrrConfig, Admission, granted, abandoned}
use tinyllb.Scheduler.Facade.{Scheduler}
use tinyllb.Scheduler.Facade.Admit.{Visit, admit_with_turn_boundary}
use tinyllb.Gateway.Json.{Json}
use tinyllb.Gateway.Forward.{Run, rejected}
use tinyllb.Gateway.Handler.{
  Outside, Request, Response, Result, ok, err, Sent, metadata_response, Prepared, prepare,
}
use tinyllb.Gateway.Handler.Dispatch.{Backend, Outcome, responded, errored, gone, dispatch}

-- The state that requests share.
pub record Server (F : Float) : Type 0 where
  pub scheduler : Scheduler F
  pub progress : FlowProgressTracker

-- What a request meets: the new ids, the slot count of the last snapshot, the answer to a request
-- that bypasses the admission, its way through the scheduler, the backend, and the clock at its end.
pub record Meets (F : Float) : Type 0 where
  pub request_id : List ℕ
  pub uuid : List ℕ
  pub slot_count : Option ℕ
  pub unix : ℕ
  pub sent : Sent
  pub visit : Visit F
  pub backend : Backend F
  pub ended : ℕ

module _ {F : Float} where
  abbrev pub shared_of : Server F → Shared F
  shared_of s = s.scheduler.shared

  abbrev pub with_shared : Server F → Shared F → Server F
  with_shared s sh = record s { scheduler = record (s.scheduler) { shared = sh } }

  -- An explicit priority and its counter.
  unfoldable pub override_priority : ResolvedFlow → Priorities → ℕ → Shared F → Shared F
  unfolding apply_priority_override
  override_priority f classes unix sh =
      let label = metric_label f.flow_id in
      record sh {
        registry =
            apply_priority_override sh.registry f.flow_id f.priority_override f.unset_override
              classes unix;
        metrics =
            if f.unset_override
            then emit (flow_priority_source_total label auto) sh.metrics
            else elim (f.priority_override) [
              | none ↦ sh.metrics
              | some class ↦ emit (flow_priority_source_total label header) sh.metrics
            ];
      }

  -- The lifecycle guard is dropped, then the ticket.
  unfoldable pub close : FlowId → ℕ → Server F → World F × LifecycleGuard → Server F
  unfolding drop_lifecycle drop_ticket
  close id unix s (w, g) =
      let w' = drop_lifecycle unix w g in
      record s {
        scheduler = record (s.scheduler) { shared = drop_ticket id w'.shared };
        progress = from_option s.progress w'.progress;
      }

module _ {F : Float} (J : Json F) (o : Outside) (of_u32 : ℕ → J.Number) (threshold : F.Carrier)
    (mul_f64 : ℕ → F.Carrier → ℕ) (c : DrrConfig) (classes : Priorities) (m : Meets F) where
  -- The lifecycle guard of an admitted request, and no act yet.
  abbrev pub run_for : Prepared F → Server F → Run F
  run_for p s = record {
    log = [];
    life =
        new p.resolved.flow_id (F.to_ℤ p.work_unit)
          (record { shared = shared_of s; progress = some (s.progress) });
  }

  -- An admitted request until its response is over.
  unfoldable pub serve : Prepared F → Server F → Option (Server F × Outcome F)
  unfolding close new dispatch
  serve p s = elim (dispatch J o m.backend p m.request_id (run_for p s)) [
    | none ↦ none
    | some (outcome, life) ↦ some (close p.resolved.flow_id m.ended s life, outcome)
  ]

  -- A rejection is counted under its mode.
  unfoldable pub after_admission : Prepared F → Server F × Admission → Option (Server F × Outcome F)
  unfolding serve
  after_admission p (s, granted) = serve p s
  after_admission p (s, abandoned) = some (s, gone)
  after_admission p (s, Admission.rejected e) =
      let sh = shared_of s in
      some (
        with_shared s (record sh {
          metrics = emit (backpressure_rejections_total c.backpressure_mode) sh.metrics;
        }),
        errored (rejected e.retry_after),
      )

  unfoldable pub infer : Prepared F → Server F → Option (Server F × Outcome F)
  unfolding override_priority after_admission
  infer p s =
      let s' = with_shared s (override_priority p.resolved classes m.unix (shared_of s)) in
      let (scheduler, outcome) =
        admit_with_turn_boundary threshold mul_f64 c p.resolved.flow_id m.visit p.work_unit
          p.is_turn_boundary s'.scheduler in
      after_admission p (record s' { scheduler = scheduler }, outcome)

  abbrev pub metadata : Result Response → Outcome F
  metadata (ok r) = responded r
  metadata (err e) = errored e

  unfoldable pub answer : Result (Prepared F) → Server F → Option (Server F × Outcome F)
  unfolding infer metadata_response
  answer (err e) s = some (s, errored e)
  answer (ok p) s =
      if p.is_inference
      then infer p s
      else some (s, metadata (metadata_response o m.request_id m.sent))

  unfoldable pub proxy_handler : Request → Server F → Option (Server F × Outcome F)
  unfolding prepare answer
  proxy_handler req s =
      let sh = shared_of s in
      let (registry, prepared) = prepare J o of_u32 m.uuid m.slot_count req sh.registry in
      answer prepared (with_shared s (record sh { registry = registry }))
