-- ===== src/Scheduler/Facade.antt =====
-- The scheduler facade (src/scheduler/mod.rs): what a request goes through before the DRR scheduler.
pub mod Laws
pub mod Admit
pub mod Gates
use tinyllb.Prelude.{
  ℕ, ◌≡◌, refl, Bool, true, false, Option, none, some, List, [], ◌∷◌, if◌then◌else◌, ◌==◌, ◌+◌, ◌%◌,
}
use tinyllb.Prelude.Words.{u64_mod, add_u32}
use tinyllb.Prelude.Float.{Float}
use tinyllb.Flow.Id.{FlowId, metric_label}
use tinyllb.Flow.Registry.{Flow, FlowRegistry, QueueSnapshot, get_or_create, put_flow, sum_depths}
use tinyllb.Flow.Registry
use tinyllb.Flow.Cadence.{
  CadenceState, cold, interactive, agentic_suspected, agentic_confirmed, CadenceRegistry,
  record_arrival, classify_and_apply, state_of,
}
use tinyllb.Flow.Cadence
use tinyllb.Scheduler.Backpressure.{BackpressureRejected}
use tinyllb.Scheduler.Events.{
  Metrics, emit, flow_priority_class, flow_cadence_state, flow_inter_request_seconds,
}
use tinyllb.Scheduler.KvPolicy.{KvPolicy, Gate, proceeds, rejected, parked}
use tinyllb.Scheduler.Drr.State.{Shared}
use tinyllb.Scheduler.Drr.Admit.{snapshot}

-- The part of `Scheduler` that a request changes.
pub record Scheduler (F : Float) : Type 0 where
  pub shared : Shared F
  pub cadence : CadenceRegistry
  pub kv_policy : KvPolicy F
  pub interactive_priority : ℕ

-- `CadenceState as u32`
unfoldable pub state_number : CadenceState → ℕ
state_number cold = 0
state_number interactive = 1
state_number agentic_suspected = 2
state_number agentic_confirmed = 3

-- What the stall gate makes of a request that the KV gate lets through: 5 seconds, in nanoseconds.
unfoldable pub stall_gate : Bool → Gate → Gate
stall_gate stalled proceeds =
    if stalled then rejected (record { retry_after = 5000000000 }) else proceeds
stall_gate stalled (rejected e) = rejected e
stall_gate stalled parked = parked

module _ {F : Float} where
  -- `admit_with_turn_boundary` up to the KV gate, and whether the flow counts as interactive there.
  unfoldable pub arrival : FlowId → ℕ → ℕ → Bool → Scheduler F → Scheduler F × Bool
  arrival id now unix is_turn_boundary s =
      let (registry, flow) = get_or_create s.shared.registry id unix in
      let (cadence, gap) = record_arrival s.cadence id now unix is_turn_boundary in
      let (cadence', flow') = classify_and_apply cadence flow id unix in
      let (cadence'', state) = state_of cadence' id unix in
      let label = metric_label id in
      let m = emit (flow_priority_class label flow'.priority) s.shared.metrics in
      let m' = emit (flow_cadence_state label (state_number state)) m in
      let m'' : Metrics = elim gap [
        | none ↦ m'
        | some g ↦ emit (flow_inter_request_seconds label g) m'
      ] in
      (
        record s {
          shared = record (s.shared) { registry = put_flow registry id flow'; metrics = m'' };
          cadence = cadence'';
        },
        flow'.priority == s.interactive_priority,
      )

  -- The waiting requests, those delayed in the KV gate included.
  unfoldable pub queue_depth : Scheduler F → ℕ
  queue_depth s = add_u32 (sum_depths s.shared.registry) s.kv_policy.delayed_count

  unfoldable pub queue_snapshot : Scheduler F → QueueSnapshot
  queue_snapshot s =
      let inner = snapshot F s.shared in
      record {
        active = inner.active;
        waiting = (inner.waiting + s.kv_policy.delayed_count) % u64_mod;
        flows = inner.flows;
      }

  -- The flows that are reaped are counted, the cadence entries are not.
  unfoldable pub reap_idle : ℕ → ℕ → Scheduler F → Scheduler F × ℕ
  reap_idle ttl now s =
      let (registry, removed) = Registry.reap_idle s.shared.registry ttl now in
      let (cadence, cadence_removed) = Cadence.reap_idle s.cadence ttl now in
      (record s { shared = record (s.shared) { registry = registry }; cadence = cadence }, removed)
