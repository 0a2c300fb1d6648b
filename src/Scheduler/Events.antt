-- ===== src/Scheduler/Events.antt =====
-- The metrics that the scheduler writes (src/metrics/mod.rs registers them): the gauge that the
-- code reads back, and a log of the other writes, newest first.
use tinyllb.Prelude.{ℕ, List, ◌∷◌}
use tinyllb.Prelude.Int.{ℤ, pos, ◌+ℤ◌, ◌-ℤ◌, pos_part}
use tinyllb.Prelude.Words.{u32_max}
use tinyllb.Scheduler.Backpressure.{BackpressureMode}
use Prim.Native.Nat.{min}

-- The label of an admission decision of the KV gate.
pub data Decision : Type 0 where
  bypass accept delay reject : Decision

-- The label of a lifecycle event.
pub data RequestEvent : Type 0 where
  request_started token_received request_completed request_cancelled : RequestEvent

-- The label of an explicit priority.
pub data PrioritySource : Type 0 where
  auto header : PrioritySource

pub data Event : Type 0 where
  flow_credit : List ℕ → ℤ → Event
  flow_starvation_seconds : List ℕ → ℕ → Event
  starvation_force_admits : Event
  queue_depth : List ℕ → ℕ → Event
  queue_wait_seconds : ℕ → Event
  scheduler_effective_max_flows : ℕ → Event
  kv_admission_decisions : Decision → Event
  request_events : RequestEvent → Event
  flow_priority_class : List ℕ → ℕ → Event
  flow_cadence_state : List ℕ → ℕ → Event
  flow_inter_request_seconds : List ℕ → ℕ → Event
  flow_priority_source_total : List ℕ → PrioritySource → Event
  backpressure_rejections_total : BackpressureMode → Event

pub record Metrics : Type 0 where
  pub active_flows : ℤ
  pub log : List Event

abbrev pub emit : Event → Metrics → Metrics
emit e m = record m { log = e ∷ m.log }

abbrev pub inc_active_flows : Metrics → Metrics
inc_active_flows m = record m { active_flows = m.active_flows +ℤ pos 1 }

abbrev pub dec_active_flows : Metrics → Metrics
dec_active_flows m = record m { active_flows = m.active_flows -ℤ pos 1 }

-- `active_flows.get() as u32`, a saturating conversion.
abbrev pub active_u32 : Metrics → ℕ
active_u32 m = min (pos_part m.active_flows) u32_max
