-- ===== src/Scheduler/KvPolicy.antt =====
-- The KV-cache admission gate (src/scheduler/kv_admission.rs). A request's pass through the gate is
-- its check and then, while it is delayed, what its wait sees.
pub mod Laws
use tinyllb.Prelude.{
  ℕ, ◌≡◌, refl, Bool, true, false, not, ◌&&◌, Option, none, some, List, [], ◌∷◌, if◌then◌else◌,
}
use tinyllb.Prelude.Words.{add_u32, sub_u32}
use tinyllb.Prelude.Float.{Float}
use tinyllb.Scheduler.Backpressure.{
  BackpressureMode, blocking, fail_fast, hybrid, BackpressureRejected, fail_fast_retry_after,
}
use tinyllb.Scheduler.Events
use tinyllb.Scheduler.Events.{Metrics, emit, kv_admission_decisions}

-- `KVMDecision`
pub data KvmDecision : Type 0 where
  accept delay reject : KvmDecision

pub record KvPolicy (F : Float) : Type 0 where
  pub enabled : Bool
  pub reject_threshold : F.Carrier
  pub delay_threshold : F.Carrier
  pub bypass_interactive : Bool
  pub backpressure_mode : BackpressureMode
  pub retry_after_base : ℕ
  pub max_queue_depth : ℕ
  pub delayed_count : ℕ

-- Where a request is: through the gate, turned away, or in the delay loop.
pub data Gate : Type 0 where
  proceeds : Gate
  rejected : BackpressureRejected → Gate
  parked : Gate

-- What a delayed request sees next: a snapshot's `kv_usage`, the end of the monitor's channel, or
-- the end of `max_wait`.
pub data Wake (F : Float) : Type 0 where
  published : F.Carrier → Wake F
  closed : Wake F
  timed_out : Wake F

-- In blocking mode the reject band is part of the delay band.
unfoldable pub absorbed : KvmDecision → BackpressureMode → KvmDecision
absorbed reject blocking = delay
absorbed reject fail_fast = reject
absorbed reject hybrid = reject
absorbed accept m = accept
absorbed delay m = delay

module _ (F : Float) (mul_f64 : ℕ → F.Carrier → ℕ) where
  open F use {Carrier, lt, le}

  unfoldable pub decide : KvPolicy F → Carrier → KvmDecision
  decide p kv_usage =
      if lt p.reject_threshold kv_usage
      then reject
      else if lt p.delay_threshold kv_usage
      then delay
      else accept

  -- `DelayGuard::new` and its `Drop`
  unfoldable pub enter_delay : KvPolicy F → KvPolicy F
  enter_delay p = record p { delayed_count = add_u32 p.delayed_count 1 }

  unfoldable pub leave_delay : KvPolicy F → KvPolicy F
  leave_delay p = record p { delayed_count = sub_u32 p.delayed_count 1 }

  -- The rejection at the present number of delayed requests.
  unfoldable pub rejection : KvPolicy F → BackpressureRejected
  unfolding fail_fast_retry_after
  rejection p = record {
    retry_after =
        fail_fast_retry_after F mul_f64 p.delayed_count p.max_queue_depth p.retry_after_base;
  }

  -- What the gate does on a decision.
  unfoldable pub act : KvmDecision → KvPolicy F → Metrics → KvPolicy F × Metrics × Gate
  unfolding enter_delay rejection
  act accept p m = (p, emit (kv_admission_decisions Events.accept) m, proceeds)
  act delay p m = (enter_delay p, emit (kv_admission_decisions Events.delay) m, parked)
  act reject p m = (p, emit (kv_admission_decisions Events.reject) m, rejected (rejection p))

  -- `check`, up to its wait
  unfoldable pub check : Bool → Option Carrier → KvPolicy F → Metrics → KvPolicy F × Metrics × Gate
  unfolding decide absorbed act
  check is_interactive kv_usage p m =
      if not p.enabled
      then (p, m, proceeds)
      else if p.bypass_interactive && is_interactive
      then (p, emit (kv_admission_decisions Events.bypass) m, proceeds)
      else elim kv_usage [
        | none ↦ (p, m, proceeds)
        | some u ↦ act (absorbed (decide p u) p.backpressure_mode) p m
      ]

  -- The wait of `check`: one thing that a delayed request sees. Blocking mode has no timer.
  unfoldable pub wake : Wake F → KvPolicy F → KvPolicy F × Gate
  unfolding leave_delay rejection
  wake (published u) p = if le u p.delay_threshold then (leave_delay p, proceeds) else (p, parked)
  wake closed p = (leave_delay p, proceeds)
  wake timed_out p = elim p.backpressure_mode [
    | blocking ↦ (p, parked)
    | fail_fast ↦ (leave_delay p, rejected (rejection p))
    | hybrid ↦ (leave_delay p, rejected (rejection p))
  ]

  -- A delayed request until its wait is over.
  unfoldable pub wait : List (Wake F) → KvPolicy F → KvPolicy F × Gate
  unfolding wake
  wait [] p = (p, parked)
  wait (w ∷ ws) p =
      let rest = wait ws (wake w p).0 in
      elim (wake w p).1 [ proceeds ↦ wake w p | rejected r ↦ wake w p | parked ↦ rest ]
