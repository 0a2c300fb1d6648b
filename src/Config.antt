-- ===== src/Config.antt =====
-- The validation of the configuration (src/config/loader.rs). The structs that other components read
-- are those of these components.
pub mod Laws
use tinyllb.Prelude.{
  ℕ, Bool, true, false, not, ◌&&◌, ◌||◌, Option, none, some, List, [], ◌∷◌, if◌then◌else◌, ltb, leb,
  ◌==◌,
}
use tinyllb.Prelude.Float.{Float}
use tinyllb.Flow.Cadence.{PriorityPolicy}
use tinyllb.Scheduler.Backpressure.{BackpressureMode, blocking, fail_fast, hybrid}
use tinyllb.Scheduler.PressureCap.{KvPressure, KvPressureThreshold}
use tinyllb.Gateway.Classify.{RetryPolicy}
use tinyllb.Gateway.Backoff.{TransientRetry}

pub record KvPolicyConfig (F : Float) : Type 0 where
  pub enabled : Bool
  pub reject_threshold : F.Carrier
  pub delay_threshold : F.Carrier

-- The parts that the validation reads: of the URL whether it cannot be a base and whether its scheme
-- is empty, of the old top-level policy whether it is given.
pub record Config (F : Float) : Type 0 where
  pub has_top_level_kv_policy : Bool
  pub max_active_flows : ℕ
  pub starvation_timeout : ℕ
  pub default_weight : F.Carrier
  pub mode : BackpressureMode
  pub max_queue_depth : ℕ
  pub max_wait : ℕ
  pub cannot_be_a_base : Bool
  pub is_scheme_empty : Bool
  pub metrics_interval : ℕ
  pub kv_policy : KvPolicyConfig F
  pub kv_pressure : KvPressure F
  pub retry_policy : RetryPolicy F
  pub transient_retry : TransientRetry
  pub priority_policy : PriorityPolicy

-- One for each message.
pub data ConfigError : Type 0 where
  kv_policy_moved max_active_flows_zero starvation_timeout_zero default_weight_low
        max_queue_depth_zero max_wait_zero url_no_scheme url_not_absolute metrics_interval_zero
        reject_threshold_range delay_threshold_range delay_not_below_reject thresholds_empty
        threshold_at_range thresholds_not_ascending threshold_max_flows_range max_retries_zero
        temperature_step_low max_temperature_below_default max_temperature_high backoff_start_zero
        backoff_max_below_start confirmed_not_above_suspected suspected_zero :
      ConfigError

-- The first error of the two.
infixr 4 ◌then_check◌
abbrev pub ◌then_check◌ : Option ConfigError → Option ConfigError → Option ConfigError
none then_check rest = rest
some e then_check rest = some e

abbrev pub refuse_if : Bool → ConfigError → Option ConfigError
refuse_if b e = if b then some e else none

abbrev pub bounds_queue : BackpressureMode → Bool
bounds_queue blocking = false
bounds_queue fail_fast = true
bounds_queue hybrid = true

abbrev pub bounds_wait : BackpressureMode → Bool
bounds_wait blocking = false
bounds_wait fail_fast = false
bounds_wait hybrid = true

-- `is_zero` of a Duration
abbrev pub is_zero : ℕ → Bool
is_zero n = n == 0

module _ {F : Float} where
  open F use {Carrier, zero, one, le, lt, add}

  unfoldable pub validate_base : Config F → Option ConfigError
  validate_base cfg =
      refuse_if cfg.has_top_level_kv_policy kv_policy_moved
      then_check refuse_if (cfg.max_active_flows == 0) max_active_flows_zero
      then_check refuse_if (is_zero cfg.starvation_timeout) starvation_timeout_zero
      then_check refuse_if (le cfg.default_weight zero) default_weight_low
      then_check refuse_if (bounds_queue cfg.mode && (cfg.max_queue_depth == 0))
          max_queue_depth_zero
      then_check refuse_if (bounds_wait cfg.mode && is_zero cfg.max_wait) max_wait_zero
      then_check refuse_if (not cfg.cannot_be_a_base && cfg.is_scheme_empty) url_no_scheme
      then_check refuse_if cfg.cannot_be_a_base url_not_absolute
      then_check refuse_if (is_zero cfg.metrics_interval) metrics_interval_zero

  unfoldable pub validate_kv_policy : KvPolicyConfig F → Option ConfigError
  validate_kv_policy p =
      if p.enabled
      then (refuse_if (le p.reject_threshold zero || lt one p.reject_threshold)
            reject_threshold_range
          then_check refuse_if (lt p.delay_threshold zero || lt one p.delay_threshold)
              delay_threshold_range
          then_check refuse_if (le p.reject_threshold p.delay_threshold) delay_not_below_reject)
      else none

  abbrev pub any : (KvPressureThreshold F → Bool) → List (KvPressureThreshold F) → Bool
  any test [] = false
  any test (t ∷ ts) = test t || any test ts

  -- `windows(2).any(|w| w[1].at <= w[0].at)`
  abbrev pub has_descent : List (KvPressureThreshold F) → Bool
  has_descent [] = false
  has_descent (t ∷ []) = false
  has_descent (t ∷ u ∷ ts) = le u.at t.at || has_descent (u ∷ ts)

  abbrev pub is_empty : List (KvPressureThreshold F) → Bool
  is_empty [] = true
  is_empty (t ∷ ts) = false

  unfoldable pub validate_kv_pressure : ℕ → KvPressure F → Option ConfigError
  validate_kv_pressure max_active_flows kp =
      if kp.enabled
      then (refuse_if (is_empty kp.thresholds) thresholds_empty
          then_check refuse_if (any (λ t. lt t.at zero || lt one t.at) kp.thresholds)
              threshold_at_range
          then_check refuse_if (has_descent kp.thresholds) thresholds_not_ascending
          then_check refuse_if
              (any (λ t. ltb t.max_flows 1 || ltb max_active_flows t.max_flows) kp.thresholds)
              threshold_max_flows_range)
      else none

  unfoldable pub validate_retry_policy : RetryPolicy F → Option ConfigError
  validate_retry_policy rp =
      if rp.enabled
      then (refuse_if (rp.max_retries == 0) max_retries_zero
          then_check refuse_if (le rp.temperature_step zero) temperature_step_low
          then_check refuse_if (lt rp.max_temperature rp.default_temperature)
              max_temperature_below_default
          then_check refuse_if (lt (add one one) rp.max_temperature) max_temperature_high)
      else none

unfoldable pub validate_transient_retry : TransientRetry → Option ConfigError
validate_transient_retry tr =
    if ltb 0 tr.max_attempts
    then (refuse_if (is_zero tr.backoff_start) backoff_start_zero
        then_check refuse_if (ltb tr.backoff_max tr.backoff_start) backoff_max_below_start)
    else none

unfoldable pub validate_priority_policy : PriorityPolicy → Option ConfigError
validate_priority_policy pp =
    refuse_if (leb pp.agentic_confirmed_threshold pp.agentic_suspected_threshold)
      confirmed_not_above_suspected
    then_check refuse_if (pp.agentic_suspected_threshold == 0) suspected_zero

-- None is a configuration that is accepted.
unfoldable pub validate : {F : Float} → Config F → Option ConfigError
validate cfg =
    validate_base cfg
    then_check validate_kv_policy cfg.kv_policy
    then_check validate_kv_pressure cfg.max_active_flows cfg.kv_pressure
    then_check validate_retry_policy cfg.retry_policy
    then_check validate_transient_retry cfg.transient_retry
    then_check validate_priority_policy cfg.priority_policy
