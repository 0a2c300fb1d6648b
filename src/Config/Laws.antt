-- ===== src/Config/Laws.antt =====
-- What a configuration that src/config/loader.rs accepts guarantees to the components.
use tinyllb.Prelude.{
  ℕ, ◌≤◌, ◌≡◌, refl, ◌⊎◌, inl, inr, Bool, true, false, ◌||◌, Option, none, some, List, [], ◌∷◌, ltb,
  ◌==◌, arith, Bool-cases, Option-cases,
}
use Prim.Native.Nat.{min}
use tinyllb.Prelude.Float.{Float}
use tinyllb.Flow.Cadence.{PriorityPolicy}
use tinyllb.Flow.Cadence.Laws.{IsValid}
use tinyllb.Scheduler.PressureCap.{
  KvPressure, KvPressureThreshold, minimum, matching, effective_max,
}
use tinyllb.Gateway.Backoff.{TransientRetry}
use tinyllb.Config.{
  Config, ConfigError, ◌then_check◌, refuse_if, any, is_empty, has_descent, kv_policy_moved,
  max_active_flows_zero, thresholds_empty, threshold_at_range, thresholds_not_ascending,
  threshold_max_flows_range, validate_base, validate_kv_policy, validate_kv_pressure,
  validate_retry_policy, validate_transient_retry, validate_priority_policy, validate,
}

-- Both checks pass if the two in sequence pass.
then_check-none : (a b : Option ConfigError) → (a then_check b) ≡ none → (a ≡ none) × (b ≡ none)
then_check-none none b h = (refl, h)
then_check-none (some e) b h = cc

refuse_if-none : (b : Bool) (e : ConfigError) → refuse_if b e ≡ none → b ≡ false
refuse_if-none b e h = ground (arith, h)

validate_priority_policy-IsValid :
    (p : PriorityPolicy) → validate_priority_policy p ≡ none → IsValid p
unfolding validate_priority_policy
validate_priority_policy-IsValid p h = record {
  suspected = ground (arith, h);
  confirmed = ground (arith, h);
}

validate_transient_retry-backoff :
    (t : TransientRetry)
    → validate_transient_retry t ≡ none
    → (t.max_attempts ≡ 0) ⊎ (t.backoff_start ≤ t.backoff_max)
unfolding validate_transient_retry
validate_transient_retry-backoff t h = elim (Bool-cases (ltb 0 t.max_attempts)) [
  | inl y ↦ inr (ground (arith, h, y))
  | inr k ↦ inl (ground (arith, k))
]

module _ {F : Float} where
  -- The limits of the thresholds that are reached are positive if all limits are.
  minimum-matching :
      (x : F.Carrier) (m : ℕ) (ts : List (KvPressureThreshold F)) (n : ℕ)
      → any (λ t. ltb t.max_flows 1 || ltb m t.max_flows) ts ≡ false
      → minimum (matching F x ts) ≡ some n
      → 1 ≤ n
  unfolding minimum matching
  minimum-matching x m [] n h e = cc
  minimum-matching x m (t ∷ ts) n h e = elim (Bool-cases (F.le t.at x)) [
    | inr k ↦ minimum-matching x m ts n (ground (arith, h)) (rw (k, matching) at e)
    | inl y ↦ elim (Option-cases (minimum (matching F x ts))) [
      | inl z ↦
          let e' : some t.max_flows ≡ some n = rw (y, z, matching, minimum) at e in
          ground (arith, h, e')
      | inr (k, z) ↦
          let e' : some (min t.max_flows k) ≡ some n = rw (y, z, matching, minimum) at e in
          let l : 1 ≤ k = minimum-matching x m ts k (ground (arith, h)) z in
          ground (arith, h, e', l)
    ]
  ]

  limits_in_range :
      (kp : KvPressure F) (m : ℕ)
      → kp.enabled ≡ true
      → validate_kv_pressure m kp ≡ none
      → any (λ t. ltb t.max_flows 1 || ltb m t.max_flows) kp.thresholds ≡ false
  unfolding validate_kv_pressure
  limits_in_range kp m y v =
      let a =
        then_check-none (refuse_if (is_empty kp.thresholds) thresholds_empty) _
          (rw (y, validate_kv_pressure) at v) in
      let b =
        then_check-none
          (refuse_if (any (λ t. F.lt t.at F.zero || F.lt F.one t.at) kp.thresholds)
            threshold_at_range)
          _ a.1 in
      let c =
        then_check-none (refuse_if (has_descent kp.thresholds) thresholds_not_ascending) _ b.1 in
      refuse_if-none (any (λ t. ltb t.max_flows 1 || ltb m t.max_flows) kp.thresholds)
        threshold_max_flows_range c.1

  effective_max-bounds :
      (kp : KvPressure F) (m : ℕ) (x : F.Carrier)
      → 1 ≤ m
      → validate_kv_pressure m kp ≡ none
      → (1 ≤ effective_max F kp m x) × (effective_max F kp m x ≤ m)
  unfolding effective_max validate_kv_pressure
  effective_max-bounds kp m x l v = elim (Bool-cases kp.enabled) [
    | inr k ↦ rw (k, effective_max) (l, omega arith)
    | inl y ↦
        let c : any (λ t. ltb t.max_flows 1 || ltb m t.max_flows) kp.thresholds ≡ false =
          limits_in_range kp m y v in
        elim (Option-cases (minimum (matching F x kp.thresholds))) [
          | inl z ↦ rw (y, z, effective_max) (l, omega arith)
          | inr (n, z) ↦
              let p : 1 ≤ n = minimum-matching x m kp.thresholds n c z in
              rw (y, z, effective_max) (omega arith, omega arith)
        ]
  ]

  -- What an accepted configuration gives the components, at any pressure.
  pub record IsUsable (cfg : Config F) (pressure : F.Carrier) : Type 0 where
    pub cadence : IsValid cfg.priority_policy
    pub cap_positive : 1 ≤ effective_max F cfg.kv_pressure cfg.max_active_flows pressure
    pub cap_bounded :
        effective_max F cfg.kv_pressure cfg.max_active_flows pressure ≤ cfg.max_active_flows
    pub backoff :
        (cfg.transient_retry.max_attempts ≡ 0)
        ⊎ (cfg.transient_retry.backoff_start ≤ cfg.transient_retry.backoff_max)

  cap_not_zero : (cfg : Config F) → validate_base cfg ≡ none → 1 ≤ cfg.max_active_flows
  unfolding validate_base
  cap_not_zero cfg h =
      let a = then_check-none (refuse_if cfg.has_top_level_kv_policy kv_policy_moved) _ h in
      let b = then_check-none (refuse_if (cfg.max_active_flows == 0) max_active_flows_zero) _ a.1 in
      let c : (cfg.max_active_flows == 0) ≡ false =
        refuse_if-none (cfg.max_active_flows == 0) max_active_flows_zero b.0 in
      ground (arith, c)

  -- A configuration that is accepted has cadence thresholds in order and above 0, an effective cap
  -- between 1 and max_active_flows at every pressure, and a backoff that starts at or below its
  -- maximum unless transient retries are off.
  pub validate-IsUsable :
      (cfg : Config F) (pressure : F.Carrier) → validate cfg ≡ none → IsUsable cfg pressure
  unfolding validate
  validate-IsUsable cfg pressure h =
      let a = then_check-none (validate_base cfg) _ h in
      let b = then_check-none (validate_kv_policy cfg.kv_policy) _ a.1 in
      let c = then_check-none (validate_kv_pressure cfg.max_active_flows cfg.kv_pressure) _ b.1 in
      let d = then_check-none (validate_retry_policy cfg.retry_policy) _ c.1 in
      let f = then_check-none (validate_transient_retry cfg.transient_retry) _ d.1 in
      let cap =
        effective_max-bounds cfg.kv_pressure cfg.max_active_flows pressure (cap_not_zero cfg a.0)
          c.0 in
      record {
        cadence = validate_priority_policy-IsValid cfg.priority_policy f.1;
        cap_positive = cap.0;
        cap_bounded = cap.1;
        backoff = validate_transient_retry-backoff cfg.transient_retry f.0;
      }
