-- ===== src/Scheduler/KvPolicy/Laws.antt =====
-- The KV gate as a whole (src/scheduler/kv_admission.rs): who is never turned away, and the count of
-- the delayed requests.
use tinyllb.Prelude.{
  ℕ, ◌+◌, ◌<◌, ◌≡◌, ◌≢◌, refl, Bool, true, false, ◌&&◌, inl, inr, Option, none, some, List, [], ◌∷◌,
  Bool-cases, arith, ap, sym,
}
use mathlib.Core.Path.{subst}
use tinyllb.Prelude.Words.{u32_max}
use tinyllb.Prelude.Float.{Float}
use tinyllb.Scheduler.Backpressure.{BackpressureMode, blocking, fail_fast, hybrid}
use tinyllb.Scheduler.Events.{Metrics}
use tinyllb.Scheduler.KvPolicy.{
  KvmDecision, accept, delay, reject, KvPolicy, Gate, proceeds, rejected, parked, Wake, published,
  closed, timed_out, absorbed, decide, act, check, wake, wait, enter_delay, leave_delay,
}

module _ (F : Float) (mul_f64 : ℕ → F.Carrier → ℕ) where
  -- A request's whole pass: the check and, if it is delayed, its wait.
  abbrev pub pass :
      Bool → Option F.Carrier → List (Wake F) → KvPolicy F → Metrics → KvPolicy F × Gate
  pass is_interactive kv_usage ws p m =
      let r = check F mul_f64 is_interactive kv_usage p m in
      elim (r.2) [
        | proceeds ↦ (r.0, proceeds)
        | rejected e ↦ (r.0, rejected e)
        | parked ↦ wait F mul_f64 ws (r.0)
      ]

  -- The delayed requests once this one has come to `gate`, if there were `n` others.
  abbrev pub counted : Gate → ℕ → ℕ
  counted proceeds n = n
  counted (rejected e) n = n
  counted parked n = n + 1

  abbrev pub IsRejected : Gate → Type 0
  IsRejected proceeds = ⊥
  IsRejected (rejected e) = Unit
  IsRejected parked = ⊥

  -- Where a request with `n` others delayed has come to: the count of the delayed requests is right,
  -- the mode is as it was, and only the modes with a bounded wait turn it away.
  abbrev pub IsKept : ℕ → BackpressureMode → KvPolicy F × Gate → Type 0
  IsKept n mode r =
      (r.0.delayed_count ≡ counted r.1 n)
      × (r.0.backpressure_mode ≡ mode)
      × (IsRejected r.1 → mode ≢ blocking)

  timed_out-IsKept :
      (n : ℕ) (mode : BackpressureMode) (p : KvPolicy F)
      → p.backpressure_mode ≡ mode
      → p.delayed_count ≡ n + 1
      → n < u32_max
      → IsKept n mode (wake F mul_f64 timed_out p)
  unfolding wake leave_delay
  timed_out-IsKept n blocking p b e h = rw b (omega (arith, e), refl, λ x. absurd x)
  timed_out-IsKept n fail_fast p b e h = rw b (omega (arith, e, h), refl, λ x y. cc)
  timed_out-IsKept n hybrid p b e h = rw b (omega (arith, e, h), refl, λ x y. cc)

  wake-IsKept :
      (w : Wake F) (n : ℕ) (p : KvPolicy F)
      → p.delayed_count ≡ n + 1
      → n < u32_max
      → IsKept n p.backpressure_mode (wake F mul_f64 w p)
  wake-IsKept (published u) n p e h = elim (Bool-cases (F.le u p.delay_threshold)) [
    | inl y ↦ unfold wake leave_delay in (rw y (omega (arith, e, h), refl, λ x. absurd x))
    | inr k ↦ unfold wake leave_delay in (rw k (omega (arith, e, h), refl, λ x. absurd x))
  ]
  wake-IsKept closed n p e h = unfold wake leave_delay in (omega (arith, e, h), refl, λ x. absurd x)
  wake-IsKept timed_out n p e h = timed_out-IsKept n p.backpressure_mode p refl e h

  wait-IsKept :
      (ws : List (Wake F)) (n : ℕ) (mode : BackpressureMode) (p : KvPolicy F)
      → p.backpressure_mode ≡ mode
      → p.delayed_count ≡ n + 1
      → n < u32_max
      → IsKept n mode (wait F mul_f64 ws p)
  unfolding wait
  wait-IsKept [] n mode p b e h = (e, b, λ x. absurd x)
  wait-IsKept (w ∷ ws) n mode p b e h =
      at (λ p' b' e'. wait-IsKept ws n mode p' b' e' h) (wake F mul_f64 w p)
        (rw (← b) (wake-IsKept w n p e h))
    where
      at :
          ((p' : KvPolicy F)
            → p'.backpressure_mode ≡ mode
            → p'.delayed_count ≡ n + 1
            → IsKept n mode (wait F mul_f64 ws p'))
          → (r : KvPolicy F × Gate) → IsKept n mode r
          → IsKept n mode
              (elim r.1 [ proceeds ↦ r | rejected x ↦ r | parked ↦ wait F mul_f64 ws r.0 ])
      at rest (p', proceeds) k = k
      at rest (p', rejected x) k = k
      at rest (p', parked) k = rest p' k.1 k.0

  -- What the check hands to the wait.
  abbrev waited : List (Wake F) → KvPolicy F × Metrics × Gate → KvPolicy F × Gate
  waited ws r = elim (r.2) [
    | proceeds ↦ (r.0, proceeds)
    | rejected e ↦ (r.0, rejected e)
    | parked ↦ wait F mul_f64 ws (r.0)
  ]

  act-IsKept :
      (d : KvmDecision) (mode : BackpressureMode) (ws : List (Wake F)) (p : KvPolicy F)
      (m : Metrics)
      → p.backpressure_mode ≡ mode
      → p.delayed_count < u32_max
      → IsKept p.delayed_count mode (waited ws (act F mul_f64 (absorbed d mode) p m))
  unfolding act absorbed enter_delay
  act-IsKept accept mode ws p m b h = (refl, b, λ x. absurd x)
  act-IsKept delay mode ws p m b h =
      wait-IsKept ws p.delayed_count mode (enter_delay F mul_f64 p) b (omega (arith, h)) h
  act-IsKept reject blocking ws p m b h =
      wait-IsKept ws p.delayed_count blocking (enter_delay F mul_f64 p) b (omega (arith, h)) h
  act-IsKept reject fail_fast ws p m b h = (refl, b, λ x y. cc)
  act-IsKept reject hybrid ws p m b h = (refl, b, λ x y. cc)

  check-disabled :
      (i : Bool) (u : Option F.Carrier) (p : KvPolicy F) (m : Metrics)
      → p.enabled ≡ false
      → check F mul_f64 i u p m ≡ (p, m, proceeds)
  unfolding check
  check-disabled i u p m e = ground arith

  -- A bypass leaves the policy as it is and lets the request through.
  check-bypass :
      (i : Bool) (u : Option F.Carrier) (p : KvPolicy F) (m : Metrics)
      → p.enabled ≡ true
      → p.bypass_interactive && i ≡ true
      → ((check F mul_f64 i u p m).0 ≡ p) × ((check F mul_f64 i u p m).2 ≡ proceeds)
  unfolding check
  check-bypass i u p m e h = ground arith

  check-decides :
      (i : Bool) (u : Option F.Carrier) (p : KvPolicy F) (m : Metrics)
      → p.enabled ≡ true
      → p.bypass_interactive && i ≡ false
      → check F mul_f64 i u p m ≡ (elim u [
        | none ↦ (p, m, proceeds)
        | some u ↦ act F mul_f64 (absorbed (decide F mul_f64 p u) p.backpressure_mode) p m
      ])
  unfolding check
  check-decides i u p m e h = ground arith

  pass-IsKept :
      (is_interactive : Bool) (kv_usage : Option F.Carrier) (ws : List (Wake F)) (p : KvPolicy F)
      (m : Metrics)
      → p.delayed_count < u32_max
      → IsKept p.delayed_count p.backpressure_mode (pass is_interactive kv_usage ws p m)
  pass-IsKept is_interactive kv_usage ws p m h = elim (Bool-cases p.enabled) [
    | inr off ↦
        subst (λ r. IsKept p.delayed_count p.backpressure_mode (waited ws r))
          (sym (check-disabled is_interactive kv_usage p m off)) (refl, refl, λ x. absurd x)
    | inl on ↦ elim (Bool-cases (p.bypass_interactive && is_interactive)) [
      | inl y ↦
          bypassed (check F mul_f64 is_interactive kv_usage p m)
            (check-bypass is_interactive kv_usage p m on y)
      | inr n ↦
          subst (λ r. IsKept p.delayed_count p.backpressure_mode (waited ws r))
            (sym (check-decides is_interactive kv_usage p m on n)) (at kv_usage)
    ]
  ]
    where
      bypassed :
          (r : KvPolicy F × Metrics × Gate)
          → (r.0 ≡ p) × (r.2 ≡ proceeds)
          → IsKept p.delayed_count p.backpressure_mode (waited ws r)
      bypassed (p', m', proceeds) e =
          (ap (λ q. q.delayed_count) e.0, ap (λ q. q.backpressure_mode) e.0, λ x. absurd x)
      bypassed (p', m', rejected x) e = cc
      bypassed (p', m', parked) e = cc

      at :
          (u : Option F.Carrier)
          → IsKept p.delayed_count p.backpressure_mode (
              waited ws (elim u [
                | none ↦ (p, m, proceeds)
                | some u ↦ act F mul_f64 (absorbed (decide F mul_f64 p u) p.backpressure_mode) p m
              ]))
      at none = (refl, refl, λ x. absurd x)
      at (some u) = act-IsKept (decide F mul_f64 p u) p.backpressure_mode ws p m refl h

  -- A pass through the gate counts its request as delayed exactly while it is in the delay loop: a
  -- request that proceeds, at once or after its wait, or that is turned away leaves the count as it
  -- found it. Fewer than 2³² - 1 others are delayed.
  pub pass-delayed_count :
      (is_interactive : Bool) (kv_usage : Option F.Carrier) (ws : List (Wake F)) (p : KvPolicy F)
      (m : Metrics)
      → p.delayed_count < u32_max
      → (pass is_interactive kv_usage ws p m).0.delayed_count
        ≡ counted (pass is_interactive kv_usage ws p m).1 p.delayed_count
  pass-delayed_count is_interactive kv_usage ws p m h =
      (pass-IsKept is_interactive kv_usage ws p m h).0

  -- In blocking mode the gate turns no request away, whatever the pressure and however long the
  -- request waits.
  pub pass-blocking :
      (is_interactive : Bool) (kv_usage : Option F.Carrier) (ws : List (Wake F)) (p : KvPolicy F)
      (m : Metrics)
      → p.delayed_count < u32_max
      → p.backpressure_mode ≡ blocking
      → ¬ IsRejected (pass is_interactive kv_usage ws p m).1
  pass-blocking is_interactive kv_usage ws p m h b x =
      (pass-IsKept is_interactive kv_usage ws p m h).2 x b
