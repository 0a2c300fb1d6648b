-- ===== src/Scheduler/PressureCap/Laws.antt =====
-- The concurrency cap: its bounds, what attains it, and its fall with the pressure.
use Prim.Native.Nat.{min}
use mathlib.Core.Path.{subst}
use tinyllb.Prelude.{
  ℕ, ◌≤◌, ◌<◌, ◌≡◌, refl, true, false, Option, none, some, List, [], ◌∷◌, if◌then◌else◌,
  from_option, arith, ◌⊎◌, inl, inr, Bool-cases,
}
use tinyllb.Prelude.Float.{Float, IsOrdered}
use tinyllb.Scheduler.PressureCap.{
  KvPressure, KvPressureThreshold, matching, minimum, effective_max,
}

module _ (F : Float) where
  open F use {Carrier, zero, one, lt, le}

  -- No reached threshold allows fewer than `c` flows.
  abbrev pub AllAllow : ℕ → Carrier → List (KvPressureThreshold F) → Type 0
  AllAllow c p [] = Unit
  AllAllow c p (t ∷ ts) = (le t.at p ≡ true → c ≤ t.max_flows) × AllAllow c p ts

  -- Some reached threshold allows exactly `c` flows.
  abbrev pub SomeAllows : ℕ → Carrier → List (KvPressureThreshold F) → Type 0
  SomeAllows c p [] = ⊥
  SomeAllows c p (t ∷ ts) = ((le t.at p ≡ true) × (c ≡ t.max_flows)) ⊎ SomeAllows c p ts

  AllAllow-mono :
      (c d : ℕ) (p : Carrier) (ts : List (KvPressureThreshold F))
      → c ≤ d
      → AllAllow d p ts
      → AllAllow c p ts
  AllAllow-mono c d p [] h a = tt
  AllAllow-mono c d p (t ∷ ts) h a = (λ r. omega (arith, a.0 r), AllAllow-mono c d p ts h a.1)

  abbrev IsLeast : Option ℕ → Carrier → List (KvPressureThreshold F) → Type 0
  IsLeast none p ts = (c : ℕ) → AllAllow c p ts
  IsLeast (some m) p ts = AllAllow m p ts × SomeAllows m p ts

  minimum-IsLeast :
      (p : Carrier) (ts : List (KvPressureThreshold F)) → IsLeast (minimum (matching F p ts)) p ts
  unfolding minimum matching
  minimum-IsLeast p [] = λ c. tt
  minimum-IsLeast p (t ∷ ts) = elim (Bool-cases (le t.at p)) [
    | inr n ↦ rw n (skip (minimum (matching F p ts)) n (minimum-IsLeast p ts))
    | inl y ↦ rw y (take_in (minimum (matching F p ts)) y (minimum-IsLeast p ts))
  ]
    where
      skip : (m : Option ℕ) → le t.at p ≡ false → IsLeast m p ts → IsLeast m p (t ∷ ts)
      skip none n ih = λ c. (λ r. cc, ih c)
      skip (some m) n ih = ((λ r. cc, ih.0), inr ih.1)

      allow : (k : ℕ) → AllAllow k p ts → AllAllow (min t.max_flows k) p (t ∷ ts)
      allow k a = (λ r. omega arith, AllAllow-mono (min t.max_flows k) k p ts (omega arith) a)

      take_in :
          (m : Option ℕ)
          → le t.at p ≡ true
          → IsLeast m p ts
          → IsLeast (some (elim m [ none ↦ t.max_flows | some k ↦ min t.max_flows k ])) p (t ∷ ts)
      take_in none y ih = ((λ r. omega arith, ih t.max_flows), inl (y, refl))
      take_in (some k) y ih = elim (le_cases t.max_flows k) [
        | inl h ↦ (allow k ih.0, inl (y, omega arith))
        | inr h ↦
            let e : k ≡ min t.max_flows k = omega arith in
            (allow k ih.0, inr (subst (λ c. SomeAllows c p ts) e ih.1))
      ]
        where
          le_cases : (a b : ℕ) → (a ≤ b) ⊎ (b < a)
          le_cases a b = grind arith

  -- The least of `n` and what the reached thresholds allow.
  abbrev pub allowed : ℕ → Carrier → List (KvPressureThreshold F) → ℕ
  allowed n p [] = n
  allowed n p (t ∷ ts) = if le t.at p then min t.max_flows (allowed n p ts) else allowed n p ts

  -- What the code makes of the least reached bound.
  abbrev bounded_by : ℕ → Option ℕ → ℕ
  bounded_by n m = from_option n (elim m [ none ↦ none | some k ↦ some (min k n) ])

  bounded_by-allowed :
      (n : ℕ) (p : Carrier) (ts : List (KvPressureThreshold F))
      → bounded_by n (minimum (matching F p ts)) ≡ allowed n p ts
  unfolding minimum matching
  bounded_by-allowed n p [] = refl
  bounded_by-allowed n p (t ∷ ts) = elim (Bool-cases (le t.at p)) [
    | inr k ↦ rw k (bounded_by-allowed n p ts)
    | inl y ↦ rw y (at (minimum (matching F p ts)) (bounded_by-allowed n p ts))
  ]
    where
      at :
          (m : Option ℕ)
          → bounded_by n m ≡ allowed n p ts
          → min (elim m [ none ↦ t.max_flows | some k ↦ min t.max_flows k ]) n
            ≡ min t.max_flows (allowed n p ts)
      at none h = omega (arith, h)
      at (some k) h = omega (arith, h)

  -- With the cap enabled it is the least of `max_active_flows` and the limits of the thresholds
  -- that the pressure has reached.
  pub effective_max-allowed :
      (config : KvPressure F) (n : ℕ) (p : Carrier)
      → config.enabled ≡ true
      → effective_max F config n p ≡ allowed n p config.thresholds
  unfolding effective_max
  effective_max-allowed config n p on =
      rw (on, effective_max) (bounded_by-allowed n p config.thresholds)

  -- The cap is at most `max_active_flows` and at most what every reached threshold allows, and one
  -- of these attains it; disabled, it is `max_active_flows`.
  pub effective_max_lem :
      (config : KvPressure F) (n : ℕ) (p : Carrier)
      → (effective_max F config n p ≤ n)
        × (config.enabled ≡ true → AllAllow (effective_max F config n p) p config.thresholds)
        × ((effective_max F config n p ≡ n)
            ⊎ ((config.enabled ≡ true)
                × SomeAllows (effective_max F config n p) p config.thresholds))
        × (config.enabled ≡ false → effective_max F config n p ≡ n)
  unfolding effective_max
  effective_max_lem config n p = elim (Bool-cases config.enabled) [
    | inr off ↦ rw off (omega arith, λ e. cc, inl refl, λ e. refl)
    | inl on ↦
        rw on
          (capped (minimum (matching F p config.thresholds)) (minimum-IsLeast p config.thresholds))
  ]
    where
      cap : Option ℕ → ℕ
      cap m = from_option n (elim m [ none ↦ none | some k ↦ some (min k n) ])

      allow : (k : ℕ) → AllAllow k p config.thresholds → AllAllow (min k n) p config.thresholds
      allow k a = AllAllow-mono (min k n) k p config.thresholds (omega arith) a

      capped :
          (m : Option ℕ)
          → IsLeast m p config.thresholds
          → (cap m ≤ n)
            × (true ≡ true → AllAllow (cap m) p config.thresholds)
            × ((cap m ≡ n) ⊎ ((true ≡ true) × SomeAllows (cap m) p config.thresholds))
            × (true ≡ false → cap m ≡ n)
      capped none h = (omega arith, λ e. h n, inl refl, λ e. refl)
      capped (some k) h = elim (le_cases k n) [
        | inl le ↦
            let e : k ≡ min k n = omega arith in
            (
              omega arith,
              λ _. allow k h.0,
              inr (refl, subst (λ c. SomeAllows c p config.thresholds) e h.1),
              λ f. cc,
            )
        | inr gt ↦ (omega arith, λ _. allow k h.0, inl (omega arith), λ f. cc)
      ]
        where
          le_cases : (a b : ℕ) → (a ≤ b) ⊎ (b < a)
          le_cases a b = grind arith

  AllAllow-rise :
      (ord : IsOrdered F) (c : ℕ) (p q : Carrier) (ts : List (KvPressureThreshold F))
      → lt q p ≡ false
      → AllAllow c q ts
      → AllAllow c p ts
  AllAllow-rise ord c p q [] h a = tt
  AllAllow-rise ord c p q (t ∷ ts) h a = (λ r. a.0 (le_up t.at r), AllAllow-rise ord c p q ts h a.1)
    where
      le_up : (x : Carrier) → le x p ≡ true → le x q ≡ true
      le_up x r = elim (Bool-cases (lt q x)) [
        | inl bad ↦ absurd (ground (arith, r, ord.le_lem x p, ord.split q p x bad h))
        | inr ok ↦ rw (ord.le_lem x q, ok)
      ]

  -- A higher pressure never raises the cap, for doubles that are ordered (none is a NaN).
  pub effective_max_antitone :
      (ord : IsOrdered F) (config : KvPressure F) (n : ℕ) (p q : Carrier)
      → lt q p ≡ false
      → effective_max F config n q ≤ effective_max F config n p
  effective_max_antitone ord config n p q h =
      let lp = effective_max_lem config n p in
      let lq = effective_max_lem config n q in
      elim (Bool-cases config.enabled) [
        | inr off ↦ omega (arith, lp.3 off, lq.3 off)
        | inl on ↦ elim lp.2 [
          | inl e ↦ omega (arith, e, lq.0)
          | inr (_, s) ↦
              below (effective_max F config n q) (effective_max F config n p) p config.thresholds
                (AllAllow-rise ord (effective_max F config n q) p q config.thresholds h (lq.1 on)) s
        ]
      ]
    where
      below :
          (c d : ℕ) (x : Carrier) (ts : List (KvPressureThreshold F))
          → AllAllow c x ts
          → SomeAllows d x ts
          → c ≤ d
      below c d x [] a s = absurd s
      below c d x (t ∷ ts) a (inl (r, e)) = omega (arith, a.0 r)
      below c d x (t ∷ ts) a (inr s) = below c d x ts a.1 s
