-- ===== src/Scheduler/KvBias/Laws.antt =====
-- The bias picks a candidate of the round, and without a difference in footprint it is the fair
-- selection (src/scheduler/kv_bias.rs).
use tinyllb.Prelude.{
  ◌<◌, ◌≡◌, refl, Bool, true, false, some, List, [], ◌∷◌, map, if◌then◌else◌, arith, Bool-cases,
  inl, inr, ◌⊎◌, ap, sym, ◌∙◌,
}
use tinyllb.Prelude.Float.{Float}
use tinyllb.Scheduler.Priority.{FlowCandidate, select_best, best_of, replaces}
use tinyllb.Scheduler.Priority.Laws.{
  Key, candidate, IsExact, IsSmall, precedes, cmp_fair-precedes, replaces-precedes, exact_bound,
  best_of-cons,
}
use tinyllb.Scheduler.KvBias.{
  KvBias, bias_weight, max_footprint, is_better, best_scored, select_scored, is_empty, select,
}

module _ (F : Float) where
  open F use {Carrier, zero, one, epsilon, lt, le, sub, mul, div, abs}

  -- The candidate is on the list.
  abbrev pub IsCandidate : FlowCandidate F → List (FlowCandidate F) → Type 0
  IsCandidate c [] = ⊥
  IsCandidate c (d ∷ ds) = (c ≡ d) ⊎ IsCandidate c ds

  -- A step of either loop keeps the best so far on the list.
  step-IsCandidate :
      (v : Bool) (g : FlowCandidate F → Carrier → FlowCandidate F) (b c : FlowCandidate F)
      (sb sc : Carrier) (cs : List (FlowCandidate F))
      → IsCandidate (g c sc) (c ∷ cs)
      → IsCandidate (g b sb) (b ∷ cs)
      → IsCandidate (g (if v then c else b) (if v then sc else sb)) (b ∷ c ∷ cs)
  step-IsCandidate true g b c sb sc cs hc hb = inr hc
  step-IsCandidate false g b c sb sc cs hc (inl e) = inl e
  step-IsCandidate false g b c sb sc cs hc (inr m) = inr (inr m)

  best_of-IsCandidate :
      (b : FlowCandidate F) (cs : List (FlowCandidate F)) → IsCandidate (best_of F b cs) (b ∷ cs)
  unfolding best_of
  best_of-IsCandidate b [] = inl refl
  best_of-IsCandidate b (c ∷ cs) =
      step-IsCandidate (replaces F c b) (λ x _. best_of F x cs) b c zero zero cs
        (best_of-IsCandidate c cs) (best_of-IsCandidate b cs)

  best_scored-IsCandidate :
      (weight top : Carrier) (b : FlowCandidate F) (s : Carrier) (cs : List (FlowCandidate F))
      → IsCandidate (best_scored F weight top b s cs) (b ∷ cs)
  unfolding best_scored
  best_scored-IsCandidate weight top b s [] = inl refl
  best_scored-IsCandidate weight top b s (c ∷ cs) =
      let score = mul weight (div c.kv_footprint top) in
      step-IsCandidate (is_better F c score b s) (λ x v. best_scored F weight top x v cs) b c s
        score cs (best_scored-IsCandidate weight top c score cs)
        (best_scored-IsCandidate weight top b s cs)

  -- Whatever the configuration, the pressure and the values, a non-empty round has a winner, and
  -- it is one of the candidates.
  pub select-IsCandidate :
      (config : KvBias F) (c : FlowCandidate F) (cs : List (FlowCandidate F)) (pressure : Carrier)
      → (w : FlowCandidate F) × (select F config (c ∷ cs) pressure ≡ some w.flow_id)
        × IsCandidate w (c ∷ cs)
  unfolding select select_best select_scored is_empty
  select-IsCandidate config c cs pressure =
      let weight = if config.enabled then bias_weight F config pressure else zero in
      let top = max_footprint F zero (c ∷ cs) in
      elim (Bool-cases (le weight zero)) [
        | inl y ↦ (best_of F c cs, rw y, best_of-IsCandidate c cs)
        | inr n ↦ elim (Bool-cases (le top zero)) [
          | inl y ↦ (best_of F c cs, rw (n, y), best_of-IsCandidate c cs)
          | inr m ↦ (
            best_scored F weight top c (mul weight (div c.kv_footprint top)) cs,
            rw (n, m),
            best_scored-IsCandidate weight top c (mul weight (div c.kv_footprint top)) cs,
          )
        ]
      ]

  -- All footprints of the round are `f`.
  abbrev pub AllHold : Carrier → List (Key F) → Type 0
  AllHold f [] = Unit
  AllHold f (k ∷ ks) = (k.kv_footprint ≡ f) × AllHold f ks

  -- Between equal scores the bias falls back on the fair order.
  is_better-precedes :
      (ex : IsExact F) (s : Carrier) (a b : Key F)
      → lt epsilon (abs (sub s s)) ≡ false
      → a.index < exact_bound
      → b.index < exact_bound
      → is_better F (candidate F a) s (candidate F b) s ≡ precedes F a b
  unfolding is_better
  is_better-precedes ex s a b z ha hb = rw z (cmp_fair-precedes F ex a b ha hb)

  best_scored-cons :
      (weight top s : Carrier) (b c : FlowCandidate F) (cs : List (FlowCandidate F)) {v : Bool}
      → mul weight (div c.kv_footprint top) ≡ s
      → is_better F c s b s ≡ v
      → best_scored F weight top b s (c ∷ cs) ≡ best_scored F weight top (if v then c else b) s cs
  unfolding best_scored
  best_scored-cons weight top s b c cs {v} e h =
      rw e (rw h (ap (λ x. best_scored F weight top (if v then c else b) x cs) (if_same v s)))
    where
      if_same : (v : Bool) (x : Carrier) → (if v then x else x) ≡ x
      if_same true x = refl
      if_same false x = refl

  same_score :
      (ex : IsExact F) (weight top f : Carrier) (b : Key F) (ks : List (Key F))
      → lt epsilon (abs (sub (mul weight (div f top)) (mul weight (div f top)))) ≡ false
      → b.index < exact_bound
      → IsSmall F ks
      → AllHold f ks
      → best_scored F weight top (candidate F b) (mul weight (div f top)) (map (candidate F) ks)
        ≡ best_of F (candidate F b) (map (candidate F) ks)
  same_score ex weight top f b [] z hb s a = unfold best_scored best_of in refl
  same_score ex weight top f b (k ∷ ks) z hb s a =
      let score = mul weight (div f top) in
      let cs = map (candidate F) ks in
      let e : mul weight (div k.kv_footprint top) ≡ score = rw a.0 in
      let biased = is_better-precedes ex score k b z s.0 hb in
      let fair = replaces-precedes F ex k b s.0 hb in
      elim (Bool-cases (precedes F k b)) [
        | inl y ↦
            best_scored-cons weight top score (candidate F b) (candidate F k) cs e (biased ∙ y)
            ∙ same_score ex weight top f k ks z s.0 s.1 a.1
            ∙ sym (best_of-cons F (candidate F b) (candidate F k) cs (fair ∙ y))
        | inr n ↦
            best_scored-cons weight top score (candidate F b) (candidate F k) cs e (biased ∙ n)
            ∙ same_score ex weight top f b ks z hb s.1 a.1
            ∙ sym (best_of-cons F (candidate F b) (candidate F k) cs (fair ∙ n))
      ]

  -- When all candidates of a round hold the same footprint, the bias changes nothing: whatever its
  -- weight, the winner is that of the fair selection. The base scores are indices below 2^53, where
  -- doubles are exact, and a score less itself is no more than EPSILON.
  pub select-equal_footprints :
      (ex : IsExact F) (config : KvBias F) (f : Carrier) (ks : List (Key F)) (pressure : Carrier)
      → ((s : Carrier) → lt epsilon (abs (sub s s)) ≡ false)
      → IsSmall F ks
      → AllHold f ks
      → select F config (map (candidate F) ks) pressure ≡ select_best F (map (candidate F) ks)
  unfolding select select_best select_scored is_empty
  select-equal_footprints ex config f [] pressure z s a = ground arith
  select-equal_footprints ex config f (k ∷ ks) pressure z s a =
      let weight = if config.enabled then bias_weight F config pressure else zero in
      let top = max_footprint F zero (map (candidate F) (k ∷ ks)) in
      let same = same_score ex weight top f k ks (z (mul weight (div f top))) s.0 s.1 a.1 in
      ground (arith, a.0, same)
