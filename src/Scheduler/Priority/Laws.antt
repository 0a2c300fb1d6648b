-- ===== src/Scheduler/Priority/Laws.antt =====
-- The selection by priority against a lexicographic order on plain numbers
-- (src/scheduler/priority.rs). The scheduler's base score is an index of the round-robin order.
use tinyllb.Prelude.{
  ℕ, ◌<◌, ◌≡◌, refl, Bool, true, false, ◌&&◌, ◌||◌, some, List, [], ◌∷◌, map, ◌==◌, ltb,
  if◌then◌else◌, arith, Bool-cases, inl, inr, ◌⊎◌, ap, ◌∙◌,
}
use tinyllb.Prelude.Float.{Float, near}
use tinyllb.Flow.Id.{FlowId}
use tinyllb.Scheduler.Priority.{FlowCandidate, replaces, best_of, select_best, cmp_fair, is_lt}

-- Integers below 2^53 are exact as doubles, and distinct ones differ by more than EPSILON.
abbrev pub exact_bound : ℕ
exact_bound = 9007199254740992

pub record IsExact (F : Float) : Type 0 where
  pub lt_lem : (m n : ℕ) → m < exact_bound → n < exact_bound → F.lt (F.of_ℕ m) (F.of_ℕ n) ≡ ltb m n
  pub near_lem :
      (m n : ℕ) → m < exact_bound → n < exact_bound → near F (F.of_ℕ m) (F.of_ℕ n) ≡ (m == n)

-- A candidate before its index is made a double.
pub record Key (F : Float) : Type 0 where
  pub flow_id : FlowId
  pub priority : ℕ
  pub enqueued_at : ℕ
  pub index : ℕ
  pub kv_footprint : F.Carrier

module _ (F : Float) where
  abbrev pub candidate : Key F → FlowCandidate F
  candidate k = record {
    flow_id = k.flow_id;
    priority = k.priority;
    enqueued_at = k.enqueued_at;
    base_score = F.of_ℕ k.index;
    kv_footprint = k.kv_footprint;
  }

  abbrev pub IsSmall : List (Key F) → Type 0
  IsSmall [] = Unit
  IsSmall (k ∷ ks) = (k.index < exact_bound) × IsSmall ks

  -- Higher priority first, then the lower index, then the earlier enqueue time.
  abbrev pub precedes : Key F → Key F → Bool
  precedes a b =
      ltb b.priority a.priority
      || (a.priority == b.priority)
        && (ltb a.index b.index || (a.index == b.index) && ltb a.enqueued_at b.enqueued_at)

  -- `k` is on the list.
  abbrev pub IsOneOf : Key F → List (Key F) → Type 0
  IsOneOf k [] = ⊥
  IsOneOf k (j ∷ js) = (k ≡ j) ⊎ IsOneOf k js

  -- Nothing on the list precedes `b`.
  abbrev pub IsFirst : Key F → List (Key F) → Type 0
  IsFirst b [] = Unit
  IsFirst b (k ∷ ks) = (precedes k b ≡ false) × IsFirst b ks

  pub replaces-precedes :
      (ex : IsExact F) (a b : Key F)
      → a.index < exact_bound
      → b.index < exact_bound
      → replaces F (candidate a) (candidate b) ≡ precedes a b
  unfolding replaces
  replaces-precedes ex a b ha hb =
      ground (arith, ex.lt_lem a.index b.index ha hb, ex.near_lem a.index b.index ha hb)

  -- On candidates whose base scores are indices below 2^53, where doubles are exact, `cmp_fair` is
  -- the order by priority, then index, then enqueue time.
  pub cmp_fair-precedes :
      (ex : IsExact F) (a b : Key F)
      → a.index < exact_bound
      → b.index < exact_bound
      → is_lt (cmp_fair F (candidate a) (candidate b)) ≡ precedes a b
  unfolding cmp_fair
  cmp_fair-precedes ex a b ha hb =
      ground (arith, ex.lt_lem a.index b.index ha hb, ex.near_lem a.index b.index ha hb)

  precedes_neg_trans :
      (a b c : Key F) → precedes a b ≡ false → precedes b c ≡ false → precedes a c ≡ false
  precedes_neg_trans a b c p q = ground arith

  precedes_asymm : (a b : Key F) → precedes a b ≡ true → precedes b a ≡ false
  precedes_asymm a b p = ground arith

  -- One round of the loop.
  pub best_of-cons :
      (b c : FlowCandidate F) (cs : List (FlowCandidate F)) {v : Bool}
      → replaces F c b ≡ v
      → best_of F b (c ∷ cs) ≡ best_of F (if v then c else b) cs
  unfolding best_of
  best_of-cons b c cs h = ap (λ v. best_of F (if v then c else b) cs) h

  best :
      (ex : IsExact F) (b : Key F) (ks : List (Key F))
      → b.index < exact_bound
      → IsSmall ks
      → (w : Key F) × (best_of F (candidate b) (map candidate ks) ≡ candidate w)
        × ((w ≡ b) ⊎ IsOneOf w ks)
        × (precedes b w ≡ false)
        × IsFirst w ks
  unfolding best_of
  best ex b [] hb s = (b, refl, inl refl, ground arith, tt)
  best ex b (k ∷ ks) hb s = elim (Bool-cases (precedes k b)) [
    | inl y ↦
        let (w, e, m, low, rest) = best ex k ks s.0 s.1 in
        (
          w,
          step k ks (replaces-precedes ex k b s.0 hb ∙ y) ∙ e,
          inr m,
          precedes_neg_trans b k w (precedes_asymm k b y) low,
          (low, rest),
        )
    | inr n ↦
        let (w, e, m, low, rest) = best ex b ks hb s.1 in
        (
          w,
          step k ks (replaces-precedes ex k b s.0 hb ∙ n) ∙ e,
          later w k ks m,
          low,
          (precedes_neg_trans k b w n low, rest),
        )
  ]
    where
      step :
          {v : Bool} (j : Key F) (js : List (Key F))
          → replaces F (candidate j) (candidate b) ≡ v
          → best_of F (candidate b) (map candidate (j ∷ js))
            ≡ best_of F (if v then candidate j else candidate b) (map candidate js)
      step j js h = best_of-cons (candidate b) (candidate j) (map candidate js) h

      later :
          (w j : Key F) (js : List (Key F))
          → (w ≡ b) ⊎ IsOneOf w js
          → (w ≡ b) ⊎ (w ≡ j) ⊎ IsOneOf w js
      later w j js (inl e) = inl e
      later w j js (inr m) = inr (inr m)

  -- Of a non-empty list of candidates whose base scores are indices below 2^53, where doubles are
  -- exact, the flow selected is that of a candidate on the list that no other one precedes by
  -- priority, then index, then enqueue time.
  pub select_best_lem :
      (ex : IsExact F) (k : Key F) (ks : List (Key F))
      → IsSmall (k ∷ ks)
      → (w : Key F) × (select_best F (map candidate (k ∷ ks)) ≡ some w.flow_id)
        × IsOneOf w (k ∷ ks)
        × IsFirst w (k ∷ ks)
  unfolding select_best
  select_best_lem ex k ks s =
      let (w, e, m, low, rest) = best ex k ks s.0 s.1 in (w, rw e, m, (low, rest))
