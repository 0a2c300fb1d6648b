-- ===== src/Prelude/Float.antt =====
-- Doubles. The language's f64 is an interface: a carrier with the operations that the code calls,
-- and separately the laws of its order that a theorem needs. `scaled` is a concrete instance.
use tinyllb.Prelude.{ℕ, ◌*◌, ◌/◌, ◌≡◌, refl, Bool, true, false, not, arith, if◌then◌else◌}
use tinyllb.Prelude.Int.{ℤ, pos, ◌+ℤ◌, ◌-ℤ◌, ltb_ℤ, pos_part, neg_part}

pub record Float : Type 1 where
  pub Carrier : Type 0
  pub zero : Carrier
  pub one : Carrier
  pub epsilon : Carrier
  -- IEEE `<` and `<=`: false on a NaN.
  pub lt : Carrier → Carrier → Bool
  pub le : Carrier → Carrier → Bool
  pub add : Carrier → Carrier → Carrier
  pub sub : Carrier → Carrier → Carrier
  pub mul : Carrier → Carrier → Carrier
  pub div : Carrier → Carrier → Carrier
  pub abs : Carrier → Carrier
  -- `as f64` of an unsigned and of a signed integer, and the saturating `as i64`.
  pub of_ℕ : ℕ → Carrier
  pub of_ℤ : ℤ → Carrier
  pub to_ℤ : Carrier → ℤ

module _ (F : Float) where
  open F use {Carrier, zero, lt, le, epsilon, sub, abs}

  -- `f64::max` at values that are no NaN.
  abbrev pub max : Carrier → Carrier → Carrier
  max a b = if lt a b then b else a

  -- `f64::min`: a NaN gives way to the other value.
  abbrev pub min : Carrier → Carrier → Carrier
  min a b = if lt b a then b else if le a a then a else b

  abbrev pub clamp : Carrier → Carrier → Carrier → Carrier
  clamp lo hi x = if lt x lo then lo else if lt hi x then hi else x

  -- `(a - b).abs() < f64::EPSILON`
  abbrev pub near : Carrier → Carrier → Bool
  near a b = lt (abs (sub a b)) epsilon

  -- What the code relies on about the order of values that are no NaN.
  pub record IsOrdered : Type 0 where
    pub irrefl : (a : Carrier) → lt a a ≡ false
    pub trans : (a b c : Carrier) → lt a b ≡ true → lt b c ≡ true → lt a c ≡ true
    -- a < c goes through any b
    pub split : (a b c : Carrier) → lt a c ≡ true → lt a b ≡ false → lt b c ≡ true
    pub le_lem : (a b : Carrier) → le a b ≡ not (lt b a)

abbrev abs_ℤ : ℤ → ℤ
abs_ℤ a = if ltb_ℤ a (pos 0) then pos 0 -ℤ a else a

-- Doubles that are multiples of 1/1000: exact sums, comparisons and conversions.
abbrev pub scaled : Float
scaled = record {
  Carrier = ℤ;
  zero = pos 0;
  one = pos 1000;
  epsilon = pos 1;
  lt = ltb_ℤ;
  le = λ a b. not (ltb_ℤ b a);
  add = ◌+ℤ◌;
  sub = ◌-ℤ◌;
  mul = λ a b. pos (pos_part a * pos_part b / 1000);
  div = λ a b. pos (pos_part a * 1000 / pos_part b);
  abs = abs_ℤ;
  of_ℕ = λ n. pos (n * 1000);
  of_ℤ = λ a. if ltb_ℤ a (pos 0) then pos 0 -ℤ pos (neg_part a * 1000) else pos (pos_part a * 1000);
  to_ℤ = λ a. if ltb_ℤ a (pos 0) then pos 0 -ℤ pos (neg_part a / 1000) else pos (pos_part a / 1000);
}

pub scaled-IsOrdered : IsOrdered scaled
scaled-IsOrdered = record {
  irrefl = λ a. ground arith;
  trans = λ a b c p q. ground arith;
  split = λ a b c p q. ground arith;
  le_lem = λ a b. refl;
}
