-- ===== src/Gateway/Backoff.antt =====
-- The wait before a request is sent again: transient_backoff of src/gateway/retry.rs. A Duration is
-- a number of nanoseconds.
use tinyllb.Prelude.{
  ℕ, zero, suc, ◌-◌, ◌*◌, ◌^◌, ◌≤◌, ◌≡◌, refl, inl, inr, leb, arith, if◌then◌else◌, Bool-cases,
}
use tinyllb.Prelude.Words.{u64_mod, saturating_sub}
use Prim.Native.Nat.{min}
use native.Mathlib.Nat.{mul_assoc}

pub record TransientRetry : Type 0 where
  pub max_attempts : ℕ
  pub backoff_start : ℕ
  pub backoff_max : ℕ

-- `Duration::MAX`: u64::MAX seconds and 999,999,999 nanoseconds.
abbrev pub duration_max : ℕ
duration_max = u64_mod * 1000000000 - 1

-- `delay.saturating_mul(2)`
abbrev pub double : ℕ → ℕ
double d = min (d * 2) duration_max

unfoldable pub backoff_rounds : ℕ → ℕ → ℕ → ℕ
backoff_rounds zero delay backoff_max = delay
backoff_rounds (suc n) delay backoff_max =
    let later = backoff_rounds n (double delay) backoff_max in
    if leb backoff_max (double delay) then backoff_max else later

unfoldable pub transient_backoff : ℕ → TransientRetry → ℕ
unfolding backoff_rounds
transient_backoff attempt policy =
    backoff_rounds (saturating_sub attempt 1) policy.backoff_start policy.backoff_max

pub pow_pos : (n : ℕ) → 1 ≤ 2 ^ n
pow_pos zero = omega arith
pow_pos (suc n) = omega (arith, pow_pos n)

double_pow : (d n : ℕ) → d * 2 * 2 ^ n ≡ d * 2 ^ suc n
double_pow d n = let e : 2 * 2 ^ n ≡ 2 ^ suc n = omega arith in rw (← e) (mul_assoc d 2 (2 ^ n))

le_mul_pow : (d n : ℕ) → d ≤ d * 2 ^ n
le_mul_pow d zero = omega arith
le_mul_pow d (suc n) = omega (arith, le_mul_pow (d * 2) n, double_pow d n)

backoff_rounds-min :
    (n d m : ℕ) → d ≤ m → m ≤ duration_max → backoff_rounds n d m ≡ min (d * 2 ^ n) m
unfolding backoff_rounds
backoff_rounds-min zero d m h k = omega arith
backoff_rounds-min (suc n) d m h k = elim (Bool-cases (leb m (double d))) [
  | inl reached ↦ ground (arith, reached, le_mul_pow (d * 2) n, double_pow d n)
  | inr below ↦
      let e : double d ≡ d * 2 = ground (arith, below) in
      let ih : backoff_rounds n (double d) m ≡ min (double d * 2 ^ n) m =
        backoff_rounds-min n (double d) m (ground (arith, below)) k in
      rw (below, ih, e, double_pow d n) refl
]

-- The wait before the n-th attempt is the start doubled for each attempt before it, and the maximum
-- at most. The start is at most the maximum, which is a Duration.
pub transient_backoff-min :
    (n : ℕ) (p : TransientRetry)
    → p.backoff_start ≤ p.backoff_max
    → p.backoff_max ≤ duration_max
    → transient_backoff (suc n) p ≡ min (p.backoff_start * 2 ^ n) p.backoff_max
unfolding transient_backoff
transient_backoff-min n p h k =
    let e : suc n - 1 ≡ n = omega arith in
    rw e (backoff_rounds-min n p.backoff_start p.backoff_max h k)
