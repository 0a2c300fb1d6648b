-- ===== src/Prelude/Words.antt =====
-- Machine integers. A u32 is a number, an i64 an integer; arithmetic wraps as the atomics and the
-- release build do.
use tinyllb.Prelude.{ℕ, ◌+◌, ◌-◌, ◌%◌, ◌≤◌, ◌<◌, ◌≡◌, arith, ltb, if◌then◌else◌}
use tinyllb.Prelude.Int.{ℤ, pos, negsuc, ◌+ℤ◌, ◌-ℤ◌, ltb_ℤ, pos_part, neg_part}

abbrev pub u32_mod : ℕ
u32_mod = 4294967296

abbrev pub u32_max : ℕ
u32_max = 4294967295

abbrev pub u64_mod : ℕ
u64_mod = 18446744073709551616

abbrev pub i64_bound : ℕ
i64_bound = 9223372036854775808

abbrev pub add_u32 : ℕ → ℕ → ℕ
add_u32 a b = (a + b) % u32_mod

abbrev pub sub_u32 : ℕ → ℕ → ℕ
sub_u32 a b = (a + u32_mod - b) % u32_mod

-- `a.saturating_sub(b)` on an unsigned word.
abbrev pub saturating_sub : ℕ → ℕ → ℕ
saturating_sub a b = a - b

-- The i64 with the bit pattern `n`.
abbrev pub of_bits : ℕ → ℤ
of_bits n = if ltb n i64_bound then pos n else negsuc (u64_mod - 1 - n)

-- An integer reduced to an i64.
unfoldable pub wrap_i64 : ℤ → ℤ
wrap_i64 (pos n) = of_bits (n % u64_mod)
wrap_i64 (negsuc n) = of_bits (u64_mod - 1 - n % u64_mod)

abbrev pub IsI64 : ℤ → Type 0
IsI64 z = (pos_part z < i64_bound) × (neg_part z ≤ i64_bound)

pub wrap_i64-id : (z : ℤ) → IsI64 z → wrap_i64 z ≡ z
unfolding wrap_i64
wrap_i64-id (pos n) h = ground arith
wrap_i64-id (negsuc n) h = ground arith

unfoldable pub add_i64 : ℤ → ℤ → ℤ
unfolding wrap_i64
add_i64 a b = wrap_i64 (a +ℤ b)

unfoldable pub sub_i64 : ℤ → ℤ → ℤ
unfolding wrap_i64
sub_i64 a b = wrap_i64 (a -ℤ b)

pub add_i64-eq : (a b : ℤ) → IsI64 (a +ℤ b) → add_i64 a b ≡ a +ℤ b
unfolding add_i64
add_i64-eq a b h = wrap_i64-id (a +ℤ b) h

pub sub_i64-eq : (a b : ℤ) → IsI64 (a -ℤ b) → sub_i64 a b ≡ a -ℤ b
unfolding sub_i64
sub_i64-eq a b h = wrap_i64-id (a -ℤ b) h

-- `i64::saturating_sub`.
unfoldable pub saturating_sub_i64 : ℤ → ℤ → ℤ
saturating_sub_i64 a b =
    let d = a -ℤ b in
    if ltb_ℤ d (negsuc (i64_bound - 1))
    then negsuc (i64_bound - 1)
    else if ltb_ℤ (pos (i64_bound - 1)) d
    then pos (i64_bound - 1)
    else d

pub saturating_sub_i64-eq : (a b : ℤ) → IsI64 (a -ℤ b) → saturating_sub_i64 a b ≡ a -ℤ b
unfolding saturating_sub_i64
saturating_sub_i64-eq a b h = ground arith
