-- ===== src/Gateway/Frames/Delimiter.antt =====
-- Where find_delimiter of src/gateway/retry.rs finds a delimiter, in a buffer, in a longer one and in
-- what is cut from it.
use tinyllb.Prelude.{
  ℕ, zero, suc, ◌≤◌, ◌≡◌, refl, true, false, ◌&&◌, List, [], ◌∷◌, ◌++◌, Option, none, some, ◌==◌,
  length, take, arith, inl, inr, Bool-cases,
}
use tinyllb.Gateway.Frames.{cr, lf, is_crlf, bump, find_delimiter}

is_crlf-length : (s : List ℕ) → is_crlf s ≡ true → 2 ≤ length s
is_crlf-length [] h = cc
is_crlf-length (x ∷ []) h = cc
is_crlf-length (x ∷ y ∷ s) h = omega arith

is_crlf-append : (s t : List ℕ) → is_crlf s ≡ true → is_crlf (s ++ t) ≡ true
is_crlf-append [] t h = cc
is_crlf-append (x ∷ []) t h = cc
is_crlf-append (x ∷ y ∷ s) t h = h

bump-some : (o : Option ℕ) (n : ℕ) → bump o ≡ some n → (m : ℕ) × (o ≡ some m) × (n ≡ suc m)
bump-some none n h = cc
bump-some (some m) n h = (m, refl, ground arith)

-- A delimiter ends within the buffer, after two bytes at least.
pub find_delimiter_bound :
    (s : List ℕ) (n : ℕ) → find_delimiter s ≡ some n → (2 ≤ n) × (n ≤ length s)
unfolding find_delimiter
find_delimiter_bound [] n h = cc
find_delimiter_bound (a ∷ []) n h = cc
find_delimiter_bound (a ∷ b ∷ s) n h = elim (Bool-cases ((a == cr) && (b == lf) && is_crlf s)) [
  | inl crlf ↦
      let e : some 4 ≡ some n = rw crlf at h in
      let l : 2 ≤ length s = is_crlf-length s (ground arith) in ground arith
  | inr no_crlf ↦ elim (Bool-cases ((a == lf) && (b == lf))) [
    | inl lf2 ↦ let e : some 2 ≡ some n = rw (no_crlf, lf2) at h in ground arith
    | inr no_lf2 ↦
        let e : bump (find_delimiter (b ∷ s)) ≡ some n = rw (no_crlf, no_lf2) at h in
        let (m, e', k) = bump-some (find_delimiter (b ∷ s)) n e in
        let ih : (2 ≤ m) × (m ≤ suc (length s)) = find_delimiter_bound (b ∷ s) m e' in
        omega (arith, ih.0, ih.1)
  ]
]

-- The bytes of a CRLF pair are all there if a delimiter follows their line feed.
is_crlf_complete :
    (b : ℕ) (s t : List ℕ) (m : ℕ)
    → find_delimiter (b ∷ s) ≡ some m
    → b ≡ lf
    → is_crlf (s ++ t) ≡ true
    → is_crlf s ≡ true
unfolding find_delimiter
is_crlf_complete b [] t m h e c = cc
is_crlf_complete b (x ∷ []) [] m h e c = cc
is_crlf_complete b (x ∷ []) (y ∷ t) m h e c = let k : x ≡ cr = ground arith in ground arith
is_crlf_complete b (x ∷ y ∷ s) t m h e c = c

-- More bytes do not move the first delimiter.
pub find_delimiter-append :
    (s t : List ℕ) (n : ℕ) → find_delimiter s ≡ some n → find_delimiter (s ++ t) ≡ some n
unfolding find_delimiter
find_delimiter-append [] t n h = cc
find_delimiter-append (a ∷ []) t n h = cc
find_delimiter-append (a ∷ b ∷ s) t n h = elim (Bool-cases ((a == cr) && (b == lf) && is_crlf s)) [
  | inl crlf ↦
      let e : some 4 ≡ some n = rw crlf at h in
      let l : is_crlf (s ++ t) ≡ true = is_crlf-append s t (ground arith) in
      ground (arith, crlf, l, e)
  | inr no_crlf ↦ elim (Bool-cases ((a == lf) && (b == lf))) [
    | inl lf2 ↦ let e : some 2 ≡ some n = rw (no_crlf, lf2) at h in ground (arith, lf2, e)
    | inr no_lf2 ↦
        let e : bump (find_delimiter (b ∷ s)) ≡ some n = rw (no_crlf, no_lf2) at h in
        let (m, e', k) = bump-some (find_delimiter (b ∷ s)) n e in
        let ih : find_delimiter (b ∷ (s ++ t)) ≡ some m = find_delimiter-append (b ∷ s) t m e' in
        ground (arith, ih, k, no_crlf, no_lf2, is_crlf_complete b s t m e')
  ]
]

is_crlf-take : (k : ℕ) (s : List ℕ) → is_crlf (take k s) ≡ true → is_crlf s ≡ true
is_crlf-take zero s h = cc
is_crlf-take (suc k) [] h = cc
is_crlf-take (suc zero) (x ∷ s) h = cc
is_crlf-take (suc (suc k)) (x ∷ []) h = cc
is_crlf-take (suc (suc k)) (x ∷ y ∷ s) h = h

crlf_take_four :
    (a b : ℕ) (s : List ℕ)
    → a ≡ cr
    → b ≡ lf
    → is_crlf s ≡ true
    → find_delimiter (take 4 (a ∷ b ∷ s)) ≡ some 4
unfolding find_delimiter
crlf_take_four a b [] e f h = cc
crlf_take_four a b (x ∷ []) e f h = cc
crlf_take_four a b (x ∷ y ∷ s) e f h = ground (arith, e, f, h)

find_delimiter-take_later :
    (a b : ℕ) (s : List ℕ) (m : ℕ)
    → ((a == cr) && (b == lf) && is_crlf s) ≡ false
    → ((a == lf) && (b == lf)) ≡ false
    → 2 ≤ m
    → find_delimiter (take m (b ∷ s)) ≡ some m
    → find_delimiter (take (suc m) (a ∷ b ∷ s)) ≡ some (suc m)
unfolding find_delimiter
find_delimiter-take_later a b s zero p q l h = absurd (omega arith)
find_delimiter-take_later a b s (suc m) p q l h = ground (arith, p, q, h, is_crlf-take m s)

-- An event ends with its first delimiter.
pub find_delimiter-take :
    (s : List ℕ) (n : ℕ) → find_delimiter s ≡ some n → find_delimiter (take n s) ≡ some n
unfolding find_delimiter
find_delimiter-take [] n h = cc
find_delimiter-take (a ∷ []) n h = cc
find_delimiter-take (a ∷ b ∷ s) n h = elim (Bool-cases ((a == cr) && (b == lf) && is_crlf s)) [
  | inl crlf ↦
      let e : some 4 ≡ some n = rw crlf at h in
      let k : n ≡ 4 = ground arith in
      rw k (crlf_take_four a b s (ground arith) (ground arith) (ground arith))
  | inr no_crlf ↦ elim (Bool-cases ((a == lf) && (b == lf))) [
    | inl lf2 ↦
        let e : some 2 ≡ some n = rw (no_crlf, lf2) at h in
        let k : n ≡ 2 = ground arith in rw k (ground (arith, lf2))
    | inr no_lf2 ↦
        let e : bump (find_delimiter (b ∷ s)) ≡ some n = rw (no_crlf, no_lf2) at h in
        let (m, e', k) = bump-some (find_delimiter (b ∷ s)) n e in
        let l : 2 ≤ m = (find_delimiter_bound (b ∷ s) m e').0 in
        rw k (find_delimiter-take_later a b s m no_crlf no_lf2 l (find_delimiter-take (b ∷ s) m e'))
  ]
]
