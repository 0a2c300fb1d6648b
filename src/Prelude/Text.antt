-- ===== src/Prelude/Text.antt =====
-- Byte strings as lists of numbers: literals, prefixes, splits and the joining of chunks.
use Prim.Native.Char.{code}
use Prim.Native.String.{String}
use tinyllb.Prelude.{
  ℕ, ◌≡◌, refl, ap, Bool, true, false, ◌&&◌, List, [], ◌∷◌, ◌++◌, ◌==◌, if◌then◌else◌,
}

-- The bytes of an ASCII text.
abbrev pub bytes : String → List ℕ
bytes String.[] = []
bytes (String.◌∷◌ c s) = code c ∷ bytes s

abbrev pub starts_with : List ℕ → List ℕ → Bool
starts_with [] s = true
starts_with (x ∷ xs) [] = false
starts_with (x ∷ xs) (y ∷ ys) = (x == y) && starts_with xs ys

-- `s.split(|b| *b == c)`: one part more than there are separators.
abbrev pub split_at_byte : ℕ → List ℕ → List (List ℕ)
split_at_byte c [] = [] ∷ []
split_at_byte c (x ∷ s) =
    let parts = split_at_byte c s in if x == c then [] ∷ parts else push_front x parts
  where
    push_front : ℕ → List (List ℕ) → List (List ℕ)
    push_front y [] = (y ∷ []) ∷ []
    push_front y (p ∷ ps) = (y ∷ p) ∷ ps

module _ {ℓ} {A : Type ℓ} where
  abbrev pub concat : List (List A) → List A
  concat [] = []
  concat (x ∷ xs) = x ++ concat xs

  pub append_assoc : (xs ys zs : List A) → (xs ++ ys) ++ zs ≡ xs ++ (ys ++ zs)
  append_assoc [] ys zs = refl
  append_assoc (x ∷ xs) ys zs = ap (λ t. x ∷ t) (append_assoc xs ys zs)

  pub append_nil : (xs : List A) → xs ++ [] ≡ xs
  append_nil [] = refl
  append_nil (x ∷ xs) = ap (λ t. x ∷ t) (append_nil xs)

  pub concat-append : (xs ys : List (List A)) → concat (xs ++ ys) ≡ concat xs ++ concat ys
  concat-append [] ys = refl
  concat-append (x ∷ xs) ys = rw (concat-append xs ys, append_assoc x (concat xs) (concat ys)) refl
