-- ===== src/Flow/Id.antt =====
-- Flow identifiers and the hash that homes a flow on a slot (src/flow/mod.rs). A FlowId wraps a
-- String, which is the list of its bytes here.
use Prim.Native.Nat.{bit_xor}
use tinyllb.Prelude.{
  ℕ, ◌*◌, ◌%◌, ◌≤◌, ◌<◌, Bool, true, false, ◌&&◌, List, [], ◌∷◌, arith, ◌==◌, if◌then◌else◌,
}
use tinyllb.Prelude.Words.{u64_mod}

abbrev pub FlowId : Type 0
FlowId = List ℕ

-- `s.starts_with(prefix)` on bytes.
abbrev pub starts_with : List ℕ → List ℕ → Bool
starts_with [] s = true
starts_with (p ∷ ps) [] = false
starts_with (p ∷ ps) (c ∷ s) = (p == c) && starts_with ps s

-- "ephemeral-"
abbrev pub ephemeral_prefix : List ℕ
ephemeral_prefix = b'e' ∷ b'p' ∷ b'h' ∷ b'e' ∷ b'm' ∷ b'e' ∷ b'r' ∷ b'a' ∷ b'l' ∷ b'-' ∷ []

-- "ephemeral"
abbrev pub ephemeral_label : List ℕ
ephemeral_label = b'e' ∷ b'p' ∷ b'h' ∷ b'e' ∷ b'm' ∷ b'e' ∷ b'r' ∷ b'a' ∷ b'l' ∷ []

unfoldable pub is_ephemeral : FlowId → Bool
is_ephemeral id = starts_with ephemeral_prefix id

unfoldable pub metric_label : FlowId → List ℕ
unfolding is_ephemeral
metric_label id = if is_ephemeral id then ephemeral_label else id

abbrev fnv_offset : ℕ
fnv_offset = 0xcbf29ce484222325

abbrev fnv_prime : ℕ
fnv_prime = 0x00000100000001b3

fnv1a : ℕ → List ℕ → ℕ
fnv1a h [] = h
fnv1a h (b ∷ bs) = fnv1a ((bit_xor h b * fnv_prime) % u64_mod) bs

-- FNV-1a of the bytes, reduced to the slot count.
unfoldable pub slot_id_for_flow : List ℕ → ℕ → ℕ
unfolding fnv1a
slot_id_for_flow flow slot_count = if slot_count == 0 then 0 else fnv1a fnv_offset flow % slot_count

pub slot_id_for_flow-lt : (flow : List ℕ) (n : ℕ) → 1 ≤ n → slot_id_for_flow flow n < n
unfolding slot_id_for_flow
slot_id_for_flow-lt flow n h = ground arith
