-- ===== src/Flow/Slots/Counts.antt =====
-- The occupancy table of the slot allocator (src/flow/slots.rs) counts the flows of each slot.
use tinyllb.Prelude.{
  ℕ, suc, ◌+◌, ◌≤◌, ◌<◌, ◌≡◌, refl, none, some, List, [], ◌∷◌, arith, ◌==◌, ltb, if◌then◌else◌,
  from_option, length, nat_eq, bytes_eq, Bool-cases, Option-cases, inl, inr, same, bytes_beq_iff,
}
use tinyllb.Prelude.Words.{add_u32, sub_u32, u32_mod}
use tinyllb.Prelude.Table.{
  lookup, insert, remove, lookup-insert, lookup-remove, Distinct, insert-Distinct, remove-Distinct,
  lookup-remove_self, remove-absent,
}
use tinyllb.Flow.Id.{FlowId}
use tinyllb.Flow.Slots.{Inner, new, free, choose, place, assign, release}

-- The number of flows assigned to a slot.
unfoldable pub holders : ℕ → List (FlowId × ℕ) → ℕ
holders x [] = 0
holders x ((id, slot) ∷ m) = (if slot == x then 1 else 0) + holders x m

abbrev pub occupancy : Inner → ℕ → ℕ
occupancy s x = from_option 0 (lookup x s.occupied)

pub record IsCounted (s : Inner) : Type 0 where
  pub distinct : Distinct s.assignments
  pub counted : (x : ℕ) → occupancy s x ≡ holders x s.assignments

pub holders-le-length : (x : ℕ) (m : List (FlowId × ℕ)) → holders x m ≤ length m
unfolding holders
holders-le-length x [] = omega arith
holders-le-length x ((id, slot) ∷ m) = ground (arith, holders-le-length x m)

pub new-IsCounted : IsCounted new
unfolding lookup holders
new-IsCounted = record { distinct = tt; counted = λ x. refl }

-- A slot that some flow holds is counted.
pub holders-pos :
    (x : ℕ) (id : FlowId) (m : List (FlowId × ℕ)) → lookup id m ≡ some x → 1 ≤ holders x m
unfolding holders lookup
holders-pos x id [] h = cc
holders-pos x id ((j, w) ∷ m) h = ground (arith, holders-pos x id m)

pub holders-insert :
    (x slot : ℕ) (id : FlowId) (m : List (FlowId × ℕ))
    → lookup id m ≡ none
    → holders x (insert id slot m) ≡ (if slot == x then 1 else 0) + holders x m
unfolding holders insert lookup
holders-insert x slot id [] h = refl
holders-insert x slot id ((j, w) ∷ m) h = ground (arith, holders-insert x slot id m)

pub holders-remove :
    (x : ℕ) (id : FlowId) (slot : ℕ) (m : List (FlowId × ℕ))
    → Distinct m
    → lookup id m ≡ some slot
    → holders x m ≡ (if slot == x then 1 else 0) + holders x (remove id m)
unfolding holders remove lookup
holders-remove x id slot [] d h = cc
holders-remove x id slot ((j, w) ∷ m) d h =
    ground (arith, bytes_beq_iff j id, holders-remove x id slot m d.1, remove-absent id m)

pub length-insert-absent :
    (id : FlowId) (slot : ℕ) (m : List (FlowId × ℕ))
    → lookup id m ≡ none
    → length (insert id slot m) ≡ suc (length m)
unfolding insert lookup
length-insert-absent id slot [] h = refl
length-insert-absent id slot ((j, w) ∷ m) h = ground (arith, length-insert-absent id slot m)

pub length-remove-le : (id : FlowId) (m : List (FlowId × ℕ)) → length (remove id m) ≤ length m
unfolding remove
length-remove-le id [] = omega arith
length-remove-le id ((j, w) ∷ m) = ground (arith, length-remove-le id m)

pub assignments-free : (s : Inner) (slot : ℕ) → (free s slot).assignments ≡ s.assignments
unfolding free
assignments-free s slot = ground arith

-- `free` takes one off the slot's count.
pub occupancy-free :
    (s : Inner) (slot x : ℕ)
    → occupancy s slot < u32_mod
    → 1 ≤ occupancy s slot
    → occupancy s x ≡ (if slot == x then 1 else 0) + occupancy (free s slot) x
unfolding free
occupancy-free s slot x h p = ground (
  arith,
  lookup-remove slot x s.occupied,
  lookup-insert slot x (sub_u32 (occupancy s slot) 1) s.occupied,
)

-- A flow that held a slot gives it up.
pub vacate-IsCounted :
    (s : Inner) (id : FlowId) (slot : ℕ)
    → IsCounted s
    → lookup id s.assignments ≡ some slot
    → length s.assignments < u32_mod
    → IsCounted (free (record s { assignments = remove id s.assignments }) slot)
vacate-IsCounted s id slot v h b =
    let s' = record s { assignments = remove id s.assignments } in
    record {
      distinct = rw (assignments-free s' slot) (remove-Distinct id s.assignments v.distinct);
      counted = λ x. rw (assignments-free s' slot) (
          ground (
            arith,
            v.counted x,
            v.counted slot,
            holders-remove x id slot s.assignments v.distinct h,
            holders-remove slot id slot s.assignments v.distinct h,
            holders-le-length slot s.assignments,
            occupancy-free s' slot x,
          ));
    }

pub place-IsCounted :
    (s : Inner) (id : FlowId) (n : ℕ)
    → IsCounted s
    → lookup id s.assignments ≡ none
    → length s.assignments + 1 < u32_mod
    → IsCounted (place s id n).0
unfolding place
place-IsCounted s id n v h b =
    let slot = choose s id n in
    record {
      distinct = insert-Distinct id slot s.assignments v.distinct;
      counted = λ x. ground (
        arith,
        v.counted x,
        v.counted slot,
        lookup-insert slot x (add_u32 (occupancy s slot) 1) s.occupied,
        holders-insert x slot id s.assignments h,
        holders-le-length slot s.assignments,
      );
    }

pub assign-IsCounted :
    (s : Inner) (id : FlowId) (n : ℕ)
    → IsCounted s
    → length s.assignments + 1 < u32_mod
    → IsCounted (assign s id n).0
unfolding assign
assign-IsCounted s id n v b = elim (Option-cases (lookup id s.assignments)) [
  | inl h ↦ rw (h, assign) (place-IsCounted s id n v h b)
  | inr (slot, h) ↦ elim (Bool-cases (ltb slot n)) [
    | inl fits ↦ rw (h, assign, fits) v
    | inr stale ↦
        let s' = record s { assignments = remove id s.assignments } in
        rw (h, assign, stale)
          (place-IsCounted (free s' slot) id n (vacate-IsCounted s id slot v h (omega arith))
            (rw (assignments-free s' slot) (lookup-remove_self id s.assignments))
            (rw (assignments-free s' slot) (omega (arith, length-remove-le id s.assignments))))
  ]
]

pub release-IsCounted :
    (s : Inner) (id : FlowId)
    → IsCounted s
    → length s.assignments < u32_mod
    → IsCounted (release s id)
unfolding release
release-IsCounted s id v b = elim (Option-cases (lookup id s.assignments)) [
  | inl h ↦ rw (h, release) v
  | inr (slot, h) ↦ rw (h, release) (vacate-IsCounted s id slot v h b)
]

pub lookup-release :
    (s : Inner) (id j : FlowId)
    → lookup j (release s id).assignments ≡ (if same id j then none else lookup j s.assignments)
unfolding release
lookup-release s id j = elim (Option-cases (lookup id s.assignments)) [
  | inl h ↦ rw (h, release) (ground (arith, bytes_beq_iff id j))
  | inr (slot, h) ↦
      let s' = record s { assignments = remove id s.assignments } in
      rw (h, release, assignments-free s' slot) (lookup-remove id j s.assignments)
]
