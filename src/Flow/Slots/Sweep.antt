-- ===== src/Flow/Slots/Sweep.antt =====
-- Sweeping orphaned assignments, and the allocator's invariant over any history of calls
-- (src/flow/slots.rs).
use tinyllb.Prelude.{
  ℕ, suc, ◌+◌, ◌≤◌, ◌<◌, ◌≡◌, refl, Bool, none, some, List, [], ◌∷◌, arith, if◌then◌else◌, length,
  nat_eq, bytes_eq, Bool-cases, Option-cases, inl, inr, bytes_beq_iff, is_some,
}
use tinyllb.Prelude.Table.{lookup, remove, lookup-remove, lookup-remove_self, Distinct}
use tinyllb.Prelude.Words.{u32_mod}
use tinyllb.Flow.Id.{FlowId}
use tinyllb.Flow.Slots.{Inner, new, free, place, assign, release, orphans, drop_all, sweep_missing}
use tinyllb.Flow.Slots.Counts.{
  IsCounted, new-IsCounted, assignments-free, vacate-IsCounted, assign-IsCounted, release-IsCounted,
  length-remove-le, length-insert-absent,
}

-- Every listed assignment is held.
abbrev Held : List (FlowId × ℕ) → List (FlowId × ℕ) → Type 0
Held [] m = Unit
Held ((id, slot) ∷ rest) m = (lookup id m ≡ some slot) × (lookup id rest ≡ none) × Held rest m

Held-remove :
    (id : FlowId) (gone m : List (FlowId × ℕ))
    → Held gone m
    → lookup id gone ≡ none
    → Held gone (remove id m)
unfolding lookup
Held-remove id [] m h a = tt
Held-remove id ((j, slot) ∷ rest) m h a = (
  ground (arith, lookup-remove id j m, bytes_beq_iff id j, bytes_beq_iff j id),
  h.1,
  Held-remove id rest m h.2 (ground arith),
)

pub lookup-orphans :
    (exists : FlowId → Bool) (j : FlowId) (m : List (FlowId × ℕ))
    → lookup j (orphans exists m) ≡ (if exists j then none else lookup j m)
unfolding lookup orphans
lookup-orphans exists j [] = ground arith
lookup-orphans exists j ((id, slot) ∷ m) =
    ground (arith, bytes_beq_iff id j, lookup-orphans exists j m)

Held-cons :
    (id : FlowId) (slot : ℕ) (gone m : List (FlowId × ℕ))
    → lookup id gone ≡ none
    → lookup id m ≡ none
    → Held gone m
    → Held gone ((id, slot) ∷ m)
unfolding lookup
Held-cons id slot [] m a b h = tt
Held-cons id slot ((j, w) ∷ rest) m a b h = (
  ground (arith, bytes_beq_iff id j, bytes_beq_iff j id),
  h.1,
  Held-cons id slot rest m (ground arith) b h.2,
)

lookup-head :
    (id : FlowId) (slot : ℕ) (m : List (FlowId × ℕ)) → lookup id ((id, slot) ∷ m) ≡ some slot
unfolding lookup
lookup-head id slot m = ground (arith, bytes_beq_iff id id)

orphans-Held :
    (exists : FlowId → Bool) (m : List (FlowId × ℕ)) → Distinct m → Held (orphans exists m) m
unfolding orphans
orphans-Held exists [] d = tt
orphans-Held exists ((id, slot) ∷ m) d =
    let gone = orphans exists m in
    let absent : lookup id gone ≡ none = rw (lookup-orphans exists id m) (ground (arith, d.0)) in
    let rest = Held-cons id slot gone m absent d.0 (orphans-Held exists m d.1) in
    elim (Bool-cases (exists id)) [
      | inl keep ↦ rw keep rest
      | inr lost ↦ rw lost (lookup-head id slot m, absent, rest)
    ]

drop_all-IsCounted :
    (gone : List (FlowId × ℕ)) (s : Inner)
    → Held gone s.assignments
    → IsCounted s
    → length s.assignments < u32_mod
    → IsCounted (drop_all gone s)
unfolding drop_all
drop_all-IsCounted [] s h v b = v
drop_all-IsCounted ((id, slot) ∷ gone) s h v b =
    let s' = record s { assignments = remove id s.assignments } in
    drop_all-IsCounted gone (free s' slot)
      (rw (assignments-free s' slot) (Held-remove id gone s.assignments h.2 h.1))
      (vacate-IsCounted s id slot v h.0 b)
      (rw (assignments-free s' slot) (omega (arith, length-remove-le id s.assignments)))

lookup-drop_all :
    (gone : List (FlowId × ℕ)) (s : Inner) (j : FlowId)
    → lookup j (drop_all gone s).assignments
      ≡ (if is_some (lookup j gone) then none else lookup j s.assignments)
unfolding drop_all lookup
lookup-drop_all [] s j = refl
lookup-drop_all ((id, slot) ∷ gone) s j =
    let s' = record s { assignments = remove id s.assignments } in
    ground (
      arith,
      lookup-drop_all gone (free s' slot) j,
      assignments-free s' slot,
      lookup-remove id j s.assignments,
    )

-- After a sweep a flow holds a slot exactly if it held it before and still exists.
pub lookup-sweep_missing :
    (s : Inner) (exists : FlowId → Bool) (j : FlowId)
    → lookup j (sweep_missing s exists).0.assignments
      ≡ (if exists j then lookup j s.assignments else none)
unfolding sweep_missing
lookup-sweep_missing s exists j = ground (
  arith,
  lookup-drop_all (orphans exists s.assignments) s j,
  lookup-orphans exists j s.assignments,
)

pub sweep_missing-IsCounted :
    (s : Inner) (exists : FlowId → Bool)
    → IsCounted s
    → length s.assignments < u32_mod
    → IsCounted (sweep_missing s exists).0
unfolding sweep_missing
sweep_missing-IsCounted s exists v b =
    drop_all-IsCounted (orphans exists s.assignments) s
      (orphans-Held exists s.assignments v.distinct) v b

length-drop_all :
    (gone : List (FlowId × ℕ)) (s : Inner)
    → length (drop_all gone s).assignments ≤ length s.assignments
unfolding drop_all
length-drop_all [] s = omega arith
length-drop_all ((id, slot) ∷ gone) s =
    let s' = record s { assignments = remove id s.assignments } in
    ground (
      arith,
      length-drop_all gone (free s' slot),
      assignments-free s' slot,
      length-remove-le id s.assignments,
    )

-- The calls that reach an allocator.
pub data Op : Type 0 where
  assigns : FlowId → ℕ → Op
  releases : FlowId → Op
  sweeps : (FlowId → Bool) → Op

unfoldable pub step : Inner → Op → Inner
step s (assigns id n) = (assign s id n).0
step s (releases id) = release s id
step s (sweeps exists) = (sweep_missing s exists).0

unfoldable pub run : Inner → List Op → Inner
unfolding step
run s [] = s
run s (op ∷ ops) = run (step s op) ops

length-place :
    (s : Inner) (id : FlowId) (n : ℕ)
    → lookup id s.assignments ≡ none
    → length (place s id n).0.assignments ≡ suc (length s.assignments)
unfolding place
length-place s id n h = length-insert-absent id _ s.assignments h

length-assign-le :
    (s : Inner) (id : FlowId) (n : ℕ)
    → length (assign s id n).0.assignments ≤ suc (length s.assignments)
unfolding assign
length-assign-le s id n = elim (Option-cases (lookup id s.assignments)) [
  | inl h ↦ rw (h, assign) (omega (arith, length-place s id n h))
  | inr (slot, h) ↦
      let s' = record s { assignments = remove id s.assignments } in
      rw (h, assign)
        (ground (
          arith,
          length-place (free s' slot) id n,
          assignments-free s' slot,
          lookup-remove_self id s.assignments,
          length-remove-le id s.assignments,
        ))
]

length-step-le : (s : Inner) (op : Op) → length (step s op).assignments ≤ suc (length s.assignments)
unfolding step release sweep_missing
length-step-le s (assigns id n) = length-assign-le s id n
length-step-le s (releases id) = ground (
  arith,
  length-remove-le id s.assignments,
  λ (slot : ℕ). assignments-free (record s { assignments = remove id s.assignments }) slot,
)
length-step-le s (sweeps exists) = omega (arith, length-drop_all (orphans exists s.assignments) s)

step-IsCounted :
    (s : Inner) (op : Op) → IsCounted s → length s.assignments + 1 < u32_mod → IsCounted (step s op)
unfolding step
step-IsCounted s (assigns id n) v b = assign-IsCounted s id n v b
step-IsCounted s (releases id) v b = release-IsCounted s id v (omega arith)
step-IsCounted s (sweeps exists) v b = sweep_missing-IsCounted s exists v (omega arith)

pub run-IsCounted :
    (s : Inner) (ops : List Op)
    → IsCounted s
    → length s.assignments + length ops < u32_mod
    → IsCounted (run s ops)
unfolding run
run-IsCounted s [] v b = v
run-IsCounted s (op ∷ ops) v b =
    run-IsCounted (step s op) ops (step-IsCounted s op v (omega arith))
      (omega (arith, length-step-le s op))

-- Over any history of fewer than 2^32 calls on a new allocator, the occupancy count of each slot
-- is the number of flows assigned to it, and no flow is assigned twice.
pub run-new-IsCounted : (ops : List Op) → length ops < u32_mod → IsCounted (run new ops)
run-new-IsCounted ops b = run-IsCounted new ops new-IsCounted (omega arith)
