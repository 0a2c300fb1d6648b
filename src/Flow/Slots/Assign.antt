-- ===== src/Flow/Slots/Assign.antt =====
-- What `assign` of the slot allocator promises (src/flow/slots.rs): a slot in range, kept for the
-- flow's lifetime, and not shared while a slot is free.
use tinyllb.Prelude.{
  ℕ, zero, suc, ◌+◌, ◌≤◌, ◌<◌, ◌≡◌, refl, ◌≢◌, true, false, none, some, arith, ◌==◌, ltb, tests,
  sym, ◌∙◌, nat_eq, bytes_eq, Bool-cases, Option-cases, inl, inr, lt→ltb,
}
use mathlib.Core.Bool.{false≢true}
use tinyllb.Prelude.Table.{
  lookup, remove, lookup-insert_self, lookup-insert_ne, lookup-remove_ne, lookup-remove_self,
}
use tinyllb.Flow.Id.{FlowId, slot_id_for_flow, slot_id_for_flow-lt}
use tinyllb.Flow.Slots.{Inner, is_free, free, find_free, choose, place, assign}
use tinyllb.Flow.Slots.Counts.{IsCounted, assignments-free, holders-pos}

find_free_range :
    (r i x : ℕ) (s : Inner) → find_free r i s ≡ some x → (x < i + r) × (is_free s x ≡ true)
unfolding find_free
find_free_range zero i x s h = cc
find_free_range (suc r) i x s h = ground (arith, find_free_range r (i + 1) x s)

find_free_found :
    (r i x : ℕ) (s : Inner) → i ≤ x → x < i + r → is_free s x ≡ true → find_free r i s ≢ none
unfolding find_free
find_free_found zero i x s lo hi h = absurd (omega arith)
find_free_found (suc r) i x s lo hi h = elim (Bool-cases (i == x)) [
  | inl e ↦ ground arith
  | inr ne ↦ ground (arith, find_free_found r (i + 1) x s)
]

choose-lt : (s : Inner) (id : FlowId) (n : ℕ) → 1 ≤ n → choose s id n < n
unfolding choose
choose-lt s id n h = elim (Option-cases (find_free n 0 s)) [
  | inl e ↦ ground (arith, slot_id_for_flow-lt id n h)
  | inr (x, e) ↦ ground (arith, slot_id_for_flow-lt id n h, find_free_range n 0 x s e)
]

-- If some slot below the count is free, the chosen one is.
choose-is_free :
    (s : Inner) (id : FlowId) (n x : ℕ)
    → x < n
    → is_free s x ≡ true
    → is_free s (choose s id n) ≡ true
unfolding choose
choose-is_free s id n x lt h = elim (Bool-cases (is_free s (slot_id_for_flow id n))) [
  | inl home ↦ rw (home) home
  | inr taken ↦ elim (Option-cases (find_free n 0 s)) [
    | inl e ↦ absurd (find_free_found n 0 x s (omega arith) (omega arith) h e)
    | inr (y, e) ↦ rw (taken, e) ((find_free_range n 0 y s e).1)
  ]
]

-- `assign` keeps a slot that is in range, and else places a flow that holds none.
assign_cases :
    (P : Inner × ℕ → Type 0) (s : Inner) (id : FlowId) (n : ℕ)
    → ((slot : ℕ) → lookup id s.assignments ≡ some slot → slot < n → P (s, slot))
    → ((s' : Inner)
        → lookup id s'.assignments ≡ none
        → ((j : FlowId) → id ≢ j → lookup j s'.assignments ≡ lookup j s.assignments)
        → P (place s' id n))
    → P (assign s id n)
unfolding assign
assign_cases P s id n held placed = elim (Option-cases (lookup id s.assignments)) [
  | inl e ↦ rw (e, assign) (placed s e (λ j ne. refl))
  | inr (slot, e) ↦ elim (Bool-cases (ltb slot n)) [
    | inl fits ↦ rw (e, assign, fits) (held slot e (omega tests))
    | inr stale ↦
        let s' = record s { assignments = remove id s.assignments } in
        rw (e, assign, stale)
          (placed (free s' slot)
            (rw (assignments-free s' slot) (lookup-remove_self id s.assignments))
            (λ j ne. rw (assignments-free s' slot) (lookup-remove_ne id j s.assignments ne)))
  ]
]

assign_hit :
    (s : Inner) (id : FlowId) (n slot : ℕ)
    → lookup id s.assignments ≡ some slot
    → slot < n
    → assign s id n ≡ (s, slot)
unfolding assign
assign_hit s id n slot h lt = rw (h, assign, lt→ltb slot n lt)

-- The slot that `assign` answers with is below the live slot count, which is at least 1.
pub assign-lt : (s : Inner) (id : FlowId) (n : ℕ) → 1 ≤ n → (assign s id n).1 < n
unfolding place
assign-lt s id n h =
    assign_cases (λ r. r.1 < n) s id n (λ slot e lt. lt) (λ s' e keep. choose-lt s' id n h)

-- The answer is recorded as the flow's assignment.
pub assign-recorded :
    (s : Inner) (id : FlowId) (n : ℕ)
    → lookup id (assign s id n).0.assignments ≡ some (assign s id n).1
unfolding place
assign-recorded s id n =
    assign_cases (λ r. lookup id r.0.assignments ≡ some r.1) s id n (λ slot e lt. e)
      (λ s' e keep. lookup-insert_self id (choose s' id n) s'.assignments)

-- Asking again with the same slot count, of at least 1, changes nothing and gives the same slot.
pub assign_stable :
    (s : Inner) (id : FlowId) (n : ℕ) → 1 ≤ n → assign (assign s id n).0 id n ≡ assign s id n
assign_stable s id n h =
    assign_hit (assign s id n).0 id n (assign s id n).1 (assign-recorded s id n)
      (assign-lt s id n h)

-- The other flows keep what they hold.
pub lookup-assign_ne :
    (s : Inner) (id j : FlowId) (n : ℕ)
    → id ≢ j
    → lookup j (assign s id n).0.assignments ≡ lookup j s.assignments
unfolding place
lookup-assign_ne s id j n ne =
    assign_cases (λ r. lookup j r.0.assignments ≡ lookup j s.assignments) s id n (λ slot e lt. refl)
      (λ s' e keep. lookup-insert_ne id j (choose s' id n) s'.assignments ne ∙ keep j ne)

-- A free slot is held by no flow.
is_free-unheld :
    (s : Inner) (j : FlowId) (x : ℕ)
    → IsCounted s
    → is_free s x ≡ true
    → lookup j s.assignments ≢ some x
unfolding is_free
is_free-unheld s j x v free_slot held =
    ground (arith, v.counted x, holders-pos x j s.assignments held)

-- A flow that holds no slot gets one that no other flow holds, if some slot below the count is free
-- and the occupancy counts are those of the assignments.
pub assign_exclusive :
    (s : Inner) (id j : FlowId) (n x : ℕ)
    → IsCounted s
    → lookup id s.assignments ≡ none
    → x < n
    → is_free s x ≡ true
    → id ≢ j
    → lookup j (assign s id n).0.assignments ≢ some (assign s id n).1
unfolding assign place
assign_exclusive s id j n x v new_flow lt free_slot ne =
    rw (new_flow, assign, lookup-insert_ne id j (choose s id n) s.assignments ne)
      (is_free-unheld s j (choose s id n) v (choose-is_free s id n x lt free_slot))

-- With no slot below the count free, and the flow holding none, the flow shares its hash home. The
-- count is at least 1.
pub assign_saturated :
    (s : Inner) (id : FlowId) (n : ℕ)
    → 1 ≤ n
    → lookup id s.assignments ≡ none
    → ((x : ℕ) → x < n → is_free s x ≡ false)
    → (assign s id n).1 ≡ slot_id_for_flow id n
unfolding assign place choose
assign_saturated s id n h new_flow busy =
    rw (new_flow, assign, busy (slot_id_for_flow id n) (slot_id_for_flow-lt id n h))
      (elim (Option-cases (find_free n 0 s)) [
        | inl e ↦ rw e
        | inr (y, e) ↦
            let r = find_free_range n 0 y s e in
            absurd (false≢true (sym (busy y (omega (arith, r.0))) ∙ r.1))
      ])
