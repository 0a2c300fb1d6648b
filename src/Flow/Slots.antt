-- ===== src/Flow/Slots.antt =====
-- The slot allocator (src/flow/slots.rs): each named flow is pinned to a llama.cpp slot. `Inner`
-- is the state behind the allocator's mutex; an operation is one critical section.
pub mod Counts
pub mod Assign
pub mod Sweep
use tinyllb.Prelude.{
  ℕ, zero, suc, ◌+◌, ◌≡◌, refl, Bool, true, false, not, Option, none, some, List, [], ◌∷◌, ◌==◌,
  ltb, if◌then◌else◌, from_option, length, nat_eq, bytes_eq,
}
use tinyllb.Prelude.Words.{add_u32, sub_u32}
use tinyllb.Prelude.Table.{lookup, insert, remove}
use tinyllb.Flow.Id.{FlowId, slot_id_for_flow}

pub record Inner : Type 0 where
  pub assignments : List (FlowId × ℕ)
  pub occupied : List (ℕ × ℕ)

-- An allocator with no flow assigned.
abbrev pub new : Inner
new = record { assignments = []; occupied = [] }

unfoldable pub is_free : Inner → ℕ → Bool
is_free s slot = elim (lookup slot s.occupied) [ none ↦ true | some count ↦ count == 0 ]

unfoldable pub free : Inner → ℕ → Inner
free s slot = elim (lookup slot s.occupied) [
  | none ↦ s
  | some count ↦
      let count' = sub_u32 count 1 in
      if count' == 0
      then record s { occupied = remove slot s.occupied }
      else record s { occupied = insert slot count' s.occupied }
]

-- `(i..i + rounds).find(is_free)`
unfoldable pub find_free : ℕ → ℕ → Inner → Option ℕ
find_free zero i s = none
find_free (suc rounds) i s =
    let rest = find_free rounds (i + 1) s in if is_free s i then some i else rest

-- The slot of a flow that holds none: its hash home, the lowest free slot, or the home shared.
unfoldable pub choose : Inner → FlowId → ℕ → ℕ
choose s flow slot_count =
    let home = slot_id_for_flow flow slot_count in
    if is_free s home then home else from_option home (find_free slot_count 0 s)

unfoldable pub place : Inner → FlowId → ℕ → Inner × ℕ
place s flow slot_count =
    let slot = choose s flow slot_count in
    (
      record s {
        assignments = insert flow slot s.assignments;
        occupied = insert slot (add_u32 (from_option 0 (lookup slot s.occupied)) 1) s.occupied;
      },
      slot,
    )

unfoldable pub assign : Inner → FlowId → ℕ → Inner × ℕ
unfolding place free
assign s flow slot_count = elim (lookup flow s.assignments) [
  | none ↦ place s flow slot_count
  | some slot ↦
      if ltb slot slot_count
      then (s, slot)
      else place (free (record s { assignments = remove flow s.assignments }) slot) flow slot_count
]

unfoldable pub release : Inner → FlowId → Inner
unfolding free
release s flow = elim (lookup flow s.assignments) [
  | none ↦ s
  | some slot ↦ free (record s { assignments = remove flow s.assignments }) slot
]

-- The assignments of flows that no longer exist.
unfoldable pub orphans : (FlowId → Bool) → List (FlowId × ℕ) → List (FlowId × ℕ)
orphans exists [] = []
orphans exists ((id, slot) ∷ m) =
    if exists id then orphans exists m else (id, slot) ∷ orphans exists m

unfoldable pub drop_all : List (FlowId × ℕ) → Inner → Inner
unfolding free
drop_all [] s = s
drop_all ((id, slot) ∷ m) s =
    drop_all m (free (record s { assignments = remove id s.assignments }) slot)

unfoldable pub sweep_missing : Inner → (FlowId → Bool) → Inner × ℕ
unfolding orphans drop_all
sweep_missing s exists = let gone = orphans exists s.assignments in (drop_all gone s, length gone)
