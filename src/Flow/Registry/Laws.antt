-- ===== src/Flow/Registry/Laws.antt =====
-- The waiting list that `GET /queue` reports (src/flow/mod.rs), and registration.
use tinyllb.Prelude.{
  ℕ, ◌+◌, ◌≡◌, refl, Bool, false, not, ◌&&◌, none, some, List, [], ◌∷◌, map, arith, inl, inr, ltb,
  bytes_eq, bytes_beq, bytes_beq_iff, Bool-cases,
}
use tinyllb.Prelude.Float.{Float}
use tinyllb.Prelude.Table.{lookup}
use tinyllb.Flow.Id.{FlowId}
use tinyllb.Flow.Registry.{
  FlowRegistry, QueueFlowEntry, contains, is_listed, list_waiting, queue_snapshot,
}

-- The positions count up from `p`.
abbrev pub IsNumbered : ℕ → List QueueFlowEntry → Type 0
IsNumbered p [] = Unit
IsNumbered p (e ∷ es) = (e.position ≡ p) × IsNumbered (p + 1) es

abbrev pub ids : List QueueFlowEntry → List FlowId
ids = map (λ e. e.id)

-- No id stands twice.
abbrev pub IsDistinct : List FlowId → Type 0
IsDistinct [] = Unit
IsDistinct (id ∷ l) = (contains id l ≡ false) × IsDistinct l

module _ {F : Float} where
  -- The flow is registered and has queued requests.
  abbrev pub waits : FlowRegistry F → FlowId → Bool
  waits r id = elim (lookup id r.flows) [ none ↦ false | some f ↦ ltb 0 f.depth ]

  numbered :
      (r : FlowRegistry F) (seen : List FlowId) (p : ℕ) (order : List FlowId)
      → IsNumbered p (list_waiting r seen p order)
  unfolding list_waiting
  numbered r seen p [] = tt
  numbered r seen p (id ∷ order) = elim (Bool-cases (is_listed r seen id)) [
    | inl y ↦ rw y (refl, numbered r (id ∷ seen) (p + 1) order)
    | inr n ↦ rw n (numbered r seen p order)
  ]

  listed :
      (r : FlowRegistry F) (seen : List FlowId) (p : ℕ) (order : List FlowId) (j : FlowId)
      → contains j (ids (list_waiting r seen p order))
        ≡ contains j order && not (contains j seen) && waits r j
  unfolding list_waiting
  listed r seen p [] j = refl
  listed r seen p (id ∷ order) j = elim (Bool-cases (bytes_beq id j)) [
    | inl hit ↦
        let e = (bytes_beq_iff id j).0 hit in
        let at_id = is_listed-eq r seen id in
        ground (
          arith,
          ap_waits e,
          ap_seen e,
          at_id,
          listed r (id ∷ seen) (p + 1) order j,
          listed r seen p order j,
        )
    | inr miss ↦ ground (arith, listed r (id ∷ seen) (p + 1) order j, listed r seen p order j)
  ]
    where
      ap_waits : id ≡ j → waits r id ≡ waits r j
      ap_waits e = rw e

      ap_seen : id ≡ j → contains id seen ≡ contains j seen
      ap_seen e = rw e

      is_listed-eq :
          (q : FlowRegistry F) (s : List FlowId) (i : FlowId)
          → is_listed q s i ≡ not (contains i s) && waits q i
      is_listed-eq q s i = unfold is_listed in ground arith

  distinct :
      (r : FlowRegistry F) (seen : List FlowId) (p : ℕ) (order : List FlowId)
      → IsDistinct (ids (list_waiting r seen p order))
  unfolding list_waiting
  distinct r seen p [] = tt
  distinct r seen p (id ∷ order) = elim (Bool-cases (is_listed r seen id)) [
    | inl y ↦ rw y (
      ground (arith, listed r (id ∷ seen) (p + 1) order id, bytes_beq_iff id id),
      distinct r (id ∷ seen) (p + 1) order,
    )
    | inr n ↦ rw n (distinct r seen p order)
  ]

  -- The report lists exactly the flows of the waiting order that are registered and have queued
  -- requests, each once, at the positions 1, 2, and so on.
  pub queue_snapshot_lem :
      (r : FlowRegistry F) (active waiting : ℕ) (order : List FlowId)
      → ((j : FlowId)
          → contains j (ids (queue_snapshot r active waiting order).flows)
            ≡ contains j order && waits r j)
        × IsDistinct (ids (queue_snapshot r active waiting order).flows)
        × IsNumbered 1 (queue_snapshot r active waiting order).flows
  unfolding queue_snapshot
  queue_snapshot_lem r active waiting order =
      (λ j. ground (arith, listed r [] 1 order j), distinct r [] 1 order, numbered r [] 1 order)
