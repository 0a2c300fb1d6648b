-- ===== src/Scheduler/Drr/Queues.antt =====
-- What a request that enters its queue, or is cancelled in it, does to the queues of the scheduler
-- (src/scheduler/drr.rs).
use tinyllb.Prelude.{
  ℕ, ◌==◌, ◌≡◌, ◌≢◌, refl, false, not, Option, none, some, List, [], ◌∷◌, ◌++◌, if◌then◌else◌,
  bytes_beq, bytes_beq_iff, bytes_eq, arith, from_option, Option-cases, Bool-cases, inl, inr, ap,
}
use tinyllb.Prelude.Lists.{keep_if}
use tinyllb.Prelude.Float.{Float}
use tinyllb.Prelude.Table.{
  lookup, insert, remove, lookup-insert, lookup-remove, insert-Distinct, remove-Distinct,
}
use tinyllb.Flow.Id.{FlowId}
use tinyllb.Flow.Registry.{contains}
use tinyllb.Flow.Registry.Laws.{IsDistinct}
use tinyllb.Scheduler.Drr.State.{Pending, DrrState, Shared, is_nil, without, has_pending}
use tinyllb.Scheduler.Drr.Serve.{
  IsWellFormed, contains-append, contains-without, append-IsDistinct, without-IsDistinct,
}
use tinyllb.Scheduler.Drr.Admit.{retain_pending, enqueue, cancel_pending}

module _ {F : Float} where
  -- A queue after a cancellation.
  abbrev pub kept_of : Option ℕ → List (Pending F) → List (Pending F)
  kept_of pending_id q = elim pending_id [ none ↦ q | some my_id ↦ retain_pending my_id q ]

  pub enqueue-IsWellFormed :
      (id : FlowId) (enter : ℕ) (work_unit : F.Carrier) (sh : Shared F)
      → IsWellFormed sh.drr
      → IsWellFormed (enqueue id enter work_unit sh).0.drr
  unfolding enqueue
  enqueue-IsWellFormed id enter work_unit sh v = record {
    waits = λ j. waits' _ j (not_nil (from_option [] (lookup id sh.drr.waiting)) _);
    no_empty = λ j. empty _ j (not_nil (from_option [] (lookup id sh.drr.waiting)) _);
    keys = insert-Distinct id _ sh.drr.waiting v.keys;
    distinct = distinct';
    bounded = v.bounded;
    permits = v.permits;
  }
    where
      not_nil : (q : List (Pending F)) (p : Pending F) → is_nil (q ++ p ∷ []) ≡ false
      not_nil [] p = refl
      not_nil (x ∷ q) p = refl

      waits' :
          (q : List (Pending F)) (j : FlowId)
          → is_nil q ≡ false
          → contains j (
              if contains id sh.drr.rr_cursor
              then sh.drr.rr_cursor
              else sh.drr.rr_cursor ++ id ∷ [])
            ≡ has_pending (record (sh.drr) { waiting = insert id q sh.drr.waiting }) j
      waits' q j n = ground (
        arith,
        lookup-insert id j q sh.drr.waiting,
        contains-append j sh.drr.rr_cursor (id ∷ []),
        v.waits j,
        bytes_beq_iff id j,
      )

      empty :
          (q : List (Pending F)) (j : FlowId)
          → is_nil q ≡ false
          → lookup j (insert id q sh.drr.waiting) ≢ some []
      empty [] j n e = cc
      empty (x ∷ q) j n e = ground (arith, lookup-insert id j (x ∷ q) sh.drr.waiting, v.no_empty j)

      distinct' :
          IsDistinct
            (if contains id sh.drr.rr_cursor then sh.drr.rr_cursor else sh.drr.rr_cursor ++ id ∷ [])
      distinct' = elim (Bool-cases (contains id sh.drr.rr_cursor)) [
        | inl y ↦ rw y v.distinct
        | inr n ↦ rw n (append-IsDistinct id sh.drr.rr_cursor n v.distinct)
      ]

  -- The state when the queue of the cancelled request's flow comes to `q`.
  abbrev cancelled : FlowId → List (Pending F) → DrrState F → DrrState F
  cancelled id q s =
      if is_nil q
      then record s {
        waiting = remove id s.waiting;
        deficit = remove id s.deficit;
        rr_cursor = without id s.rr_cursor;
      }
      else record s { waiting = insert id q s.waiting }

  cancel_pending-none :
      (id : FlowId) (pending_id : Option ℕ) (s : DrrState F)
      → lookup id s.waiting ≡ none
      → cancel_pending id pending_id s ≡ s
  unfolding cancel_pending
  cancel_pending-none id pending_id s e = rw (e, cancel_pending) refl

  cancel_pending-some :
      (id : FlowId) (pending_id : Option ℕ) (s : DrrState F) {q : List (Pending F)}
      → lookup id s.waiting ≡ some q
      → cancel_pending id pending_id s ≡ cancelled id (kept_of pending_id q) s
  unfolding cancel_pending
  cancel_pending-some id pending_id s e = rw (e, cancel_pending) refl

  pub cancel_pending-IsWellFormed :
      (id : FlowId) (pending_id : Option ℕ) (s : DrrState F)
      → IsWellFormed s
      → IsWellFormed (cancel_pending id pending_id s)
  cancel_pending-IsWellFormed id pending_id s v = elim (Option-cases (lookup id s.waiting)) [
    | inl e ↦ rw (cancel_pending-none id pending_id s e) v
    | inr (q, e) ↦ rw (cancel_pending-some id pending_id s e) (at q (kept_of pending_id q) e)
  ]
    where
      at :
          (q q' : List (Pending F))
          → lookup id s.waiting ≡ some q
          → IsWellFormed (cancelled id q' s)
      at q [] e = record {
        waits = λ j.
            ground
              (arith, lookup-remove id j s.waiting, contains-without id j s.rr_cursor, v.waits j);
        no_empty = λ j h. ground (arith, lookup-remove id j s.waiting, v.no_empty j);
        keys = remove-Distinct id s.waiting v.keys;
        distinct = without-IsDistinct id s.rr_cursor v.distinct;
        bounded = v.bounded;
        permits = v.permits;
      }
      at [] (x ∷ q') e = absurd (v.no_empty id e)
      at (y ∷ q) (x ∷ q') e = record {
        waits = λ j.
            ground (arith, lookup-insert id j (x ∷ q') s.waiting, v.waits j, bytes_beq_iff id j, e);
        no_empty = λ j h. ground (arith, lookup-insert id j (x ∷ q') s.waiting, v.no_empty j);
        keys = insert-Distinct id (x ∷ q') s.waiting v.keys;
        distinct = v.distinct;
        bounded = v.bounded;
        permits = v.permits;
      }

  cancel_pending-retain :
      (id j : FlowId) (my_id : ℕ) (s : DrrState F)
      → from_option [] (lookup j (cancel_pending id (some my_id) s).waiting) ≡ (
          if bytes_beq id j
          then retain_pending my_id (from_option [] (lookup j s.waiting))
          else from_option [] (lookup j s.waiting))
  unfolding retain_pending
  cancel_pending-retain id j my_id s = elim (Option-cases (lookup id s.waiting)) [
    | inl e ↦ rw (cancel_pending-none id (some my_id) s e) (ground (arith, bytes_beq_iff id j))
    | inr (q, e) ↦
        rw (cancel_pending-some id (some my_id) s e) (at q (retain_pending my_id q) e refl)
  ]
    where
      at :
          (q q' : List (Pending F))
          → lookup id s.waiting ≡ some q
          → retain_pending my_id q ≡ q'
          → from_option [] (lookup j (cancelled id q' s).waiting) ≡ (
              if bytes_beq id j
              then retain_pending my_id (from_option [] (lookup j s.waiting))
              else from_option [] (lookup j s.waiting))
      at q [] e k = ground (arith, lookup-remove id j s.waiting, bytes_beq_iff id j)
      at q (x ∷ q') e k = ground (arith, lookup-insert id j (x ∷ q') s.waiting, bytes_beq_iff id j)

  retain_pending-keep_if :
      (my_id : ℕ) (q : List (Pending F))
      → retain_pending my_id q ≡ keep_if (λ p. not (p.pending_id == my_id)) q
  unfolding retain_pending
  retain_pending-keep_if my_id [] = refl
  retain_pending-keep_if my_id (p ∷ q) = elim (Bool-cases (p.pending_id == my_id)) [
    | inl y ↦ rw y (retain_pending-keep_if my_id q)
    | inr n ↦ rw n (ap (λ l. p ∷ l) (retain_pending-keep_if my_id q))
  ]

  -- A cancelled request that has its entry takes that entry out of its flow's queue and leaves
  -- every other queued request where it was.
  pub cancel_pending-own :
      (id j : FlowId) (my_id : ℕ) (s : DrrState F)
      → from_option [] (lookup j (cancel_pending id (some my_id) s).waiting) ≡ (
          let q = from_option [] (lookup j s.waiting) in
          if bytes_beq id j then keep_if (λ p. not (p.pending_id == my_id)) q else q)
  cancel_pending-own id j my_id s =
      rw (← (retain_pending-keep_if my_id (from_option [] (lookup j s.waiting))))
        (cancel_pending-retain id j my_id s)
