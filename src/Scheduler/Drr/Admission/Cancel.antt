-- ===== src/Scheduler/Drr/Admission/Cancel.antt =====
-- A request that enters its queue and is cancelled there (src/scheduler/drr.rs).
use tinyllb.Prelude.{
  ℕ, ◌≡◌, refl, ◌∙◌, ap, true, false, ◌==◌, none, some, List, [], ◌∷◌, ◌++◌, if◌then◌else◌,
  bytes_eq, bytes_beq, bytes_beq_iff, from_option, arith,
}
use tinyllb.Prelude.Float.{Float}
use tinyllb.Prelude.Table.{lookup, insert, remove, lookup-insert, lookup-insert_self, lookup-remove}
use tinyllb.Flow.Id.{FlowId}
use tinyllb.Flow.Registry.{contains}
use tinyllb.Scheduler.Drr.State.{Pending, DrrState, Shared, is_nil, without}
use tinyllb.Scheduler.Drr.Serve.{IsWellFormed}
use tinyllb.Scheduler.Drr.Admit.{retain_pending, enqueue, cancel_pending}

module _ {F : Float} where
  -- No entry of a queue has a number.
  abbrev pub IsFresh : ℕ → List (Pending F) → Type 0
  IsFresh n [] = Unit
  IsFresh n (p ∷ q) = ((p.pending_id == n) ≡ false) × IsFresh n q

  -- Two states with the same queues, cursor and permits.
  pub record SameQueues (s t : DrrState F) : Type 0 where
    pub queues : (j : FlowId) → lookup j t.waiting ≡ lookup j s.waiting
    pub cursor : t.rr_cursor ≡ s.rr_cursor
    pub available : t.available_permits ≡ s.available_permits

  retain-fresh :
      (n : ℕ) (q : List (Pending F)) (p : Pending F)
      → IsFresh n q
      → p.pending_id ≡ n
      → retain_pending n (q ++ p ∷ []) ≡ q
  unfolding retain_pending
  retain-fresh n [] p h e = ground (arith, e)
  retain-fresh n (x ∷ q) p h e = rw h.0 (ap (λ l. x ∷ l) (retain-fresh n q p h.1 e))

without-absent : (id : FlowId) (l : List FlowId) → contains id l ≡ false → without id l ≡ l
without-absent id [] h = refl
without-absent id (j ∷ l) h = ground (arith, without-absent id l)

without-last :
    (id : FlowId) (l : List FlowId) → contains id l ≡ false → without id (l ++ id ∷ []) ≡ l
without-last id [] h = ground (arith, bytes_beq_iff id id)
without-last id (j ∷ l) h = ground (arith, without-last id l)

module _ {F : Float} (id : FlowId) where
  -- What the cancellation of the newest entry of a flow's queue comes to.
  cancel-last :
      (s : DrrState F) (q : List (Pending F)) (p : Pending F)
      → lookup id s.waiting ≡ some (q ++ p ∷ [])
      → IsFresh p.pending_id q
      → cancel_pending id (some p.pending_id) s ≡ (
          if is_nil q
          then record s {
            waiting = remove id s.waiting;
            deficit = remove id s.deficit;
            rr_cursor = without id s.rr_cursor;
          }
          else record s { waiting = insert id q s.waiting })
  unfolding cancel_pending
  cancel-last s q p e h = rw (e, retain-fresh p.pending_id q p h refl, cancel_pending) refl

  restored :
      (s t : DrrState F) (q : List (Pending F)) (p : Pending F)
      → IsWellFormed s
      → from_option [] (lookup id s.waiting) ≡ q
      → IsFresh p.pending_id q
      → t.waiting ≡ insert id (q ++ p ∷ []) s.waiting
      → t.rr_cursor ≡ (if contains id s.rr_cursor then s.rr_cursor else s.rr_cursor ++ id ∷ [])
      → t.available_permits ≡ s.available_permits
      → SameQueues s (cancel_pending id (some p.pending_id) t)
  restored s t [] p v e h w c a =
      let absent : lookup id s.waiting ≡ none = ground (arith, e, v.no_empty id) in
      let off : contains id s.rr_cursor ≡ false = ground (arith, v.waits id, absent) in
      let cursor : t.rr_cursor ≡ s.rr_cursor ++ id ∷ [] = c ∙ rw off refl in
      let found : (j : FlowId)
          → lookup j t.waiting ≡ (if bytes_beq id j then some (p ∷ []) else lookup j s.waiting) =
        λ j. ap (lookup j) w ∙ lookup-insert id j (p ∷ []) s.waiting in
      rw (cancel-last t [] p (ap (lookup id) w ∙ lookup-insert_self id _ s.waiting) h) (record {
        queues =
            λ j. ground (arith, lookup-remove id j t.waiting, found j, absent, bytes_beq_iff id j);
        cursor = ap (without id) cursor ∙ without-last id s.rr_cursor off;
        available = a;
      })
  restored s t (x ∷ q) p v e h w c a =
      let present : lookup id s.waiting ≡ some (x ∷ q) = ground (arith, e) in
      let on : contains id s.rr_cursor ≡ true = ground (arith, v.waits id, present) in
      let found : (j : FlowId)
          → lookup j t.waiting
            ≡ (if bytes_beq id j then some (x ∷ (q ++ p ∷ [])) else lookup j s.waiting) =
        λ j. ap (lookup j) w ∙ lookup-insert id j (x ∷ (q ++ p ∷ [])) s.waiting in
      rw (cancel-last t (x ∷ q) p (ap (lookup id) w ∙ lookup-insert_self id _ s.waiting) h)
        (record {
          queues = λ j.
              ground
                (arith, lookup-insert id j (x ∷ q) t.waiting, found j, present, bytes_beq_iff id j);
          cursor = c ∙ rw on refl;
          available = a;
        })

  -- A request that enters a queue and is cancelled there leaves the queues as they were.
  pub cancel_pending-enqueue :
      (enter : ℕ) (work_unit : F.Carrier) (sh : Shared F)
      → IsWellFormed sh.drr
      → IsFresh sh.drr.next_pending_id (from_option [] (lookup id sh.drr.waiting))
      → SameQueues sh.drr
          (cancel_pending id (some sh.drr.next_pending_id) (enqueue id enter work_unit sh).0.drr)
  unfolding enqueue
  cancel_pending-enqueue enter work_unit sh v h =
      restored sh.drr (enqueue id enter work_unit sh).0.drr
        (from_option [] (lookup id sh.drr.waiting))
        (record { pending_id = sh.drr.next_pending_id; enqueued_at = enter; work_unit = work_unit })
        v refl h refl refl refl
