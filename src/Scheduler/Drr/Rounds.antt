-- ===== src/Scheduler/Drr/Rounds.antt =====
-- The phases of a round: what is eligible, the candidates, and the turn of the cursor
-- (src/scheduler/drr.rs).
use tinyllb.Prelude.{
  ℕ, ◌+◌, ◌≡◌, ◌≢◌, refl, ◌∙◌, Bool, true, false, some, List, [], ◌∷◌, ◌++◌, bytes_beq_iff,
  bytes_eq, arith, Option-cases, inl, inr,
}
use tinyllb.Prelude.Int.{ℤ}
use tinyllb.Prelude.Float.{Float}
use tinyllb.Prelude.Table.{lookup, Distinct}
use tinyllb.Flow.Id.{FlowId}
use tinyllb.Flow.Registry.{Flow, contains}
use tinyllb.Flow.Registry.Laws.{IsDistinct}
use tinyllb.Scheduler.Priority.{FlowCandidate}
use tinyllb.Scheduler.KvBias.Laws.{IsCandidate}
use tinyllb.Scheduler.Drr.State.{Pending, DrrState, Shared, Env, has_pending}
use tinyllb.Scheduler.Drr.Select.{
  fetch, credit_flow, credit_entry, accumulate, candidates, rotate, empty_flows, drop_flows, turn,
}
use tinyllb.Scheduler.Drr.Frames.{SameCore, drr-fetch, credit_entry-SameCore}
use tinyllb.Scheduler.Drr.Serve.{IsWellFormed, contains-append, append-IsDistinct}

module _ (F : Float) where
  -- Every eligible flow has a queued request.
  abbrev pub AllWait : DrrState F → List (ℕ × FlowId) → Type 0
  AllWait s [] = Unit
  AllWait s ((idx, id) ∷ l) = (has_pending s id ≡ true) × AllWait s l

  AllWait-append :
      (s : DrrState F) (l m : List (ℕ × FlowId)) → AllWait s l → AllWait s m → AllWait s (l ++ m)
  AllWait-append s [] m h k = k
  AllWait-append s ((idx, id) ∷ l) m h k = (h.0, AllWait-append s l m h.1 k)

  AllWait-SameCore :
      (s t : DrrState F) (l : List (ℕ × FlowId)) → SameCore s t → AllWait t l → AllWait s l
  AllWait-SameCore s t [] c h = tt
  AllWait-SameCore s t ((idx, id) ∷ l) c h = (rw c.waiting at h.0, AllWait-SameCore s t l c h.1)

  pub AllWait-later :
      (s t : DrrState F) (l : List (ℕ × FlowId)) → SameCore s t → AllWait s l → AllWait t l
  AllWait-later s t [] c h = tt
  AllWait-later s t ((idx, id) ∷ l) c h = (rw c.waiting h.0, AllWait-later s t l c h.1)

  credit_flow-AllWait :
      (env : Env F) (idx : ℕ) (id : FlowId) (cost : ℤ) (sh : Shared F)
      → has_pending sh.drr id ≡ true
      → AllWait sh.drr (credit_flow F env idx id cost sh).1
  unfolding credit_flow fetch
  credit_flow-AllWait env idx id cost sh h = ground arith

  credit_entry-AllWait :
      (env : Env F) (idx : ℕ) (id : FlowId) (sh : Shared F)
      → AllWait sh.drr (credit_entry F env idx id sh).1
  unfolding credit_entry
  credit_entry-AllWait env idx id sh = elim (Option-cases (lookup id sh.drr.waiting)) [
    | inl e ↦ rw (e, credit_entry) tt
    | inr (q, e) ↦ rw (e, credit_entry) (at q e)
  ]
    where
      at :
          (q : List (Pending F))
          → lookup id sh.drr.waiting ≡ some q
          → AllWait sh.drr
              (elim q as (λ _. Shared F × List (ℕ × FlowId) × Bool) [
                | [] ↦ (sh, [], false)
                | p ∷ rest ↦ credit_flow F env idx id (F.to_ℤ p.work_unit) sh
              ]).1
      at [] e = tt
      at (p ∷ rest) e = credit_flow-AllWait env idx id (F.to_ℤ p.work_unit) sh (ground (arith, e))

  pub accumulate-AllWait :
      (env : Env F) (idx : ℕ) (ids : List FlowId) (sh : Shared F)
      → AllWait sh.drr (accumulate F env idx ids sh).1
  unfolding accumulate
  accumulate-AllWait env idx [] sh = tt
  accumulate-AllWait env idx (id ∷ ids) sh =
      let sh' = (credit_entry F env idx id sh).0 in
      AllWait-append sh.drr (credit_entry F env idx id sh).1 (accumulate F env (idx + 1) ids sh').1
        (credit_entry-AllWait env idx id sh)
        (AllWait-SameCore sh.drr sh'.drr (accumulate F env (idx + 1) ids sh').1
          (credit_entry-SameCore F env idx id sh) (accumulate-AllWait env (idx + 1) ids sh'))

  -- The candidates are the eligible flows, in order.
  abbrev pub AreFor : List (ℕ × FlowId) → List (FlowCandidate F) → Type 0
  AreFor [] [] = Unit
  AreFor [] (c ∷ cs) = ⊥
  AreFor ((idx, id) ∷ l) [] = ⊥
  AreFor ((idx, id) ∷ l) (c ∷ cs) = (c.flow_id ≡ id) × (c.base_score ≡ F.of_ℕ idx) × AreFor l cs

  to_candidate : Env F → ℕ → FlowId → Flow F → Pending F → FlowCandidate F
  to_candidate env idx id f head = record {
    flow_id = id;
    priority = f.priority;
    enqueued_at = head.enqueued_at;
    base_score = F.of_ℕ idx;
    kv_footprint = env.footprint id;
  }

  candidates-cons :
      (env : Env F) (idx : ℕ) (id : FlowId) (l : List (ℕ × FlowId)) (sh : Shared F) {p : Pending F}
      {q : List (Pending F)} {r : Shared F × List (FlowCandidate F)}
      → lookup id sh.drr.waiting ≡ some (p ∷ q)
      → candidates F env l (fetch F env id sh).0 ≡ some r
      → candidates F env ((idx, id) ∷ l) sh
        ≡ some (r.0, to_candidate env idx id (fetch F env id sh).1 p ∷ r.1)
  unfolding candidates to_candidate
  candidates-cons env idx id l sh e h = rw (e, candidates) (rw h)

  pub candidates-total :
      (env : Env F) (l : List (ℕ × FlowId)) (sh : Shared F)
      → AllWait sh.drr l
      → (r : Shared F × List (FlowCandidate F)) × (candidates F env l sh ≡ some r)
        × (r.0.drr ≡ sh.drr)
        × AreFor l r.1
  candidates-total env [] sh h = unfold candidates in ((sh, []), refl, refl, tt)
  candidates-total env ((idx, id) ∷ l) sh h =
      let sh' = (fetch F env id sh).0 in
      let same = drr-fetch F env id sh in
      let (r, run, kept, are) = candidates-total env l sh' (rw same h.1) in
      elim (Option-cases (lookup id sh.drr.waiting)) [
        | inl e ↦ absurd (ground (arith, h.0, e))
        | inr (q, e) ↦ at r q e run (kept ∙ same) are
      ]
    where
      at :
          (r : Shared F × List (FlowCandidate F)) (q : List (Pending F))
          → lookup id sh.drr.waiting ≡ some q
          → candidates F env l (fetch F env id sh).0 ≡ some r
          → r.0.drr ≡ sh.drr
          → AreFor l r.1
          → (r' : Shared F × List (FlowCandidate F)) × (candidates F env ((idx, id) ∷ l) sh
              ≡ some r')
            × (r'.0.drr ≡ sh.drr)
            × AreFor ((idx, id) ∷ l) r'.1
      at r [] e run kept are = absurd (ground (arith, h.0, e))
      at r (p ∷ q) e run kept are = (
        (r.0, to_candidate env idx id (fetch F env id sh).1 p ∷ r.1),
        candidates-cons env idx id l sh e run,
        kept,
        unfold to_candidate in (refl, refl, are),
      )

  pub IsCandidate-waits :
      (s : DrrState F) (w : FlowCandidate F) (l : List (ℕ × FlowId)) (cs : List (FlowCandidate F))
      → AllWait s l
      → AreFor l cs
      → IsCandidate F w cs
      → has_pending s w.flow_id ≡ true
  IsCandidate-waits s w [] [] h a m = absurd m
  IsCandidate-waits s w [] (c ∷ cs) h a m = absurd a
  IsCandidate-waits s w ((idx, id) ∷ l) [] h a m = absurd a
  IsCandidate-waits s w ((idx, id) ∷ l) (c ∷ cs) h a (inl e) = rw (e, a.0) h.0
  IsCandidate-waits s w ((idx, id) ∷ l) (c ∷ cs) h a (inr m) = IsCandidate-waits s w l cs h.1 a.2 m

  contains-rotate : (j : FlowId) (l : List FlowId) → contains j (rotate F l) ≡ contains j l
  unfolding rotate
  contains-rotate j [] = refl
  contains-rotate j (id ∷ l) = ground (arith, contains-append j l (id ∷ []))

  rotate-IsDistinct : (l : List FlowId) → IsDistinct l → IsDistinct (rotate F l)
  unfolding rotate
  rotate-IsDistinct [] d = tt
  rotate-IsDistinct (id ∷ l) d = append-IsDistinct id l d.0 d.1

  no_empty_flows :
      (m : List (FlowId × List (Pending F)))
      → Distinct m
      → ((id : FlowId) → lookup id m ≢ some [])
      → empty_flows F m ≡ []
  unfolding empty_flows lookup
  no_empty_flows [] d h = refl
  no_empty_flows ((id, []) ∷ m) d h = absurd (h id (ground (arith, bytes_beq_iff id id)))
  no_empty_flows ((id, p ∷ q) ∷ m) d h =
      no_empty_flows m d.1 (λ j e. h j (ground (arith, d.0, bytes_beq_iff id j)))

  -- With no empty queue, the turn only rotates the cursor.
  pub turn-rotate :
      (s : DrrState F) → IsWellFormed s → turn F s ≡ record s { rr_cursor = rotate F s.rr_cursor }
  unfolding turn drop_flows
  turn-rotate s v = rw (no_empty_flows s.waiting v.keys v.no_empty)

  pub turn-IsWellFormed : (s : DrrState F) → IsWellFormed s → IsWellFormed (turn F s)
  turn-IsWellFormed s v = rw (turn-rotate s v) (record {
    waits = λ id. contains-rotate id s.rr_cursor ∙ v.waits id;
    no_empty = v.no_empty;
    keys = v.keys;
    distinct = rotate-IsDistinct s.rr_cursor v.distinct;
    bounded = v.bounded;
    permits = v.permits;
  })
