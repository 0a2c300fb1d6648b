-- ===== src/Scheduler/Drr/Frames.antt =====
-- What the phases of `try_select` leave alone (src/scheduler/drr.rs): the queues, the cursor and
-- the permits change only when a request is served and when the cursor turns.
use tinyllb.Prelude.{
  ℕ, ◌+◌, ◌≡◌, refl, ◌∙◌, Bool, false, List, [], ◌∷◌, bytes_eq, Option-cases, Bool-cases, inl, inr,
}
use tinyllb.Prelude.Int.{ℤ, pos, ltb_ℤ}
use tinyllb.Prelude.Float.{Float}
use tinyllb.Prelude.Table.{lookup}
use tinyllb.Flow.Id.{FlowId}
use tinyllb.Scheduler.Drr.State.{Pending, DrrState, Shared, Env}
use tinyllb.Scheduler.Drr.Select.{
  fetch, scan_starved, is_starved, credit_flow, credit_entry, accumulate,
}

module _ {F : Float} where
  -- The two states agree on all but the deficits.
  pub record SameCore (s t : DrrState F) : Type 0 where
    pub waiting : t.waiting ≡ s.waiting
    pub rr_cursor : t.rr_cursor ≡ s.rr_cursor
    pub available : t.available_permits ≡ s.available_permits
    pub max_permits : t.max_permits ≡ s.max_permits
    pub next_id : t.next_pending_id ≡ s.next_pending_id

  pub SameCore-refl : (s : DrrState F) → SameCore s s
  SameCore-refl s = record {
    waiting = refl;
    rr_cursor = refl;
    available = refl;
    max_permits = refl;
    next_id = refl;
  }

  pub SameCore-trans : (s t u : DrrState F) → SameCore s t → SameCore t u → SameCore s u
  SameCore-trans s t u p q = record {
    waiting = q.waiting ∙ p.waiting;
    rr_cursor = q.rr_cursor ∙ p.rr_cursor;
    available = q.available ∙ p.available;
    max_permits = q.max_permits ∙ p.max_permits;
    next_id = q.next_id ∙ p.next_id;
  }

module _ (F : Float) where
  pub drr-fetch : (env : Env F) (id : FlowId) (sh : Shared F) → (fetch F env id sh).0.drr ≡ sh.drr
  unfolding fetch
  drr-fetch env id sh = refl

  pub drr-scan_starved :
      (env : Env F) (ids : List FlowId) (sh : Shared F) → (scan_starved F env ids sh).0.drr ≡ sh.drr
  unfolding scan_starved fetch
  drr-scan_starved env [] sh = refl
  drr-scan_starved env (id ∷ ids) sh =
      let sh' = (fetch F env id sh).0 in
      elim (Option-cases (is_starved (fetch F env id sh).1 env.starvation_timeout env.now)) [
        | inl e ↦ rw (e, scan_starved) (drr-scan_starved env ids sh')
        | inr (w, e) ↦ rw (e, scan_starved)
      ]

  credit_flow-SameCore :
      (env : Env F) (idx : ℕ) (id : FlowId) (cost : ℤ) (sh : Shared F)
      → SameCore sh.drr (credit_flow F env idx id cost sh).0.drr
  unfolding credit_flow fetch
  credit_flow-SameCore env idx id cost sh =
      elim (Bool-cases (ltb_ℤ (pos 0) (F.to_ℤ (fetch F env id sh).1.weight))) [
        | inl e ↦ rw e (record {
          waiting = refl;
          rr_cursor = refl;
          available = refl;
          max_permits = refl;
          next_id = refl;
        })
        | inr e ↦ rw e (SameCore-refl sh.drr)
      ]

  pub credit_entry-SameCore :
      (env : Env F) (idx : ℕ) (id : FlowId) (sh : Shared F)
      → SameCore sh.drr (credit_entry F env idx id sh).0.drr
  unfolding credit_entry
  credit_entry-SameCore env idx id sh = elim (Option-cases (lookup id sh.drr.waiting)) [
    | inl e ↦ rw (e, credit_entry) (SameCore-refl sh.drr)
    | inr (q, e) ↦ rw (e, credit_entry) (at q)
  ]
    where
      at :
          (q : List (Pending F))
          → SameCore sh.drr
              (elim q as (λ _. Shared F × List (ℕ × FlowId) × Bool) [
                | [] ↦ (sh, [], false)
                | p ∷ rest ↦ credit_flow F env idx id (F.to_ℤ p.work_unit) sh
              ]).0.drr
      at [] = SameCore-refl sh.drr
      at (p ∷ rest) = credit_flow-SameCore env idx id (F.to_ℤ p.work_unit) sh

  pub accumulate-SameCore :
      (env : Env F) (idx : ℕ) (ids : List FlowId) (sh : Shared F)
      → SameCore sh.drr (accumulate F env idx ids sh).0.drr
  unfolding accumulate
  accumulate-SameCore env idx [] sh = SameCore-refl sh.drr
  accumulate-SameCore env idx (id ∷ ids) sh =
      let sh' = (credit_entry F env idx id sh).0 in
      SameCore-trans sh.drr sh'.drr (accumulate F env (idx + 1) ids sh').0.drr
        (credit_entry-SameCore env idx id sh) (accumulate-SameCore env (idx + 1) ids sh')
