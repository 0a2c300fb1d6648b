-- ===== src/Flow/Registry/Reap.antt =====
-- The reaper (src/flow/mod.rs): which flows go, and which slots are given back.
use tinyllb.Prelude.{
  ℕ, ◌≡◌, refl, false, Option, none, some, List, [], ◌∷◌, arith, ◌+◌, ◌&&◌, ◌==◌, ltb, Bool, inl,
  inr, if◌then◌else◌, is_some, bytes_eq, bytes_beq, bytes_beq_iff, nat_eq, Bool-cases, ◌∙◌,
}
use tinyllb.Prelude.Words.{saturating_sub}
use tinyllb.Prelude.Float.{Float}
use tinyllb.Prelude.Table.{lookup, remove, lookup-remove, Distinct}
use tinyllb.Flow.Id.{FlowId}
use tinyllb.Flow.Slots.{release}
use tinyllb.Flow.Slots.Counts.{lookup-release}
use tinyllb.Flow.Slots.Sweep.{lookup-sweep_missing}
use tinyllb.Flow.Registry.{Flow, FlowRegistry, is_stale, stale_ids, remove_all, reap_idle, contains}

module _ {F : Float} where
  -- A flow without requests that has not been seen for longer than `ttl`.
  abbrev pub is_idle : ℕ → ℕ → Flow F → Bool
  is_idle ttl now f = f.depth == 0 && f.active == 0 && ltb (f.last_seen + ttl) now

  -- What the reaper leaves of an entry.
  abbrev pub kept : ℕ → ℕ → Option (Flow F) → Option (Flow F)
  kept ttl now none = none
  kept ttl now (some f) = if is_idle ttl now f then none else some f

  is_stale-is_idle :
      (ttl now : ℕ) (f : Flow F) → is_stale (saturating_sub now ttl) f ≡ is_idle ttl now f
  unfolding is_stale
  is_stale-is_idle ttl now f = ground arith

  contains-stale_ids :
      (ttl now : ℕ) (j : FlowId) (m : List (FlowId × Flow F))
      → Distinct m
      → (if contains j (stale_ids (saturating_sub now ttl) m) then none else lookup j m)
        ≡ kept ttl now (lookup j m)
  unfolding stale_ids lookup
  contains-stale_ids ttl now j [] d = refl
  contains-stale_ids ttl now j ((id, f) ∷ m) d =
      let cutoff = saturating_sub now ttl in
      let idle = is_stale-is_idle ttl now f in
      elim (Bool-cases (bytes_beq id j)) [
        | inl hit ↦
            let e = (bytes_beq_iff id j).0 hit in
            let absent : lookup j m ≡ none = rw (← e) d.0 in
            elim (Bool-cases (is_stale cutoff f)) [
              | inl y ↦ rw (hit, y, ← idle, y) (rw hit)
              | inr n ↦ rw (hit, n, ← idle, n, contains-absent cutoff j m absent) refl
            ]
        | inr miss ↦ ground (arith, contains-stale_ids ttl now j m d.1)
      ]
    where
      contains-absent :
          (c : ℕ) (i : FlowId) (l : List (FlowId × Flow F))
          → lookup i l ≡ none
          → contains i (stale_ids c l) ≡ false
      contains-absent c i [] h = refl
      contains-absent c i ((k, g) ∷ l) h = ground (arith, contains-absent c i l)

  flows-remove_all :
      (ids : List FlowId) (r : FlowRegistry F) (j : FlowId)
      → lookup j (remove_all ids r).flows ≡ (if contains j ids then none else lookup j r.flows)
  unfolding remove_all
  flows-remove_all [] r j = refl
  flows-remove_all (id ∷ ids) r j = ground (
    arith,
    flows-remove_all ids (record r { flows = remove id r.flows; slots = release r.slots id }) j,
    lookup-remove id j r.flows,
  )

  slots-remove_all :
      (ids : List FlowId) (r : FlowRegistry F) (j : FlowId)
      → lookup j (remove_all ids r).slots.assignments
        ≡ (if contains j ids then none else lookup j r.slots.assignments)
  unfolding remove_all
  slots-remove_all [] r j = refl
  slots-remove_all (id ∷ ids) r j = ground (
    arith,
    slots-remove_all ids (record r { flows = remove id r.flows; slots = release r.slots id }) j,
    lookup-release r.slots id j,
  )

  -- A flow goes exactly if it has no queued and no active request and was last seen more than `ttl`
  -- seconds ago; every other flow stays as it was. The registry has one entry for each flow.
  pub lookup-reap_idle :
      (r : FlowRegistry F) (ttl now : ℕ) (j : FlowId)
      → Distinct r.flows
      → lookup j (reap_idle r ttl now).0.flows ≡ kept ttl now (lookup j r.flows)
  unfolding reap_idle
  lookup-reap_idle r ttl now j d =
      flows-remove_all (stale_ids (saturating_sub now ttl) r.flows) r j
      ∙ contains-stale_ids ttl now j r.flows d

  -- After a reap a flow holds the slot that it held before if it is still registered, and none
  -- otherwise.
  pub slots-reap_idle :
      (r : FlowRegistry F) (ttl now : ℕ) (j : FlowId)
      → lookup j (reap_idle r ttl now).0.slots.assignments ≡ (
          if is_some (lookup j (reap_idle r ttl now).0.flows)
          then lookup j r.slots.assignments
          else none)
  unfolding reap_idle
  slots-reap_idle r ttl now j =
      let ids = stale_ids (saturating_sub now ttl) r.flows in
      let r' = remove_all ids r in
      ground (
        arith,
        lookup-sweep_missing r'.slots (λ id. is_some (lookup id r'.flows)) j,
        slots-remove_all ids r j,
        flows-remove_all ids r j,
      )
