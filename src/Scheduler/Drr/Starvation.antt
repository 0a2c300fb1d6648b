-- ===== src/Scheduler/Drr/Starvation.antt =====
-- Starvation protection of the DRR scheduler (src/scheduler/drr.rs, src/scheduler/starvation.rs).
use tinyllb.Prelude.{
  ℕ, ◌-◌, ◌≤◌, ◌<◌, ◌≡◌, refl, sym, ◌∙◌, Bool, true, false, Option, none, some, List, [], ◌∷◌,
  if◌then◌else◌, bytes_beq, bytes_beq_iff, bytes_eq, arith, Option-cases, Bool-cases, inl, inr, ap,
  leb, ltb, is_some,
}
use mathlib.Core.Path.{subst}
use tinyllb.Prelude.Words.{sub_u32}
use tinyllb.Prelude.Float.{Float}
use tinyllb.Prelude.Table.{lookup, lookup-insert}
use tinyllb.Flow.Id.{FlowId}
use tinyllb.Flow.Registry.{Flow, FlowRegistry, contains, get_or_create, touched, put_flow}
use tinyllb.Scheduler.Drr.State.{DrrState, Shared, Env, Selection, is_nil, has_pending}
use tinyllb.Scheduler.Drr.Select.{
  fetch, with_pending, is_starved, scan_starved, record_force_admit, try_select,
}
use tinyllb.Scheduler.Drr.Frames.{drr-scan_starved}
use tinyllb.Scheduler.Drr.Serve.{IsWellFormed, Serves, serve-Serves}
use tinyllb.Scheduler.Drr.Total.{active, with_pending-AllPending, scan_starved-pending}

module _ (F : Float) where
  abbrev queued_in : Option (Flow F) → Option ℕ
  queued_in none = none
  queued_in (some f) = f.enqueued_at

  -- When the flow was queued, if it is registered and was.
  abbrev pub queued_since : FlowRegistry F → FlowId → Option ℕ
  queued_since r id = queued_in (lookup id r.flows)

  -- The flow has been queued for longer than the timeout.
  abbrev pub is_late : Env F → Option ℕ → Bool
  is_late env none = false
  is_late env (some queued_at) = ltb env.starvation_timeout (env.now - queued_at)

  -- The first flow of a list that has starved.
  abbrev pub first_late : Env F → FlowRegistry F → List FlowId → Option FlowId
  first_late env r [] = none
  first_late env r (id ∷ ids) =
      if is_late env (queued_since r id) then some id else first_late env r ids

  touched-queued :
      (r : FlowRegistry F) (id : FlowId) (unix : ℕ)
      → (touched r id unix).enqueued_at ≡ queued_since r id
  unfolding touched
  touched-queued r id unix = at (lookup id r.flows) refl
    where
      at :
          (o : Option (Flow F))
          → lookup id r.flows ≡ o
          → (touched r id unix).enqueued_at ≡ queued_in o
      at none e = rw (e, touched) refl
      at (some f) e = rw (e, touched) refl

  queued_since-fetch :
      (env : Env F) (j id : FlowId) (sh : Shared F)
      → queued_since (fetch F env j sh).0.registry id ≡ queued_since sh.registry id
  unfolding fetch get_or_create put_flow
  queued_since-fetch env j id sh =
      ap queued_in (lookup-insert j id (touched sh.registry j env.unix) sh.registry.flows)
      ∙ (elim (Bool-cases (bytes_beq j id)) [
        | inl y ↦ rw (y, touched-queued sh.registry j env.unix, (bytes_beq_iff j id).0 y) refl
        | inr n ↦ rw n refl
      ])

  first_late-fetch :
      (env : Env F) (j : FlowId) (sh : Shared F) (ids : List FlowId)
      → first_late env (fetch F env j sh).0.registry ids ≡ first_late env sh.registry ids
  first_late-fetch env j sh [] = refl
  first_late-fetch env j sh (id ∷ ids) =
      rw (queued_since-fetch env j id sh, first_late-fetch env j sh ids) refl

  fetched-late :
      (env : Env F) (j : FlowId) (sh : Shared F)
      → is_some (is_starved (fetch F env j sh).1 env.starvation_timeout env.now)
        ≡ is_late env (queued_since sh.registry j)
  unfolding fetch get_or_create is_starved
  fetched-late env j sh =
      at (touched sh.registry j env.unix) (queued_since sh.registry j)
        (touched-queued sh.registry j env.unix)
    where
      at :
          (f : Flow F) (q : Option ℕ)
          → f.enqueued_at ≡ q
          → is_some (is_starved f env.starvation_timeout env.now) ≡ is_late env q
      at f none e = rw (e, is_starved) refl
      at f (some q) e = rw (e, is_starved) (ground arith)

  -- The scan finds the first starved flow of its list.
  abbrev id_of : Option (FlowId × Flow F × ℕ) → Option FlowId
  id_of none = none
  id_of (some r) = some r.0

  scan_starved-first_late :
      (env : Env F) (ids : List FlowId) (sh : Shared F)
      → id_of (scan_starved F env ids sh).1 ≡ first_late env sh.registry ids
  unfolding scan_starved
  scan_starved-first_late env [] sh = refl
  scan_starved-first_late env (id ∷ ids) sh =
      let f = (fetch F env id sh).1 in
      let sh' = (fetch F env id sh).0 in
      elim (Option-cases (is_starved f env.starvation_timeout env.now)) [
        | inl n ↦
            let late : is_late env (queued_since sh.registry id) ≡ false =
              sym (fetched-late env id sh) ∙ ap is_some n in
            rw (n, scan_starved, late)
              (scan_starved-first_late env ids sh' ∙ first_late-fetch env id sh ids)
        | inr (w, y) ↦
            let late : is_late env (queued_since sh.registry id) ≡ true =
              sym (fetched-late env id sh) ∙ ap is_some y in
            rw (y, scan_starved, late) refl
      ]

  with_pending-all :
      (s : DrrState F) (ids : List FlowId)
      → ((j : FlowId) → contains j ids ≡ true → has_pending s j ≡ true)
      → with_pending F s ids ≡ ids
  unfolding with_pending
  with_pending-all s [] h = refl
  with_pending-all s (id ∷ ids) h =
      rw (h id (ground (arith, bytes_beq_iff id id)))
        (ap (λ l. id ∷ l) (with_pending-all s ids (λ j c. h j (ground (arith, c)))))

  late-busy :
      (env : Env F) (r : FlowRegistry F) (ids : List FlowId) {id : FlowId}
      → first_late env r ids ≡ some id
      → is_nil ids ≡ false
  late-busy env r [] e = cc
  late-busy env r (j ∷ ids) e = refl

  -- With well-formed queues and fewer flows active than the cap, a round serves the first starved
  -- flow of the cursor if there is one, at the head of its queue and whatever its credit.
  pub try_select-starved :
      (env : Env F) (sh : Shared F) (id : FlowId)
      → IsWellFormed sh.drr
      → active F sh.drr < env.cap
      → env.cap ≤ sh.drr.max_permits
      → first_late env sh.registry sh.drr.rr_cursor ≡ some id
      → (r : Shared F × Selection F) × (try_select F env sh ≡ some (r.0, some r.1, true))
        × (r.1.flow_id ≡ id)
        × Serves sh.drr r.0.drr r.1
  unfolding try_select
  try_select-starved env sh id v below c late =
      let ids = with_pending F sh.drr sh.drr.rr_cursor in
      let scanned = scan_starved F env ids sh in
      let same = drr-scan_starved F env ids sh in
      let all = with_pending-all sh.drr sh.drr.rr_cursor (λ j h. sym (v.waits j) ∙ h) in
      let found : id_of scanned.1 ≡ some id =
        scan_starved-first_late env ids sh ∙ ap (λ l. first_late env sh.registry l) all ∙ late in
      let room : leb env.cap (sub_u32 sh.drr.max_permits sh.drr.available_permits) ≡ false =
        ground (arith, v.permits, v.bounded, below) in
      let busy = late-busy env sh.registry sh.drr.rr_cursor late in
      elim (Option-cases scanned.1) [
        | inl n ↦ absurd (ground (arith, sym (ap id_of n) ∙ found))
        | inr ((j, f, wait), starved) ↦
            let sh' = scanned.0 in
            let forced : Shared F = record sh' {
              metrics = record_force_admit j wait sh'.metrics;
            } in
            let waits =
              scan_starved-pending F env ids sh sh.drr
                (with_pending-AllPending F sh.drr sh.drr.rr_cursor) starved in
            let (r, run, own, serves) = serve-Serves F j f forced (rw same waits) in
            let this : ◌≡◌ {A = Option FlowId} (some j) (some id) =
              sym (ap id_of starved) ∙ found in
            (
              r,
              rw (room, busy, starved) (rw run refl),
              own ∙ cc,
              subst (λ d. Serves d r.0.drr r.1) same serves,
            )
      ]
