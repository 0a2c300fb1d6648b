-- ===== src/Scheduler/Drr/Total.antt =====
-- `try_select` as a whole (src/scheduler/drr.rs): it never panics, keeps the queues well formed,
-- and serves the head of a queue only while fewer flows are active than the cap.
use tinyllb.Prelude.{
  ℕ, ◌+◌, ◌-◌, ◌≤◌, ◌<◌, ◌≡◌, refl, Bool, true, false, Option, none, some, List, [], ◌∷◌,
  if◌then◌else◌, bytes_eq, arith, Option-cases, Bool-cases, inl, inr, ap, leb,
}
use mathlib.Core.Path.{subst}
use tinyllb.Prelude.Words.{sub_u32}
use tinyllb.Prelude.Float.{Float}
use tinyllb.Prelude.Table.{remove}
use tinyllb.Flow.Id.{FlowId}
use tinyllb.Flow.Registry.{Flow}
use tinyllb.Scheduler.Priority.{FlowCandidate}
use tinyllb.Scheduler.KvBias.Laws.{IsCandidate}
use tinyllb.Scheduler.Drr.State.{DrrState, Shared, Env, Selection, is_nil, has_pending}
use tinyllb.Scheduler.Drr.Select.{
  fetch, with_pending, is_starved, scan_starved, record_force_admit, accumulate, candidates,
  select_eligible, turn, try_select,
}
use tinyllb.Scheduler.Drr.Frames.{SameCore, drr-fetch, drr-scan_starved, accumulate-SameCore}
use tinyllb.Scheduler.Drr.Serve.{
  IsWellFormed, Serves, serve-Serves, SameCore-IsWellFormed, Serves-SameCore,
}
use tinyllb.Scheduler.Drr.Rounds.{
  AllWait, accumulate-AllWait, candidates-total, AreFor, IsCandidate-waits, turn-IsWellFormed,
  turn-rotate, AllWait-later,
}

module _ (F : Float) where
  -- The selection of a round with candidates is one of them.
  abbrev pub SelectsOne : Env F → Type 0
  SelectsOne env =
      (c : FlowCandidate F) (cs : List (FlowCandidate F))
      → (w : FlowCandidate F) × (env.select (c ∷ cs) ≡ some w.flow_id) × IsCandidate F w (c ∷ cs)

  -- What a call of `try_select` may come to: nothing selected, or one request served.
  abbrev pub Selects : DrrState F → DrrState F → Option (Selection F) → Type 0
  Selects s t none = (t.available_permits ≡ s.available_permits) × (t.max_permits ≡ s.max_permits)
  Selects s t (some sel) = Serves s t sel

  -- The permits in use.
  abbrev pub active : DrrState F → ℕ
  active s = s.max_permits - s.available_permits

  -- A request served makes one more active, and not more than the cap.
  abbrev pub KeepsCap : ℕ → DrrState F → DrrState F → Option (Selection F) → Type 0
  KeepsCap cap s t none = Unit
  KeepsCap cap s t (some sel) = (active t ≡ active s + 1) × (active t ≤ cap)

  -- The outcome of `try_select`: no panic, and what the result holds.
  abbrev pub Round : Env F → Shared F → Type 0
  Round env sh =
      (r : Shared F × Option (Selection F) × Bool) × (try_select F env sh ≡ some r)
      × IsWellFormed r.0.drr
      × Selects sh.drr r.0.drr r.1
      × KeepsCap env.cap sh.drr r.0.drr r.1

  -- Every flow of the list has a queued request.
  abbrev pub AllPending : DrrState F → List FlowId → Type 0
  AllPending s [] = Unit
  AllPending s (id ∷ ids) = (has_pending s id ≡ true) × AllPending s ids

  pub with_pending-AllPending :
      (s : DrrState F) (ids : List FlowId) → AllPending s (with_pending F s ids)
  unfolding with_pending
  with_pending-AllPending s [] = tt
  with_pending-AllPending s (id ∷ ids) = elim (Bool-cases (has_pending s id)) [
    | inl y ↦ rw y (y, with_pending-AllPending s ids)
    | inr n ↦ rw n (with_pending-AllPending s ids)
  ]

  pub scan_starved-pending :
      (env : Env F) (ids : List FlowId) (sh : Shared F) (s : DrrState F) {id : FlowId} {f : Flow F}
      {w : ℕ}
      → AllPending s ids
      → (scan_starved F env ids sh).1 ≡ some (id, f, w)
      → has_pending s id ≡ true
  unfolding scan_starved
  scan_starved-pending env [] sh s h e = cc
  scan_starved-pending env (j ∷ ids) sh s {id} {f} {w} h e =
      let f' = (fetch F env j sh).1 in
      let sh' = (fetch F env j sh).0 in
      elim (Option-cases (is_starved f' env.starvation_timeout env.now)) [
        | inl n ↦ scan_starved-pending env ids sh' s h.1 (rw (n, scan_starved) at e)
        | inr (wait, y) ↦
            let e' : ◌≡◌ {A = Option (FlowId × Flow F × ℕ)} (some (j, f', wait)) (some (id, f, w)) =
              rw (y, scan_starved) at e in
            let same : j ≡ id = cc in rw (← same) h.0
      ]

  select_eligible-total :
      (env : Env F) (idx : ℕ) (id : FlowId) (l : List (ℕ × FlowId)) (sh : Shared F)
      → SelectsOne env
      → AllWait F sh.drr ((idx, id) ∷ l)
      → (r : Shared F × Selection F) × (select_eligible F env ((idx, id) ∷ l) sh
          ≡ some (r.0, some r.1, true))
        × Serves sh.drr r.0.drr r.1
  select_eligible-total env idx id l sh sel h =
      let (built, run, kept, are) = candidates-total F env ((idx, id) ∷ l) sh h in
      at built.0 built.1 run kept are
    where
      pick :
          (sh' : Shared F) (c : FlowCandidate F) (cs : List (FlowCandidate F)) (w : FlowCandidate F)
          → candidates F env ((idx, id) ∷ l) sh ≡ some (sh', c ∷ cs)
          → sh'.drr ≡ sh.drr
          → env.select (c ∷ cs) ≡ some w.flow_id
          → has_pending sh.drr w.flow_id ≡ true
          → (r : Shared F × Selection F) × (select_eligible F env ((idx, id) ∷ l) sh
              ≡ some (r.0, some r.1, true))
            × Serves sh.drr r.0.drr r.1
      pick sh' c cs w run kept e waits =
          let cleared : Shared F = record sh' {
            drr = record (sh'.drr) { deficit = remove w.flow_id sh'.drr.deficit };
          } in
          let fetched = fetch F env w.flow_id cleared in
          let same = drr-fetch F env w.flow_id cleared in
          let (r, served, _, serves) =
            serve-Serves F w.flow_id fetched.1 fetched.0 (rw (same, kept) waits) in
          (
            r,
            unfold select_eligible in (rw (run) (rw e (rw served))),
            Serves-SameCore F sh.drr fetched.0.drr r.0.drr r.1
                (rw same (record {
                  waiting = ap (λ s. s.waiting) kept;
                  rr_cursor = ap (λ s. s.rr_cursor) kept;
                  available = ap (λ s. s.available_permits) kept;
                  max_permits = ap (λ s. s.max_permits) kept;
                  next_id = ap (λ s. s.next_pending_id) kept;
                }))
                serves,
          )

      at :
          (sh' : Shared F) (cs : List (FlowCandidate F))
          → candidates F env ((idx, id) ∷ l) sh ≡ some (sh', cs)
          → sh'.drr ≡ sh.drr
          → AreFor F ((idx, id) ∷ l) cs
          → (r : Shared F × Selection F) × (select_eligible F env ((idx, id) ∷ l) sh
              ≡ some (r.0, some r.1, true))
            × Serves sh.drr r.0.drr r.1
      at sh' [] run kept are = absurd are
      at sh' (c ∷ cs) run kept are =
          let (w, e, m) = sel c cs in
          pick sh' c cs w run kept e (IsCandidate-waits F sh.drr w ((idx, id) ∷ l) (c ∷ cs) h are m)

  -- With no starved flow the round credits the waiting flows and serves an eligible one, if any.
  credited-total :
      (env : Env F) (sh : Shared F)
      → SelectsOne env
      → IsWellFormed sh.drr
      → 1 ≤ sh.drr.available_permits
      → let credited = accumulate F env 0 sh.drr.rr_cursor sh in
        (r : Shared F × Option (Selection F) × Bool) × ((if is_nil credited.1
            then some (record (credited.0) { drr = turn F credited.0.drr }, none, credited.2)
            else select_eligible F env credited.1 credited.0)
          ≡ some r)
        × IsWellFormed r.0.drr
        × Selects sh.drr r.0.drr r.1
  credited-total env sh sel v p =
      let credited = accumulate F env 0 sh.drr.rr_cursor sh in
      at credited.1 credited.2 credited.0 (accumulate-SameCore F env 0 sh.drr.rr_cursor sh)
        (accumulate-AllWait F env 0 sh.drr.rr_cursor sh)
    where
      at :
          (l : List (ℕ × FlowId)) (b : Bool) (sh' : Shared F)
          → SameCore sh.drr sh'.drr
          → AllWait F sh.drr l
          → (r : Shared F × Option (Selection F) × Bool) × ((if is_nil l
                then some (record sh' { drr = turn F sh'.drr }, none, b)
                else select_eligible F env l sh')
              ≡ some r)
            × IsWellFormed r.0.drr
            × Selects sh.drr r.0.drr r.1
      at [] b sh' c h =
          let v' = SameCore-IsWellFormed sh.drr sh'.drr c v in
          (
            (record sh' { drr = turn F sh'.drr }, none, b),
            refl,
            turn-IsWellFormed F sh'.drr v',
            rw (turn-rotate F sh'.drr v') (c.available, c.max_permits),
          )
      at ((idx, id) ∷ l) b sh' c h =
          let (r, run, serves) =
            select_eligible-total env idx id l sh' sel
              (AllWait-later F sh.drr sh'.drr ((idx, id) ∷ l) c h) in
          (
            (r.0, some r.1, true),
            run,
            serves.well_formed (SameCore-IsWellFormed sh.drr sh'.drr c v)
                (omega (arith, c.available)),
            Serves-SameCore F sh.drr sh'.drr r.0.drr r.1 c serves,
          )

  Serves-KeepsCap :
      (env : Env F) (s t : DrrState F) (sel : Selection F)
      → IsWellFormed s
      → 1 ≤ s.available_permits
      → active s < env.cap
      → Serves s t sel
      → KeepsCap env.cap s t (some sel)
  Serves-KeepsCap env s t sel v p h w = (
    omega (arith, w.permit, w.max_permits, v.permits, v.bounded),
    omega (arith, w.permit, w.max_permits, v.permits, v.bounded),
  )

  Selects-KeepsCap :
      (env : Env F) (s t : DrrState F) (sel : Option (Selection F))
      → IsWellFormed s
      → 1 ≤ s.available_permits
      → active s < env.cap
      → Selects s t sel
      → KeepsCap env.cap s t sel
  Selects-KeepsCap env s t none v p h w = tt
  Selects-KeepsCap env s t (some sel) v p h w = Serves-KeepsCap env s t sel v p h w

  -- Below the cap and with a flow waiting, a round serves a starved flow or goes by credit.
  busy_round :
      (env : Env F) (sh : Shared F)
      → SelectsOne env
      → IsWellFormed sh.drr
      → 1 ≤ sh.drr.available_permits
      → leb env.cap (sub_u32 sh.drr.max_permits sh.drr.available_permits) ≡ false
      → is_nil sh.drr.rr_cursor ≡ false
      → (r : Shared F × Option (Selection F) × Bool) × (try_select F env sh ≡ some r)
        × IsWellFormed r.0.drr
        × Selects sh.drr r.0.drr r.1
  unfolding try_select
  busy_round env sh sel v p room busy =
      let ids = with_pending F sh.drr sh.drr.rr_cursor in
      let scanned = scan_starved F env ids sh in
      let same = drr-scan_starved F env ids sh in
      elim (Option-cases scanned.1) [
        | inl none_starved ↦
            let (r, run, v', s) = credited-total env scanned.0 sel (rw same v) (rw same p) in
            (r, rw (room, busy, none_starved) run, v', subst (λ d. Selects d r.0.drr r.1) same s)
        | inr ((id, f, wait), starved) ↦
            let sh' = scanned.0 in
            let forced : Shared F = record sh' {
              metrics = record_force_admit id wait sh'.metrics;
            } in
            let waits =
              scan_starved-pending env ids sh sh.drr
                (with_pending-AllPending sh.drr sh.drr.rr_cursor) starved in
            let (r, run, _, serves) = serve-Serves F id f forced (rw same waits) in
            (
              (r.0, some r.1, true),
              rw (room, busy, starved) (rw run),
              serves.well_formed (rw same v) (rw same p),
              subst (λ d. Serves d r.0.drr r.1) same serves,
            )
      ]

  -- With well-formed queues, a cap of at most the permit budget and a selection that picks one of
  -- its candidates, a round does not panic and keeps the queues well formed. It selects nothing,
  -- or serves the head of one queue; the active count is then one more and within the cap.
  pub try_select-total :
      (env : Env F) (sh : Shared F)
      → SelectsOne env
      → IsWellFormed sh.drr
      → env.cap ≤ sh.drr.max_permits
      → Round env sh
  try_select-total env sh sel v c =
      elim (Bool-cases (leb env.cap (sub_u32 sh.drr.max_permits sh.drr.available_permits))) [
        | inl full ↦ ((sh, none, false), unfold try_select in (rw full), v, (refl, refl), tt)
        | inr room ↦ elim (Bool-cases (is_nil sh.drr.rr_cursor)) [
          | inl idle ↦
              ((sh, none, false), unfold try_select in (rw (room, idle)), v, (refl, refl), tt)
          | inr busy ↦
              let below : active sh.drr < env.cap = ground (arith, v.permits, v.bounded, room) in
              let p : 1 ≤ sh.drr.available_permits = omega (arith, v.permits) in
              let (r, run, v', s) = busy_round env sh sel v p room busy in
              (r, run, v', s, Selects-KeepsCap env sh.drr r.0.drr r.1 v p below s)
        ]
      ]
