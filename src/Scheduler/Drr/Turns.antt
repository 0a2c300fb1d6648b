-- ===== src/Scheduler/Drr/Turns.antt =====
-- A turn of the admission loop as a whole, and the steps that leave the loop's state as it is
-- (src/scheduler/drr.rs).
use tinyllb.Prelude.{
  ℕ, ◌+◌, ◌-◌, ◌≤◌, ◌<◌, ◌≡◌, refl, Bool, true, false, Option, none, some, if◌then◌else◌, bytes_eq,
  arith, ◌⊎◌, Bool-cases, inl, inr, ap, leb, ◌>>=◌,
}
use tinyllb.Prelude.Words.{u32_mod, sub_u32, add_u32}
use tinyllb.Prelude.Float.{Float}
use tinyllb.Prelude.Table.{lookup}
use tinyllb.Scheduler.Events.{emit, scheduler_effective_max_flows}
use tinyllb.Flow.Id.{FlowId}
use tinyllb.Scheduler.Drr.State.{DrrState, Shared, Env, Selection, is_nil, new_state}
use tinyllb.Scheduler.Drr.Select.{fetch, try_select}
use tinyllb.Scheduler.Drr.Frames.{drr-fetch}
use tinyllb.Scheduler.Drr.Serve.{IsWellFormed, Serves}
use tinyllb.Scheduler.Drr.Total.{SelectsOne, Selects, KeepsCap, try_select-total}
use tinyllb.Scheduler.Drr.Admit.{
  credit, Guard, AccountingReport, Turn, waits, again, granted, refused, guard_new, leave, consume,
  admitted, cancel_pending, drop_guard, release_permit, report_accounting, loop_turn,
}

module _ (F : Float) where
  pub new_state-IsWellFormed : (m : ℕ) → m < u32_mod → IsWellFormed (new_state F m)
  unfolding lookup
  new_state-IsWellFormed m h = record {
    waits = λ id. refl;
    no_empty = λ id. ground arith;
    keys = tt;
    distinct = tt;
    bounded = h;
    permits = omega arith;
  }

  pub release_permit-IsWellFormed :
      (sh : Shared F)
      → IsWellFormed sh.drr
      → sh.drr.available_permits < sh.drr.max_permits
      → IsWellFormed (release_permit sh).drr
  unfolding release_permit
  release_permit-IsWellFormed sh v h = record {
    waits = v.waits;
    no_empty = v.no_empty;
    keys = v.keys;
    distinct = v.distinct;
    bounded = v.bounded;
    permits = omega (arith, v.bounded, h);
  }

  -- What a turn leaves of the permits: a ticket whose receiver is there is one more active flow,
  -- within the cap; one whose receiver is gone leaves its queue, but the permit is free again.
  abbrev pub KeepsTickets : Bool → ℕ → DrrState F → DrrState F → Turn F → Type 0
  KeepsTickets alive cap s t waits = t.available_permits ≡ s.available_permits
  KeepsTickets alive cap s t again = t.available_permits ≡ s.available_permits
  KeepsTickets alive cap s t (granted sel) =
      (alive ≡ true)
      × (s.available_permits ≡ t.available_permits + 1)
      × (t.max_permits - t.available_permits ≤ cap)
      × Serves s t sel
  KeepsTickets alive cap s t (refused sel) =
      (alive ≡ false)
      × (t.available_permits ≡ s.available_permits)
      × ((u : DrrState F) × Serves s u sel
          × (t ≡ record u { available_permits = s.available_permits }))

  -- The state in which a turn starts, once it has written the gauge of a changed cap.
  abbrev gauged : Env F → Bool → Shared F → Shared F
  gauged env changed sh =
      if changed
      then record sh { metrics = emit (scheduler_effective_max_flows env.cap) sh.metrics }
      else sh

  drr-gauged : (env : Env F) (changed : Bool) (sh : Shared F) → (gauged env changed sh).drr ≡ sh.drr
  drr-gauged env true sh = refl
  drr-gauged env false sh = refl

  abbrev pub Turned : Env F → Bool → Bool → Shared F → Type 0
  Turned env changed alive sh =
      (r : Shared F × Turn F) × (loop_turn F env changed alive sh ≡ some r)
      × IsWellFormed r.0.drr
      × (r.0.drr.max_permits ≡ sh.drr.max_permits)
      × KeepsTickets alive env.cap sh.drr r.0.drr r.1

  -- What the turn makes of the outcome of `try_select`.
  abbrev outcome :
      Env F → Bool → Shared F × Option (Selection F) × Bool → Option (Shared F × Turn F)
  outcome env alive r = elim (r.1) [
    | none ↦ some (r.0, if r.2 then again else waits)
    | some sel ↦
        let ticketed = (fetch F env sel.flow_id r.0).0 in
        if alive then some (ticketed, granted sel) else some (release_permit ticketed, refused sel)
  ]

  -- A request served, and its permit kept or given back.
  sent :
      (env : Env F) (alive : Bool) (s : DrrState F) (sh' : Shared F) (sel : Selection F)
      → IsWellFormed s
      → IsWellFormed sh'.drr
      → Serves s sh'.drr sel
      → KeepsCap F env.cap s sh'.drr (some sel)
      → (r' : Shared F × Turn F) × ((if alive
            then some (sh', granted sel)
            else some (release_permit sh', refused sel))
          ≡ some r')
        × IsWellFormed r'.0.drr
        × (r'.0.drr.max_permits ≡ s.max_permits)
        × KeepsTickets alive env.cap s r'.0.drr r'.1
  sent env true s sh' sel v v' serves cap = (
    (sh', granted sel),
    refl,
    v',
    serves.max_permits,
    (refl, omega (arith, cap.0, serves.max_permits, v.permits, v'.permits), cap.1, serves),
  )
  sent env false s sh' sel v v' serves cap = (
    (release_permit sh', refused sel),
    refl,
    release_permit-IsWellFormed sh' v'
        (omega (arith, cap.0, serves.max_permits, v.permits, v'.permits)),
    unfold release_permit in serves.max_permits,
    let free : add_u32 sh'.drr.available_permits 1 ≡ s.available_permits =
          omega (arith, cap.0, serves.max_permits, v.permits, v'.permits, v.bounded) in
        unfold release_permit in
        (refl, free, (sh'.drr, serves, ap (λ n. record (sh'.drr) { available_permits = n }) free)),
  )

  -- What the loop does with the outcome of `try_select` keeps the count of the permits.
  outcome-keeps :
      (env : Env F) (alive : Bool) (s : DrrState F) (r : Shared F × Option (Selection F) × Bool)
      → IsWellFormed s
      → IsWellFormed r.0.drr
      → Selects F s r.0.drr r.1
      → KeepsCap F env.cap s r.0.drr r.1
      → (r' : Shared F × Turn F) × (outcome env alive r ≡ some r')
        × IsWellFormed r'.0.drr
        × (r'.0.drr.max_permits ≡ s.max_permits)
        × KeepsTickets alive env.cap s r'.0.drr r'.1
  outcome-keeps env alive s (sh', none, true) v v' sel cap = ((sh', again), refl, v', sel.1, sel.0)
  outcome-keeps env alive s (sh', none, false) v v' sel cap = ((sh', waits), refl, v', sel.1, sel.0)
  outcome-keeps env alive s (sh', some sel, b) v v' serves cap =
      let same = drr-fetch F env sel.flow_id sh' in
      sent env alive s (fetch F env sel.flow_id sh').0 sel v (rw same v') (rw same serves)
        (rw same cap)

  -- With well-formed queues, a cap of at most the permit budget and a selection that picks one of
  -- its candidates, a turn of the admission loop does not panic and keeps the queues well formed
  -- and the budget. A ticket goes to the head of a queue. If its receiver is there, the ticket is
  -- granted with one permit, the active flows then within the cap; if the receiver is gone, the
  -- ticket is refused and the request has left its queue, with as many permits free as before. A turn
  -- without a ticket leaves the permits as they were.
  pub loop_turn-total :
      (env : Env F) (changed alive : Bool) (sh : Shared F)
      → SelectsOne F env
      → IsWellFormed sh.drr
      → env.cap ≤ sh.drr.max_permits
      → Turned env changed alive sh
  loop_turn-total env changed alive sh sel v c =
      let sh' = gauged env changed sh in
      let same = drr-gauged env changed sh in
      elim (Bool-cases (leb env.cap (sub_u32 sh'.drr.max_permits sh'.drr.available_permits))) [
        | inl full ↦ (
          (sh', waits),
          unfold loop_turn in (rw full refl),
          rw same v,
          ap (λ s. s.max_permits) same,
          ap (λ s. s.available_permits) same,
        )
        | inr room ↦ elim (Bool-cases (is_nil sh'.drr.rr_cursor)) [
          | inl idle ↦ (
            (sh', waits),
            unfold loop_turn in (rw (room, idle) refl),
            rw same v,
            ap (λ s. s.max_permits) same,
            ap (λ s. s.available_permits) same,
          )
          | inr waiting ↦
              let (r, run, v', m, k) = busy sh' same in
              (r, unfold loop_turn in (rw (room, waiting) run), v', m, k)
        ]
      ]
    where
      busy :
          (sh' : Shared F)
          → sh'.drr ≡ sh.drr
          → (r : Shared F × Turn F) × ((try_select F env sh' >>= λ r. outcome env alive r) ≡ some r)
            × IsWellFormed r.0.drr
            × (r.0.drr.max_permits ≡ sh.drr.max_permits)
            × KeepsTickets alive env.cap sh.drr r.0.drr r.1
      busy sh' same =
          let (r, run, v', s, k) = try_select-total F env sh' sel (rw same v) (rw same c) in
          let (r', e, w, m, k') =
            outcome-keeps env alive sh.drr r v v' (rw (← same) s) (rw (← same) k) in
          (r', rw run e, w, m, k')

  pub drr-credit : (id : FlowId) (unix : ℕ) (sh : Shared F) → (credit id unix sh).0.drr ≡ sh.drr
  unfolding credit
  drr-credit id unix sh = refl

  pub drr-guard_new : (id : FlowId) (sh : Shared F) → (guard_new id sh).0.drr ≡ sh.drr
  unfolding guard_new
  drr-guard_new id sh = refl

  pub drr-report_accounting :
      (id : FlowId) (report : AccountingReport) (unix : ℕ) (sh : Shared F)
      → (report_accounting id report unix sh).drr ≡ sh.drr
  unfolding report_accounting
  drr-report_accounting id report unix sh = refl

  drr-consume : (g : Guard) (sh : Shared F) → (consume g sh).0.drr ≡ sh.drr
  unfolding consume leave
  drr-consume g sh = elim (Bool-cases g.active) [ inl y ↦ rw y refl | inr n ↦ rw n refl ]

  pub drr-admitted :
      (g : Guard) (enter now : ℕ) (sh : Shared F) → (admitted g enter now sh).0.drr ≡ sh.drr
  drr-admitted g enter now sh = unfold admitted in (drr-consume g sh)

  pub drr-drop_guard :
      (g : Guard) (sh : Shared F)
      → ((drop_guard g sh).0.drr ≡ sh.drr)
        ⊎ ((drop_guard g sh).0.drr ≡ cancel_pending g.flow_id g.pending_id sh.drr)
  unfolding drop_guard leave
  drr-drop_guard g sh = elim (Bool-cases g.active) [
    | inl y ↦ inr (rw y refl)
    | inr n ↦ inl (rw n refl)
  ]

  pub cancel_pending-permits :
      (id : FlowId) (p : Option ℕ) (s : DrrState F)
      → ((cancel_pending id p s).available_permits ≡ s.available_permits)
        × ((cancel_pending id p s).max_permits ≡ s.max_permits)
  unfolding cancel_pending
  cancel_pending-permits id p s = ground arith
