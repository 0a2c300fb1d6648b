-- ===== src/Scheduler/Drr/Select.antt =====
-- `try_select` of the DRR scheduler (src/scheduler/drr.rs, src/scheduler/starvation.rs), one
-- critical section. `none` is a panic of one of its `expect` calls.
use tinyllb.Prelude.{
  ℕ, ◌+◌, ◌-◌, Bool, true, false, not, ◌||◌, Option, none, some, List, [], ◌∷◌, ◌++◌, if◌then◌else◌,
  bytes_eq, ltb, leb, from_option, ◌>>=◌,
}
use tinyllb.Prelude.Int.{ℤ, pos, ltb_ℤ}
use tinyllb.Prelude.Words.{sub_u32, add_i64, sub_i64}
use tinyllb.Prelude.Float.{Float}
use tinyllb.Prelude.Table.{lookup, insert, remove}
use tinyllb.Flow.Id.{FlowId, metric_label}
use tinyllb.Flow.Registry.{Flow, get_or_create, put_flow}
use tinyllb.Scheduler.Priority.{FlowCandidate}
use tinyllb.Scheduler.Events.{
  Metrics, flow_credit, flow_starvation_seconds, starvation_force_admits, emit,
}
use tinyllb.Scheduler.Drr.State.{
  Pending, DrrState, Shared, Env, Selection, is_nil, without, has_pending,
}

-- How long the flow has been queued, if that is longer than the timeout.
unfoldable pub is_starved : {F : Float} → Flow F → ℕ → ℕ → Option ℕ
is_starved f timeout now = elim f.enqueued_at [
  | none ↦ none
  | some queued_at ↦ let wait = now - queued_at in if ltb timeout wait then some wait else none
]

unfoldable pub record_force_admit : FlowId → ℕ → Metrics → Metrics
record_force_admit id wait m =
    emit starvation_force_admits (emit (flow_starvation_seconds (metric_label id) wait) m)

module _ (F : Float) where
  -- The waiting flows in cursor order whose queue holds a request.
  unfoldable pub with_pending : DrrState F → List FlowId → List FlowId
  with_pending s [] = []
  with_pending s (id ∷ ids) =
      if has_pending s id then id ∷ with_pending s ids else with_pending s ids

  -- `get_or_create`, which refreshes the flow's idle timestamp.
  unfoldable pub fetch : Env F → FlowId → Shared F → Shared F × Flow F
  unfolding get_or_create
  fetch env id sh =
      let (registry, f) = get_or_create sh.registry id env.unix in
      (record sh { registry = registry }, f)

  -- Serves the head of the flow's queue: the queue, the cursor, the credit and the permits.
  unfoldable pub serve : FlowId → Flow F → Shared F → Option (Shared F × Selection F)
  unfolding put_flow
  serve id f sh = elim (lookup id sh.drr.waiting) [
    | none ↦ none
    | some q ↦ elim q [
      | [] ↦ none
      | p ∷ rest ↦
          let new_credit = sub_i64 f.credit (F.to_ℤ p.work_unit) in
          let waiting =
            if is_nil rest then remove id sh.drr.waiting else insert id rest sh.drr.waiting in
          let cursor = without id sh.drr.rr_cursor in
          some (
            record sh {
              drr = record (sh.drr) {
                waiting = waiting;
                rr_cursor = if is_nil rest then cursor else cursor ++ id ∷ [];
                available_permits = sub_u32 sh.drr.available_permits 1;
              };
              registry =
                  put_flow sh.registry id (record f { credit = new_credit; enqueued_at = none });
              metrics = emit (flow_credit (metric_label id) new_credit) sh.metrics;
            },
            record { flow_id = id; pending = p },
          )
    ]
  ]

  -- Phase 1: the first starved flow, with its wait.
  unfoldable pub scan_starved :
      Env F → List FlowId → Shared F → Shared F × Option (FlowId × Flow F × ℕ)
  unfolding fetch is_starved
  scan_starved env [] sh = (sh, none)
  scan_starved env (id ∷ ids) sh =
      let (sh', f) = fetch env id sh in
      let rest = scan_starved env ids sh' in
      elim (is_starved f env.starvation_timeout env.now) [
        | some wait ↦ (sh', some (id, f, wait))
        | none ↦ rest
      ]

  -- Phase 2 at one cursor entry with the given head cost: the deficit grows by the weight.
  unfoldable pub credit_flow :
      Env F → ℕ → FlowId → ℤ → Shared F → Shared F × List (ℕ × FlowId) × Bool
  unfolding fetch
  credit_flow env idx id cost sh =
      let (sh', f) = fetch env id sh in
      let weight = F.to_ℤ f.weight in
      if not (ltb_ℤ (pos 0) weight)
      then (sh', [], false)
      else (let deficit = add_i64 (from_option (pos 0) (lookup id sh'.drr.deficit)) weight in
          (
            record sh' {
              drr = record (sh'.drr) { deficit = insert id deficit sh'.drr.deficit };
              metrics = emit (flow_credit (metric_label id) (add_i64 f.credit deficit)) sh'.metrics;
            },
            (if not (ltb_ℤ deficit cost) then (idx, id) ∷ [] else []),
            true,
          ))

  unfoldable pub credit_entry : Env F → ℕ → FlowId → Shared F → Shared F × List (ℕ × FlowId) × Bool
  unfolding credit_flow
  credit_entry env idx id sh = elim (lookup id sh.drr.waiting) [
    | none ↦ (sh, [], false)
    | some q ↦ elim q [
      | [] ↦ (sh, [], false)
      | p ∷ rest ↦ credit_flow env idx id (F.to_ℤ p.work_unit) sh
    ]
  ]

  unfoldable pub accumulate :
      Env F → ℕ → List FlowId → Shared F → Shared F × List (ℕ × FlowId) × Bool
  unfolding credit_entry
  accumulate env idx [] sh = (sh, [], false)
  accumulate env idx (id ∷ ids) sh =
      let one = credit_entry env idx id sh in
      let rest = accumulate env (idx + 1) ids one.0 in (rest.0, one.1 ++ rest.1, one.2 || rest.2)

  -- Phase 3: the candidates of the eligible flows.
  unfoldable pub candidates :
      Env F → List (ℕ × FlowId) → Shared F → Option (Shared F × List (FlowCandidate F))
  unfolding fetch
  candidates env [] sh = some (sh, [])
  candidates env ((idx, id) ∷ eligible) sh =
      let (sh', f) = fetch env id sh in
      let rest = candidates env eligible sh' in
      elim (lookup id sh.drr.waiting) [
        | none ↦ none
        | some q ↦ elim q [
          | [] ↦ none
          | head ∷ _ ↦ rest >>= λ r. some (
            r.0,
            record {
              flow_id = id;
              priority = f.priority;
              enqueued_at = head.enqueued_at;
              base_score = F.of_ℕ idx;
              kv_footprint = env.footprint id;
            }
                ∷ r.1,
          )
        ]
      ]

  unfoldable pub select_eligible :
      Env F → List (ℕ × FlowId) → Shared F → Option (Shared F × Option (Selection F) × Bool)
  unfolding candidates serve fetch
  select_eligible env eligible sh = do
    built ← candidates env eligible sh
    id ← env.select (built.1)
    let sh' = built.0
    let cleared = record sh' { drr = record (sh'.drr) { deficit = remove id sh'.drr.deficit } }
    let fetched = fetch env id cleared
    served ← serve id fetched.1 fetched.0
    some (served.0, some served.1, true)

  -- No flow is eligible: the cursor turns by one.
  unfoldable pub rotate : List FlowId → List FlowId
  rotate [] = []
  rotate (id ∷ ids) = ids ++ id ∷ []

  unfoldable pub empty_flows : List (FlowId × List (Pending F)) → List FlowId
  empty_flows [] = []
  empty_flows ((id, q) ∷ m) = if is_nil q then id ∷ empty_flows m else empty_flows m

  unfoldable pub drop_flows : List FlowId → DrrState F → DrrState F
  drop_flows [] s = s
  drop_flows (id ∷ ids) s = drop_flows ids (record s {
    waiting = remove id s.waiting;
    deficit = remove id s.deficit;
    rr_cursor = without id s.rr_cursor;
  })

  unfoldable pub turn : DrrState F → DrrState F
  unfolding empty_flows drop_flows
  turn s = drop_flows (empty_flows s.waiting) (record s { rr_cursor = rotate s.rr_cursor })

  -- The selected request, if any, and whether a flow was credited.
  unfoldable pub try_select : Env F → Shared F → Option (Shared F × Option (Selection F) × Bool)
  unfolding with_pending scan_starved record_force_admit serve accumulate select_eligible turn
  try_select env sh =
      let s = sh.drr in
      if leb env.cap (sub_u32 s.max_permits s.available_permits)
      then some (sh, none, false)
      else if is_nil s.rr_cursor
      then some (sh, none, false)
      else (let scanned = scan_starved env (with_pending s s.rr_cursor) sh in
          elim scanned.1 [
            | some (id, f, wait) ↦ do
              let sh' = scanned.0
              served ← serve id f (record sh' { metrics = record_force_admit id wait sh'.metrics })
              some (served.0, some served.1, true)
            | none ↦
                let sh' = scanned.0 in
                let credited = accumulate env 0 sh'.drr.rr_cursor sh' in
                if is_nil credited.1
                then some (record (credited.0) { drr = turn credited.0.drr }, none, credited.2)
                else select_eligible env credited.1 credited.0
          ])
