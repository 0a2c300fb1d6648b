-- ===== src/Scheduler/Drr/Admit.antt =====
-- The requests' side of the DRR scheduler (src/scheduler/drr.rs): the guard of a waiting request,
-- its queue entry, its admission, the ticket's release and the accounting. Each function is one
-- critical section, or writes that no other section sees in between.
use tinyllb.Prelude.{
  ℕ, ◌+◌, ◌-◌, ◌%◌, Bool, true, false, not, Option, none, some, List, [], ◌∷◌, ◌++◌, if◌then◌else◌,
  bytes_beq, bytes_eq, ◌==◌, ltb, leb, from_option, ◌>>=◌,
}
use tinyllb.Prelude.Int.{ℤ, pos, pos_part}
use Prim.Native.Nat.{min}
use tinyllb.Prelude.Words.{add_u32, sub_u32, saturating_sub, add_i64, u64_mod}
use tinyllb.Prelude.Float.{Float}
use tinyllb.Prelude.Table.{lookup, insert, remove}
use tinyllb.Flow.Id.{FlowId, metric_label}
use tinyllb.Flow.Registry.{
  get_or_create, put_flow, modify_flow, contains, inc_active, dec_active, sum_depths,
  queue_snapshot, QueueSnapshot,
}
use tinyllb.Scheduler.Backpressure.{BackpressureRejected, fail_fast_retry_after}
use tinyllb.Scheduler.Events.{
  flow_credit, queue_depth, queue_wait_seconds, scheduler_effective_max_flows, emit,
  inc_active_flows, dec_active_flows,
}
use tinyllb.Scheduler.Drr.State.{Pending, DrrState, Shared, Env, Selection, is_nil, without}
use tinyllb.Scheduler.Drr.Select.{fetch, try_select}

-- `DrrAdmitGuard`: its flow, whether it still counts, and its queue entry once it has one.
pub record Guard : Type 0 where
  pub flow_id : FlowId
  pub active : Bool
  pub pending_id : Option ℕ

-- `AccountingReport`
pub data AccountingReport : Type 0 where
  completed : ℤ → ℤ → AccountingReport
  cancelled : ℤ → AccountingReport

-- `remove_from_queue`: the first entry of the flow goes.
unfoldable pub remove_first : FlowId → List FlowId → List FlowId
remove_first id [] = []
remove_first id (j ∷ js) = if bytes_beq j id then js else j ∷ remove_first id js

-- `queue.retain(|p| p.pending_id != my_id)`
unfoldable pub retain_pending : {F : Float} → ℕ → List (Pending F) → List (Pending F)
retain_pending my_id [] = []
retain_pending my_id (p ∷ q) =
    if p.pending_id == my_id then retain_pending my_id q else p ∷ retain_pending my_id q

module _ {F : Float} where
  -- The flow's depth counter, and a write of it with its gauge.
  abbrev pub depth_of : Shared F → FlowId → ℕ
  depth_of sh id = elim (lookup id sh.registry.flows) [ none ↦ 0 | some f ↦ f.depth ]

  unfoldable pub guard_new : FlowId → Shared F → Shared F × Guard
  unfolding modify_flow
  guard_new id sh =
      let val = add_u32 (depth_of sh id) 1 in
      (
        record sh {
          registry = modify_flow sh.registry id (λ f. record f { depth = val });
          waiting_queue = sh.waiting_queue ++ id ∷ [];
          metrics = emit (queue_depth (metric_label id) val) sh.metrics;
        },
        record { flow_id = id; active = true; pending_id = none },
      )

  -- The common part of `consume` and `drop`.
  unfoldable pub leave : FlowId → Shared F → Shared F
  unfolding modify_flow remove_first
  leave id sh = record sh {
    registry = modify_flow sh.registry id (λ f. record f { depth = sub_u32 f.depth 1 });
    waiting_queue = remove_first id sh.waiting_queue;
    metrics = emit (queue_depth (metric_label id) (saturating_sub (depth_of sh id) 1)) sh.metrics;
  }

  unfoldable pub consume : Guard → Shared F → Shared F × Guard
  unfolding leave
  consume g sh = if not g.active then (sh, g) else (leave g.flow_id sh, record g { active = false })

  -- A request enters its flow's queue, and the cursor if its flow was not on it.
  unfoldable pub enqueue : FlowId → ℕ → F.Carrier → Shared F → Shared F × ℕ
  unfolding modify_flow
  enqueue id enter work_unit sh =
      let my_id = sh.drr.next_pending_id in
      let p : Pending F = record {
        pending_id = my_id;
        enqueued_at = enter;
        work_unit = work_unit;
      } in
      let queue = from_option [] (lookup id sh.drr.waiting) ++ p ∷ [] in
      (
        record sh {
          drr = record (sh.drr) {
            next_pending_id = (my_id + 1) % u64_mod;
            waiting = insert id queue sh.drr.waiting;
            rr_cursor =
                if contains id sh.drr.rr_cursor
                then sh.drr.rr_cursor
                else sh.drr.rr_cursor ++ id ∷ [];
          };
          registry = modify_flow sh.registry id (λ f. record f { enqueued_at = some enter });
        },
        my_id,
      )

  -- The request's ticket has come.
  unfoldable pub admitted : Guard → ℕ → ℕ → Shared F → Shared F × Guard
  unfolding consume modify_flow inc_active
  admitted g enter now sh =
      let (sh', g') = consume g sh in
      (
        record sh' {
          metrics = inc_active_flows (emit (queue_wait_seconds (now - enter)) sh'.metrics);
          registry = modify_flow sh'.registry g.flow_id inc_active;
        },
        g',
      )

  -- What a cancelled request's queue comes to.
  unfoldable pub cancel_pending : FlowId → Option ℕ → DrrState F → DrrState F
  unfolding retain_pending
  cancel_pending id pending_id s = elim (lookup id s.waiting) [
    | none ↦ s
    | some q ↦
        let q' : List (Pending F) = elim pending_id [
          | none ↦ q
          | some my_id ↦ retain_pending my_id q
        ] in
        if is_nil q'
        then record s {
          waiting = remove id s.waiting;
          deficit = remove id s.deficit;
          rr_cursor = without id s.rr_cursor;
        }
        else record s { waiting = insert id q' s.waiting }
  ]

  -- Whether the cancellation empties the flow's queue, and so writes the flow's credit gauge.
  abbrev empties : Shared F → FlowId → Option ℕ → Bool
  empties sh id pending_id = elim (lookup id sh.drr.waiting) [
    | none ↦ false
    | some q ↦ is_nil (elim pending_id [ none ↦ q | some my_id ↦ retain_pending my_id q ])
  ]

  -- `Drop` of the guard: a request that was not admitted goes.
  unfoldable pub drop_guard : Guard → Shared F → Shared F × Guard
  unfolding leave cancel_pending modify_flow retain_pending
  drop_guard g sh =
      if not g.active
      then (sh, g)
      else (let sh' = leave g.flow_id sh in
          let credit : ℤ = elim (lookup g.flow_id sh'.registry.flows) [
            | none ↦ pos 0
            | some f ↦ f.credit
          ] in
          (
            record sh' {
              drr = cancel_pending g.flow_id g.pending_id sh'.drr;
              metrics =
                  if empties sh' g.flow_id g.pending_id
                  then emit (flow_credit (metric_label g.flow_id) credit) sh'.metrics
                  else sh'.metrics;
              registry = modify_flow sh'.registry g.flow_id (λ f. record f { enqueued_at = none });
            },
            record g { active = false },
          ))

  -- A permit comes back.
  unfoldable pub release_permit : Shared F → Shared F
  release_permit sh = record sh {
    drr = record (sh.drr) { available_permits = add_u32 sh.drr.available_permits 1 };
  }

  -- The drop handler of a delivered ticket.
  unfoldable pub drop_ticket : FlowId → Shared F → Shared F
  unfolding release_permit modify_flow dec_active
  drop_ticket id sh = release_permit (record sh {
    metrics = dec_active_flows sh.metrics;
    registry = modify_flow sh.registry id dec_active;
  })

  -- `report_accounting`: either report restores its cost.
  unfoldable pub report_accounting : FlowId → AccountingReport → ℕ → Shared F → Shared F
  unfolding get_or_create put_flow
  report_accounting id report unix sh =
      let (registry, f) = get_or_create sh.registry id unix in
      let restore_cost : ℤ = elim report [ completed d c ↦ c | cancelled c ↦ c ] in
      let new_credit = add_i64 f.credit restore_cost in
      record sh {
        registry = put_flow registry id (record f { credit = new_credit });
        metrics = emit (flow_credit (metric_label id) new_credit) sh.metrics;
      }

  -- `credit`
  unfoldable pub credit : FlowId → ℕ → Shared F → Shared F × ℤ
  unfolding get_or_create
  credit id unix sh =
      let (registry, f) = get_or_create sh.registry id unix in
      (record sh { registry = registry }, f.credit)

module _ (F : Float) where
  -- The depth check of fail-fast mode, ahead of a blocking admission.
  unfoldable pub fail_fast_check :
      (ℕ → F.Carrier → ℕ) → ℕ → ℕ → Shared F → Option BackpressureRejected
  unfolding fail_fast_retry_after sum_depths
  fail_fast_check mul_f64 max_queue_depth retry_after_base sh =
      let depth = sum_depths sh.registry in
      if ltb max_queue_depth depth
      then some (record {
        retry_after = fail_fast_retry_after F mul_f64 depth max_queue_depth retry_after_base;
      })
      else none

  -- The rejection of a hybrid request whose wait has run out.
  unfoldable pub hybrid_timeout : (ℕ → F.Carrier → ℕ) → ℕ → ℕ → Shared F → BackpressureRejected
  unfolding fail_fast_retry_after sum_depths
  hybrid_timeout mul_f64 max_queue_depth retry_after_base sh = record {
    retry_after =
        fail_fast_retry_after F mul_f64 (sum_depths sh.registry) max_queue_depth retry_after_base;
  }

  unfoldable pub snapshot : Shared F → QueueSnapshot
  unfolding queue_snapshot sum_depths
  snapshot sh =
      queue_snapshot sh.registry (min (pos_part sh.metrics.active_flows) (u64_mod - 1))
        (sum_depths sh.registry) sh.waiting_queue

  -- The outcome of one turn of the admission loop: it waits for the next wake-up, it goes round
  -- again, or it has sent a ticket, which the receiver takes or has gone.
  pub data Turn : Type 0 where
    waits : Turn
    again : Turn
    granted : Selection F → Turn
    refused : Selection F → Turn

  unfoldable pub loop_turn : Env F → Bool → Bool → Shared F → Option (Shared F × Turn)
  loop_turn env cap_changed receiver_alive sh =
      let sh' =
        if cap_changed
        then record sh { metrics = emit (scheduler_effective_max_flows env.cap) sh.metrics }
        else sh in
      let active = sub_u32 sh'.drr.max_permits sh'.drr.available_permits in
      if leb env.cap active
      then some (sh', waits)
      else if is_nil sh'.drr.rr_cursor
      then some (sh', waits)
      else (try_select F env sh' >>= λ r. (elim (r.1) [
        | none ↦ some (r.0, if r.2 then again else waits)
        | some sel ↦
            let ticketed = (fetch F env sel.flow_id r.0).0 in
            if receiver_alive
            then some (ticketed, granted sel)
            else some (release_permit ticketed, refused sel)
      ]))
