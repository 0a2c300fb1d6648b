-- ===== src/Scheduler/Drr/Admission/Restores.antt =====
-- An admission that fails leaves the queues as it found them (src/scheduler/drr.rs).
use tinyllb.Prelude.{
  ℕ, ◌<◌, ◌≡◌, ◌≢◌, refl, ◌∙◌, true, not, ◌||◌, none, some, [], ◌∷◌, Option-cases, inl, inr,
  if_elim, bytes_eq, bytes_beq_iff, from_option, arith,
}
use mathlib.Core.Path.{subst}
use tinyllb.Prelude.Words.{u32_max, add_u32, sub_u32}
use tinyllb.Prelude.Float.{Float}
use tinyllb.Prelude.Table.{lookup, lookup-insert}
use tinyllb.Flow.Id.{FlowId}
use tinyllb.Flow.Registry.{Flow}
use tinyllb.Scheduler.Drr.State.{DrrState, Shared}
use tinyllb.Scheduler.Drr.Serve.{IsWellFormed}
use tinyllb.Scheduler.Drr.Turns.{drr-guard_new}
use tinyllb.Scheduler.Backpressure.{BackpressureMode, blocking, fail_fast, hybrid}
use tinyllb.Scheduler.Drr.Admit.{
  guard_new, fail_fast_check, depth_of, Guard, enqueue, cancel_pending, drop_guard, leave,
}
use tinyllb.Scheduler.Drr.Admission.Depths.{
  Deepened, Deepened-depth_of, get_or_create-Deepened, guard_new-Deepened, enqueue-Deepened,
  drop_guard-Deepened,
}
use tinyllb.Scheduler.Drr.Admission.{
  Answer, ticket, sender_gone, dropped, DrrConfig, Passage, Admission, granted, wait_at_gate,
  wait_in_queue, take_answer, admit_blocking, admit_fail_fast, time_out, admit_hybrid, in_mode,
  admit,
}
use tinyllb.Scheduler.Drr.Admission.Cancel.{IsFresh, SameQueues, cancel_pending-enqueue}

module _ {F : Float} where
  -- Every queue, the cursor, the free permits and the depth of every flow are as they were.
  pub record Restores (sh sh' : Shared F) : Type 0 where
    pub queues : SameQueues sh.drr sh'.drr
    pub depth : (j : FlowId) → depth_of sh' j ≡ depth_of sh j

  drr-drop_guard :
      (g : Guard) (sh : Shared F)
      → g.active ≡ true
      → (drop_guard g sh).0.drr ≡ cancel_pending g.flow_id g.pending_id sh.drr
  unfolding drop_guard leave
  drr-drop_guard g sh a = rw a refl

  cancel-unqueued :
      (id : FlowId) (s : DrrState F) → IsWellFormed s → SameQueues s (cancel_pending id none s)
  unfolding cancel_pending
  cancel-unqueued id s v = elim (Option-cases (lookup id s.waiting)) [
    | inl e ↦
        rw (e, cancel_pending) (record { queues = λ j. refl; cursor = refl; available = refl })
    | inr ([], e) ↦ absurd (v.no_empty id e)
    | inr (x ∷ q, e) ↦
        rw (e, cancel_pending)
          (record {
            queues =
                λ j. ground (arith, lookup-insert id j (x ∷ q) s.waiting, e, bytes_beq_iff id j);
            cursor = refl;
            available = refl;
          })
  ]

module _ {F : Float} (threshold : F.Carrier) (c : DrrConfig) (id : FlowId) (p : Passage F)
    (sh : Shared F) (well_formed : IsWellFormed sh.drr)
    (fresh : IsFresh sh.drr.next_pending_id (from_option [] (lookup id sh.drr.waiting)))
    (bound : depth_of sh id < u32_max) where
  -- The request has its guard and counts in its flow's depth.
  record Counts (sh' : Shared F) (g : Guard) : Type 0 where
    drr : sh'.drr ≡ sh.drr
    deepened : Deepened sh.registry id (add_u32 (depth_of sh id) 1) sh'.registry
    flow_id : g.flow_id ≡ id
    active : g.active ≡ true
    unqueued : g.pending_id ≡ none

  depth-drop_guard :
      (sh' : Shared F) (g : Guard)
      → g.flow_id ≡ id
      → g.active ≡ true
      → Deepened sh.registry id (add_u32 (depth_of sh id) 1) sh'.registry
      → (j : FlowId) → depth_of (drop_guard g sh').0 j ≡ depth_of sh j
  depth-drop_guard sh' g i a d j =
      let back : sub_u32 (add_u32 (depth_of sh id) 1) 1 ≡ depth_of sh id = omega (arith, bound) in
      Deepened-depth_of sh (drop_guard g sh').0 id j
        (rw back at (drop_guard-Deepened sh.registry id _ g sh' i a d))

  leaves-gate : (sh' : Shared F) (g : Guard) → Counts sh' g → Restores sh (drop_guard g sh').0
  leaves-gate sh' g k = record {
    queues =
        rw (drr-drop_guard g sh' k.active, k.drr, k.flow_id, k.unqueued)
          (cancel-unqueued id sh.drr well_formed);
    depth = depth-drop_guard sh' g k.flow_id k.active k.deepened;
  }

  leaves-queue :
      (work_unit : F.Carrier) (sh' : Shared F) (g : Guard)
      → Counts sh' g
      → (x : Shared F × Guard)
      → x ≡ (
        (enqueue id p.enter work_unit sh').0,
        record g { pending_id = some sh'.drr.next_pending_id },
      )
      → Restores sh (drop_guard x.1 x.0).0
  leaves-queue work_unit sh' g k x e = rw e (record {
    queues =
        rw
          (
            drr-drop_guard (record g { pending_id = some sh'.drr.next_pending_id })
                (enqueue id p.enter work_unit sh').0 k.active,
            k.flow_id,
          )
          (subst
            (λ s. SameQueues s (
              cancel_pending id (some sh'.drr.next_pending_id)
                (enqueue id p.enter work_unit sh').0.drr))
            k.drr
            (cancel_pending-enqueue id p.enter work_unit sh' (rw k.drr well_formed)
              (rw k.drr fresh)));
    depth =
        depth-drop_guard (enqueue id p.enter work_unit sh').0
          (record g { pending_id = some sh'.drr.next_pending_id }) k.flow_id k.active
          (enqueue-Deepened sh.registry id _ p.enter work_unit sh' k.deepened);
  })

  module _ (alone_at_gate : (s : Shared F) → p.at_gate s ≡ s)
      (alone_at_queue : (s : Shared F) → p.at_queue s ≡ s) where
    -- What holds of an admission that is granted, or leaves everything as it was.
    abbrev Fails : Shared F × Admission → Type 0
    Fails r = r.1 ≢ granted → Restores sh r.0

    wait_at_gate-Counts :
        (flow : Flow F) (sh' : Shared F)
        → sh'.drr ≡ sh.drr
        → Deepened sh.registry id (depth_of sh id) sh'.registry
        → Counts
            (wait_at_gate threshold c id p flow sh').0
            (wait_at_gate threshold c id p flow sh').1
    unfolding wait_at_gate
    wait_at_gate-Counts flow sh' e d = rw (alone_at_gate _) (record {
      drr = drr-guard_new F id sh' ∙ e;
      deepened = guard_new-Deepened sh.registry id _ sh' d;
      flow_id = unfold guard_new in refl;
      active = unfold guard_new in refl;
      unqueued = unfold guard_new in refl;
    })

    wait_in_queue-Restores :
        (work_unit : F.Carrier) (sh' : Shared F) (g : Guard)
        → Counts sh' g
        → (let x = wait_in_queue threshold c id p work_unit sh' g in
            Restores sh (drop_guard x.1 x.0).0)
    unfolding wait_in_queue
    wait_in_queue-Restores work_unit sh' g k =
        leaves-queue work_unit sh' g k (wait_in_queue threshold c id p work_unit sh' g)
          (rw (alone_at_queue (enqueue id p.enter work_unit sh').0) (unfold enqueue in refl))

    take_answer-Fails :
        (a : Answer) (x : Shared F × Guard)
        → Restores sh (drop_guard x.1 x.0).0
        → Fails (take_answer threshold c id p a x)
    unfolding take_answer
    take_answer-Fails ticket (sh', g) r ne = absurd (ne refl)
    take_answer-Fails sender_gone (sh', g) r ne = r
    take_answer-Fails dropped (sh', g) r ne = r

    blocking-Fails :
        (work_unit : F.Carrier) (flow : Flow F) (sh' : Shared F)
        → sh'.drr ≡ sh.drr
        → Deepened sh.registry id (depth_of sh id) sh'.registry
        → Fails (admit_blocking threshold c id p work_unit flow sh')
    unfolding admit_blocking
    blocking-Fails work_unit flow sh' e d =
        let k = wait_at_gate-Counts flow sh' e d in
        let w = wait_at_gate threshold c id p flow sh' in
        if_elim Fails w.2 _ _
          (λ _. take_answer-Fails p.answer _ (wait_in_queue-Restores work_unit w.0 w.1 k))
          (λ _ ne. leaves-gate w.0 w.1 k)

    module _ (mul_f64 : ℕ → F.Carrier → ℕ) where
      hybrid-Fails :
          (work_unit : F.Carrier) (flow : Flow F) (sh' : Shared F)
          → sh'.drr ≡ sh.drr
          → Deepened sh.registry id (depth_of sh id) sh'.registry
          → Fails (admit_hybrid threshold c id p mul_f64 work_unit flow sh')
      unfolding admit_hybrid time_out
      hybrid-Fails work_unit flow sh' e d =
          let k = wait_at_gate-Counts flow sh' e d in
          let w = wait_at_gate threshold c id p flow sh' in
          let r = wait_in_queue-Restores work_unit w.0 w.1 k in
          if_elim Fails (w.2 || not p.gives_up) _ _
            (λ _. if_elim Fails p.timer_first _ _ (λ _ ne. r) (λ _. take_answer-Fails p.answer _ r))
            (λ _ ne. leaves-gate w.0 w.1 k)

      unchanged :
          (sh' : Shared F)
          → sh'.drr ≡ sh.drr
          → Deepened sh.registry id (depth_of sh id) sh'.registry
          → Restores sh sh'
      unchanged sh' e d = record {
        queues = rw e (record { queues = λ j. refl; cursor = refl; available = refl });
        depth = λ j. Deepened-depth_of sh sh' id j d;
      }

      in_mode-Fails :
          (m : BackpressureMode) (work_unit : F.Carrier) (flow : Flow F) (sh' : Shared F)
          → sh'.drr ≡ sh.drr
          → Deepened sh.registry id (depth_of sh id) sh'.registry
          → Fails (in_mode threshold c id p mul_f64 m work_unit flow sh')
      unfolding in_mode admit_fail_fast
      in_mode-Fails blocking work_unit flow sh' e d = blocking-Fails work_unit flow sh' e d
      in_mode-Fails hybrid work_unit flow sh' e d = hybrid-Fails work_unit flow sh' e d
      in_mode-Fails fail_fast work_unit flow sh' e d =
          elim (Option-cases (fail_fast_check F mul_f64 c.max_queue_depth c.retry_after_base sh')) [
            | inl n ↦ rw (n, in_mode, admit_fail_fast) (blocking-Fails work_unit flow sh' e d)
            | inr (x, y) ↦ rw (y, in_mode, admit_fail_fast) (λ ne. unchanged sh' e d)
          ]

      -- With no section of another request between, an admission that gets no ticket, in any mode
      -- and for any reason, leaves every queue, the cursor, the free permits and the depth of every
      -- flow as it found them. The queues are well formed, no entry of the flow's queue has the
      -- request's number, and the flow's depth is below the maximum of a u32.
      pub admit-Restores :
          (work_unit : F.Carrier)
          → (admit threshold c id p mul_f64 work_unit sh).1 ≢ granted
          → Restores sh (admit threshold c id p mul_f64 work_unit sh).0
      unfolding admit
      admit-Restores work_unit =
          in_mode-Fails c.backpressure_mode work_unit _ _ refl (get_or_create-Deepened sh id p.unix)
