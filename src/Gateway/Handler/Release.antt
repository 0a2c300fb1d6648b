-- ===== src/Gateway/Handler/Release.antt =====
-- What the end of an admitted request gives back (src/scheduler/drr.rs, the ticket's drop handler,
-- and src/scheduler/lifecycle.rs, the drop of the guard).
use tinyllb.Prelude.{
  ℕ, ◌≡◌, refl, ◌∙◌, ap, Option, none, some, if◌then◌else◌, bytes_eq, bytes_beq, Bool-cases,
  Option-cases, inl, inr, from_option, bytes_beq_iff, same_refl,
}
use tinyllb.Prelude.Int.{ℤ, pos, ltb_ℤ, ◌-ℤ◌}
use tinyllb.Prelude.Words.{add_u32, sub_u32, add_i64, sub_i64, saturating_sub_i64}
use tinyllb.Prelude.Float.{Float}
use tinyllb.Prelude.Table.{lookup, lookup-insert, insert}
use tinyllb.Flow.Id.{FlowId}
use tinyllb.Flow.Registry.{Flow, dec_active, modify_flow, put_flow, touched}
use tinyllb.Scheduler.Progress.{FlowProgressTracker, unregister}
use tinyllb.Scheduler.Events.{emit, request_events, request_completed, request_cancelled}
use tinyllb.Scheduler.Drr.State.{Shared}
use tinyllb.Scheduler.Drr.Admit.{AccountingReport, drop_ticket, release_permit, report_accounting}
use tinyllb.Scheduler.Lifecycle.{World, LifecycleGuard, report_of, drop_lifecycle}
use tinyllb.Scheduler.Lifecycle.Credit.{
  credit_in, credit_of, restored, lookup-report_accounting, credit_of-drop_lifecycle,
}
use tinyllb.Gateway.Handler.Serve.{Server, shared_of, close}

-- What a flow gets back of the estimate: what was not delivered, and nothing after a normal end at
-- which no token was counted.
abbrev pub refund : LifecycleGuard → ℤ
refund g =
    if g.completed_normally
    then if ltb_ℤ (pos 0) g.delivered_tokens
      then sub_i64 g.estimated_cost g.delivered_tokens
      else pos 0
    else saturating_sub_i64 g.estimated_cost g.delivered_tokens

report_of-refund : (g : LifecycleGuard) → restored (report_of g) ≡ refund g
unfolding report_of
report_of-refund g = elim (Bool-cases g.completed_normally) [
  | inl y ↦ elim (Bool-cases (ltb_ℤ (pos 0) g.delivered_tokens)) [
    | inl u ↦ rw (y, u) refl
    | inr n ↦ rw (y, n) refl
  ]
  | inr n ↦ rw n refl
]

module _ {F : Float} where
  -- A flow after one of its active requests has ended, for a flow that was registered.
  abbrev pub EndsOne : Option (Flow F) → Option (Flow F) → Type 0
  EndsOne none after = Unit
  EndsOne (some f) none = ⊥
  EndsOne (some f) (some f') = f'.active ≡ sub_u32 f.active 1

  -- The end of a request of the flow `id`, whose guard is dropped in the world `w`: one more permit
  -- is free and nothing else of the queues has changed, the flow and the gauge count one active
  -- request less, the flow of the guard gets its refund, and the tracker has lost the request.
  pub record IsReleased (id : FlowId) (w : World F) (g : LifecycleGuard) (s s' : Server F)
      : Type 0 where
    pub permit :
        (shared_of s').drr
        ≡ record (w.shared.drr) { available_permits = add_u32 w.shared.drr.available_permits 1 }
    pub waiting_queue : (shared_of s').waiting_queue ≡ w.shared.waiting_queue
    pub active_flows : (shared_of s').metrics.active_flows ≡ w.shared.metrics.active_flows -ℤ pos 1
    pub active :
        EndsOne (lookup id w.shared.registry.flows) (lookup id (shared_of s').registry.flows)
    pub credit :
        credit_of (shared_of s') g.flow_id ≡ add_i64 (credit_of w.shared g.flow_id) (refund g)
    pub progress : s'.progress ≡ elim w.progress [
      | none ↦ s.progress
      | some t ↦ unregister g.flow_id g.estimated_cost g.delivered_tokens t
    ]

  credit-drop_ticket :
      (id j : FlowId) (sh : Shared F) → credit_of (drop_ticket id sh) j ≡ credit_of sh j
  unfolding drop_ticket release_permit modify_flow dec_active put_flow
  credit-drop_ticket id j sh = elim (Option-cases (lookup id sh.registry.flows)) [
    | inl e ↦ rw (e, drop_ticket, release_permit, modify_flow) refl
    | inr (f, e) ↦ rw (e, drop_ticket, release_permit, modify_flow) (at f e)
  ]
    where
      at :
          (f : Flow F)
          → lookup id sh.registry.flows ≡ some f
          → credit_in (lookup j (insert id (dec_active f) sh.registry.flows)) ≡ credit_of sh j
      at f e = elim (Bool-cases (bytes_beq id j)) [
        | inl y ↦
            let same = (bytes_beq_iff id j).0 y in
            rw (lookup-insert id j (dec_active f) sh.registry.flows, y, ← same, e) refl
        | inr n ↦ rw (lookup-insert id j (dec_active f) sh.registry.flows, n) refl
      ]

  -- A report leaves the active requests of every registered flow as they are.
  active-report_accounting :
      (id j : FlowId) (r : AccountingReport) (unix : ℕ) (sh : Shared F) (f : Flow F)
      → lookup j sh.registry.flows ≡ some f
      → (f' : Flow F) × (lookup j (report_accounting id r unix sh).registry.flows ≡ some f')
        × (f'.active ≡ f.active)
  unfolding touched
  active-report_accounting id j r unix sh f e = elim (Bool-cases (bytes_beq id j)) [
    | inr n ↦ (f, rw (lookup-report_accounting id j r unix sh, n) e, refl)
    | inl y ↦
        let same = (bytes_beq_iff id j).0 y in
        let e' : lookup id sh.registry.flows ≡ some f = rw same e in
        let old = touched sh.registry id unix in
        (
          record old { credit = add_i64 old.credit (restored r) },
          rw (lookup-report_accounting id j r unix sh, y) refl,
          rw (e', touched) refl,
        )
  ]

  -- The ticket of a registered flow takes one off its active requests.
  active-drop_ticket :
      (id : FlowId) (sh : Shared F) (f : Flow F)
      → lookup id sh.registry.flows ≡ some f
      → lookup id (drop_ticket id sh).registry.flows ≡ some (dec_active f)
  unfolding drop_ticket
  active-drop_ticket id sh f e =
      rw (e, drop_ticket, release_permit, modify_flow, put_flow)
        (lookup-insert id id (dec_active f) sh.registry.flows ∙ rw (same_refl id) refl)

  EndsOne-end :
      (id : FlowId) (r : AccountingReport) (g_id : FlowId) (unix : ℕ) (sh : Shared F)
      → EndsOne
          (lookup id sh.registry.flows)
          (lookup id (drop_ticket id (report_accounting g_id r unix sh)).registry.flows)
  unfolding dec_active
  EndsOne-end id r g_id unix sh = elim (Option-cases (lookup id sh.registry.flows)) [
    | inl e ↦ rw e tt
    | inr (f, e) ↦
        let (f', q, a) = active-report_accounting g_id id r unix sh f e in
        rw (e, active-drop_ticket id (report_accounting g_id r unix sh) f' q, dec_active)
          (ap (λ n. sub_u32 n 1) a)
  ]

  pub close-IsReleased :
      (id : FlowId) (unix : ℕ) (s : Server F) (w : World F) (g : LifecycleGuard)
      → IsReleased id w g s (close id unix s (w, g))
  unfolding close drop_lifecycle drop_ticket release_permit report_accounting
  close-IsReleased id unix s w g = record {
    permit = refl;
    waiting_queue = refl;
    active_flows = refl;
    active = EndsOne-end id (report_of g) g.flow_id unix (record (w.shared) {
      metrics =
          emit
            (request_events (if g.completed_normally then request_completed else request_cancelled))
            w.shared.metrics;
    });
    credit =
        credit-drop_ticket id g.flow_id (drop_lifecycle unix w g).shared
        ∙ credit_of-drop_lifecycle unix w g g.flow_id
        ∙ rw (same_refl g.flow_id, report_of-refund g) refl;
    progress =
        elim w.progress
          as (λ (o : Option FlowProgressTracker).
            from_option s.progress (elim o as (λ x. Option FlowProgressTracker) [
              | none ↦ none
              | some t ↦ some (unregister g.flow_id g.estimated_cost g.delivered_tokens t)
            ])
            ≡ (elim o as (λ x. FlowProgressTracker) [
              | none ↦ s.progress
              | some t ↦ unregister g.flow_id g.estimated_cost g.delivered_tokens t
            ])) [ none ↦ refl | some t ↦ refl ];
  }
