-- ===== src/Scheduler/Drr/Admission/Depths.antt =====
-- The depth counters of the flows over an admission (src/scheduler/drr.rs, the guard).
use tinyllb.Prelude.{
  ℕ, ◌≡◌, refl, ◌∙◌, true, false, some, if◌then◌else◌, bytes_eq, bytes_beq, bytes_beq_iff, arith,
  ap, same_refl,
}
use tinyllb.Prelude.Words.{add_u32, sub_u32}
use tinyllb.Prelude.Float.{Float}
use tinyllb.Prelude.Table.{lookup, lookup-insert}
use tinyllb.Flow.Id.{FlowId}
use tinyllb.Flow.Registry.{Flow, FlowRegistry, modify_flow, get_or_create, put_flow, touched}
use tinyllb.Scheduler.Drr.State.{Shared}
use tinyllb.Scheduler.Drr.Admit.{depth_of, Guard, guard_new, enqueue, leave, drop_guard}

module _ {F : Float} where
  lookup-modify_flow :
      (r : FlowRegistry F) (id : FlowId) (g : Flow F → Flow F) (f : Flow F) (j : FlowId)
      → lookup id r.flows ≡ some f
      → lookup j (modify_flow r id g).flows
        ≡ (if bytes_beq id j then some (g f) else lookup j r.flows)
  unfolding modify_flow put_flow
  lookup-modify_flow r id g f j e = rw (e, modify_flow) (lookup-insert id j (g f) r.flows)

  self-modify_flow :
      (r : FlowRegistry F) (id : FlowId) (g : Flow F → Flow F) (f : Flow F)
      → lookup id r.flows ≡ some f
      → lookup id (modify_flow r id g).flows ≡ some (g f)
  self-modify_flow r id g f e = lookup-modify_flow r id g f id e ∙ rw (same_refl id) refl

  -- A registered flow with a depth, and every other flow as in another registry.
  pub record Deepened (r : FlowRegistry F) (id : FlowId) (n : ℕ) (t : FlowRegistry F) : Type 0 where
    pub flow : Flow F
    pub found : lookup id t.flows ≡ some flow
    pub deep : flow.depth ≡ n
    pub others : (j : FlowId) → bytes_beq id j ≡ false → lookup j t.flows ≡ lookup j r.flows

  modify-Deepened :
      (r : FlowRegistry F) (id : FlowId) (n m : ℕ) (t : FlowRegistry F) (g : Flow F → Flow F)
      → ((f : Flow F) → f.depth ≡ n → (g f).depth ≡ m)
      → Deepened r id n t
      → Deepened r id m (modify_flow t id g)
  modify-Deepened r id n m t g h d = record {
    flow = g d.flow;
    found = self-modify_flow t id g d.flow d.found;
    deep = h d.flow d.deep;
    others = λ j ne. lookup-modify_flow t id g d.flow j d.found ∙ rw ne (d.others j ne);
  }

  -- A flow at its own depth again leaves every depth as it was.
  pub Deepened-depth_of :
      (sh sh' : Shared F) (id j : FlowId)
      → Deepened sh.registry id (depth_of sh id) sh'.registry
      → depth_of sh' j ≡ depth_of sh j
  Deepened-depth_of sh sh' id j d = ground (arith, d.found, d.deep, d.others j, bytes_beq_iff id j)

  pub get_or_create-Deepened :
      (sh : Shared F) (id : FlowId) (unix : ℕ)
      → Deepened sh.registry id (depth_of sh id) (get_or_create sh.registry id unix).0
  unfolding get_or_create touched put_flow
  get_or_create-Deepened sh id unix = record {
    flow = touched sh.registry id unix;
    found = lookup-insert id id _ sh.registry.flows ∙ rw (same_refl id) refl;
    deep = ground arith;
    others = λ j ne. lookup-insert id j _ sh.registry.flows ∙ rw ne refl;
  }

  pub guard_new-Deepened :
      (r : FlowRegistry F) (id : FlowId) (n : ℕ) (sh : Shared F)
      → Deepened r id n sh.registry
      → Deepened r id (add_u32 n 1) (guard_new id sh).0.registry
  unfolding guard_new
  guard_new-Deepened r id n sh d =
      modify-Deepened r id n (add_u32 n 1) sh.registry _
        (λ f e. ap (λ m. add_u32 m 1) (ground (arith, d.found, d.deep))) d

  pub enqueue-Deepened :
      (r : FlowRegistry F) (id : FlowId) (n enter : ℕ) (work_unit : F.Carrier) (sh : Shared F)
      → Deepened r id n sh.registry
      → Deepened r id n (enqueue id enter work_unit sh).0.registry
  unfolding enqueue
  enqueue-Deepened r id n enter work_unit sh d = modify-Deepened r id n n sh.registry _ (λ f e. e) d

  pub drop_guard-Deepened :
      (r : FlowRegistry F) (id : FlowId) (n : ℕ) (g : Guard) (sh : Shared F)
      → g.flow_id ≡ id
      → g.active ≡ true
      → Deepened r id n sh.registry
      → Deepened r id (sub_u32 n 1) (drop_guard g sh).0.registry
  unfolding drop_guard leave
  drop_guard-Deepened r id n g sh i a d =
      rw (a, i)
        (modify-Deepened r id (sub_u32 n 1) (sub_u32 n 1) _ _ (λ f e. e)
          (modify-Deepened r id n (sub_u32 n 1) sh.registry _ (λ f e. ap (λ m. sub_u32 m 1) e) d))
