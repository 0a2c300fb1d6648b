-- ===== src/Scheduler/Facade/Laws.antt =====
-- The priority under which an arriving request passes the gates (src/scheduler/mod.rs).
use tinyllb.Prelude.{
  ℕ, ◌≡◌, refl, ◌∙◌, Bool, ◌&&◌, some, if◌then◌else◌, ◌==◌, bytes_eq, same_refl, ap, Bool-cases,
  inl, inr,
}
use tinyllb.Prelude.Float.{Float}
use tinyllb.Prelude.Table.{lookup, insert, lookup-insert}
use tinyllb.Flow.Id.{FlowId}
use tinyllb.Flow.Registry.{Flow, get_or_create, put_flow, touched}
use tinyllb.Flow.Cadence.{
  Cadence, CadenceRegistry, priority, arrive, entry, record_arrival, classify_and_apply,
}
use tinyllb.Flow.Cadence.Laws.{classify_and_apply-priority}
use tinyllb.Scheduler.Facade.{Scheduler, arrival}

entry-record_arrival :
    (r : CadenceRegistry) (id : FlowId) (now unix : ℕ) (b : Bool)
    → entry (record_arrival r id now unix b).0 id unix
      ≡ arrive r.policy (entry r id unix) now unix b
unfolding record_arrival entry
entry-record_arrival r id now unix b =
    let c = arrive r.policy (entry r id unix) now unix b in
    let found : lookup id (insert id c r.inner) ≡ some c =
      lookup-insert id id c r.inner ∙ rw (same_refl id) refl in
    at c (record r { inner = insert id c r.inner }) found
  where
    at : (c : Cadence) (q : CadenceRegistry) → lookup id q.inner ≡ some c → entry q id unix ≡ c
    at c q e = rw (e, entry) refl

policy-record_arrival :
    (r : CadenceRegistry) (id : FlowId) (now unix : ℕ) (b : Bool)
    → ((record_arrival r id now unix b).0.policy ≡ r.policy)
      × ((record_arrival r id now unix b).0.classes ≡ r.classes)
unfolding record_arrival
policy-record_arrival r id now unix b = (refl, refl)

module _ {F : Float} where
  -- The priority of a flow after an arrival: the pinned one, or that of its class, which takes the
  -- arrival into account.
  abbrev pub priority_after : Scheduler F → FlowId → ℕ → ℕ → Bool → ℕ
  priority_after s id now unix is_turn_boundary =
      let f = touched s.shared.registry id unix in
      if (f.priority_source == 0) && s.cadence.policy.enabled
      then priority
          (arrive s.cadence.policy (entry s.cadence id unix) now unix is_turn_boundary).state
          s.cadence.classes
      else f.priority

  classified :
      (s : Scheduler F) (id : FlowId) (now unix : ℕ) (b : Bool)
      → (classify_and_apply
          (record_arrival s.cadence id now unix b).0
          (touched s.shared.registry id unix)
          id
          unix).1.priority
        ≡ priority_after s id now unix b
  classified s id now unix b =
      let f = touched s.shared.registry id unix in
      let r = (record_arrival s.cadence id now unix b).0 in
      let (p, c) = policy-record_arrival s.cadence id now unix b in
      ap (λ f. f.priority) (classify_and_apply-priority r f id unix)
      ∙ rw (p, c, entry-record_arrival s.cadence id now unix b)
          (elim (Bool-cases ((f.priority_source == 0) && s.cadence.policy.enabled)) [
            | inl y ↦ rw y refl
            | inr n ↦ rw n refl
          ])

  -- After an arrival the flow is registered with the priority that was pinned or, if none was and
  -- the heuristic is enabled, with that of the class the arrival leaves it in; the gates take the
  -- request for interactive exactly if that is the interactive priority.
  pub lookup-arrival :
      (s : Scheduler F) (id : FlowId) (now unix : ℕ) (b : Bool)
      → (f : Flow F) × (lookup id (arrival id now unix b s).0.shared.registry.flows ≡ some f)
        × (f.priority ≡ priority_after s id now unix b)
        × ((arrival id now unix b s).1 ≡ (priority_after s id now unix b == s.interactive_priority))
  unfolding arrival get_or_create put_flow
  lookup-arrival s id now unix b =
      let f = touched s.shared.registry id unix in
      let r = (record_arrival s.cadence id now unix b).0 in
      let f' = (classify_and_apply r f id unix).1 in
      let e = classified s id now unix b in
      (
        f',
        lookup-insert id id f' (insert id f s.shared.registry.flows) ∙ rw (same_refl id) refl,
        e,
        ap (λ p. p == s.interactive_priority) e,
      )
