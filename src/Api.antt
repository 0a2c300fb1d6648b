-- ===== src/Api.antt =====
-- The registration of a flow over the admin API (src/api/flows.rs).
use tinyllb.Prelude.{
  ℕ, ◌≡◌, refl, Bool, true, false, not, is_some, Option, none, some, if◌then◌else◌, ltb, arith, inl,
  inr, Bool-cases, Option-cases, bytes_eq,
}
use tinyllb.Prelude.Float.{Float}
use tinyllb.Prelude.Table.{lookup, lookup-insert_self}
use tinyllb.Flow.Registry.{Flow, FlowRegistration, FlowRegistry, register, put_flow}

-- 201 for a new flow, 200 for an update, 400 with the registry as it was. The rest of the response
-- repeats the request.
pub record Response : Type 0 where
  pub status_code : ℕ
  pub priority_source : Option ℕ

module _ {F : Float} where
  -- A body that serde has parsed; `now` is the registry's clock.
  unfoldable pub register_handler :
      FlowRegistration F → ℕ → FlowRegistry F → FlowRegistry F × Response
  register_handler req now r =
      if F.le req.weight F.zero
      then (r, record { status_code = 400; priority_source = none })
      else if ltb 100 req.priority
      then (r, record { status_code = 400; priority_source = none })
      else let (r', is_new) = register r req now in
        (r', record { status_code = if is_new then 201 else 200; priority_source = some 2 })

  unfoldable pub is_accepted : FlowRegistration F → Bool
  is_accepted req = if F.le req.weight F.zero then false else not (ltb 100 req.priority)

  -- A registration that is refused changes nothing.
  pub register_handler-refused :
      (req : FlowRegistration F) (now : ℕ) (r : FlowRegistry F)
      → is_accepted req ≡ false
      → register_handler req now r ≡ (r, record { status_code = 400; priority_source = none })
  unfolding register_handler is_accepted
  register_handler-refused req now r h = ground arith

  -- One that is accepted leaves the flow registered with the weight and the priority asked for, set
  -- by the administrator, and is answered with 201 exactly if the flow is new.
  pub register_handler-accepted :
      (req : FlowRegistration F) (now : ℕ) (r : FlowRegistry F)
      → is_accepted req ≡ true
      → ((f : Flow F) × (lookup req.id (register_handler req now r).0.flows ≡ some f)
          × (f.weight ≡ req.weight)
          × (f.priority ≡ req.priority)
          × (f.priority_source ≡ 2))
        × ((register_handler req now r).1.status_code
            ≡ (if is_some (lookup req.id r.flows) then 200 else 201))
  unfolding register_handler is_accepted register put_flow
  register_handler-accepted req now r h = elim (Bool-cases (F.le req.weight F.zero)) [
    | inl y ↦ let e : false ≡ true = rw (y, is_accepted) at h in cc e
    | inr k ↦ elim (Bool-cases (ltb 100 req.priority)) [
      | inl y ↦ let e : false ≡ true = rw (k, y, is_accepted) at h in cc e
      | inr l ↦ elim (Option-cases (lookup req.id r.flows)) [
        | inl x ↦
            rw (k, l, x, register_handler, register)
              ((_, lookup-insert_self req.id _ r.flows, refl, refl, refl), refl)
        | inr (f, x) ↦
            rw (k, l, x, register_handler, register)
              ((_, lookup-insert_self req.id _ r.flows, refl, refl, refl), refl)
      ]
    ]
  ]
