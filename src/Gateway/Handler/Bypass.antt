-- ===== src/Gateway/Handler/Bypass.antt =====
-- The handler as a whole (src/gateway/proxy.rs): what an admitted request comes to, and a request
-- that is no inference request leaves the server as it was.
use tinyllb.Prelude.{
  ℕ, ◌≡◌, refl, false, Option, none, some, List, inl, inr, Option-cases, if_elim, leb, ltb, ◌⊎◌,
  bytes_eq,
}
use tinyllb.Prelude.Float.{Float}
use tinyllb.Flow.Id.{FlowId}
use tinyllb.Flow.Registry.{Priorities, FlowRegistry}
use tinyllb.Scheduler.Drr.Admission.{DrrConfig}
use mathlib.Core.Path.{subst, sym, ap}
use tinyllb.Prelude.Lists.{length}
use tinyllb.Gateway.Json.{Json}
use tinyllb.Flow.Identify.{resolve}
use tinyllb.Gateway.Body.{is_inference_request, id_slot}
use tinyllb.Gateway.Handler.{
  Sent, answered, unreachable, late, header_text, Collected, collected, over_limit, unreadable,
  take_body, metadata_response, content_length, max_body_size, Outside, Request, Result, ok, err,
  Prepared, outgoing, prepare, read_body, build_backend_url,
}
use tinyllb.Gateway.Handler.Dispatch.{
  Outcome, responded, error_response, errored, retrying, metered, panicked, gone, dispatch,
}
use tinyllb.Gateway.Forward.{ProxyError, network, internal, too_large, timeout}
use tinyllb.Gateway.Handler.Release.{IsReleased, close-IsReleased}
use tinyllb.Gateway.Handler.Accounts.{Accounts, dispatch-Accounts}
use tinyllb.Scheduler.Lifecycle.{World, LifecycleGuard}
use tinyllb.Gateway.Handler.Serve.{
  Server, Meets, shared_of, close, run_for, serve, answer, metadata, proxy_handler,
}

module _ {F : Float} where
  -- No slot is taken for a request that is no inference request.
  id_slot-bypass :
      (id : FlowId) (slot_count : Option ℕ) (r : FlowRegistry F)
      → id_slot false id slot_count r ≡ (r, none)
  unfolding id_slot
  id_slot-bypass id none r = refl
  id_slot-bypass id (some n) r = refl

-- An error that is no rejection.
abbrev pub IsPlainError : ProxyError → Type 0
IsPlainError (ProxyError.rejected n) = ⊥
IsPlainError network = Unit
IsPlainError internal = Unit
IsPlainError too_large = Unit
IsPlainError timeout = Unit

abbrev IsPlain {ℓ} : {A : Type ℓ} → Result A → Type 0
IsPlain (ok a) = Unit
IsPlain (err e) = IsPlainError e

Result-cases {ℓ} :
    {A : Type ℓ} (x : Result A)
    → IsPlain x
    → ((a : A) × (x ≡ ok a)) ⊎ ((e : ProxyError) × (x ≡ err e) × IsPlainError e)
Result-cases (ok a) h = inl (a, refl)
Result-cases (err e) h = inr (e, refl, h)

take_body-IsPlain : (x : Collected) → IsPlain (take_body x)
unfolding take_body
take_body-IsPlain over_limit = tt
take_body-IsPlain unreadable = tt
take_body-IsPlain (collected b) =
    if_elim IsPlain (leb max_body_size (length b)) (err too_large) (ok b) (λ _. tt) (λ _. tt)

module _ (o : Outside) where
  read_body-IsPlain : (req : Request) → IsPlain (read_body o req)
  unfolding read_body
  read_body-IsPlain req = elim (Option-cases (content_length o req.headers)) [
    | inl e ↦ rw (e, read_body) (take_body-IsPlain req.body)
    | inr (size, e) ↦
        rw (e, read_body)
          (if_elim IsPlain (ltb max_body_size size) (err too_large) (take_body req.body) (λ _. tt)
            (λ _. take_body-IsPlain req.body))
  ]

  url-IsPlain : (path : List ℕ) (query : Option (List ℕ)) → IsPlain (build_backend_url o path query)
  unfolding build_backend_url
  url-IsPlain path none = elim (Option-cases (o.join path)) [
    | inl e ↦ rw (e, build_backend_url) tt
    | inr (u, e) ↦ rw (e, build_backend_url) tt
  ]
  url-IsPlain path (some q) = elim (Option-cases (o.join path)) [
    | inl e ↦ rw (e, build_backend_url) tt
    | inr (u, e) ↦ rw (e, build_backend_url) tt
  ]

module _ {F : Float} where
  -- The client is not turned away by the scheduler.
  abbrev pub IsUnrejected : Outcome F → Type 0
  IsUnrejected (errored e) = IsPlainError e
  IsUnrejected (responded r) = Unit
  IsUnrejected (error_response status body) = Unit
  IsUnrejected (retrying status headers e) = Unit
  IsUnrejected (metered status headers items) = Unit
  IsUnrejected panicked = Unit
  IsUnrejected gone = Unit

module _ {F : Float} (J : Json F) (o : Outside) (of_u32 : ℕ → J.Number) (threshold : F.Carrier)
    (mul_f64 : ℕ → F.Carrier → ℕ) (c : DrrConfig) (classes : Priorities) (m : Meets F) where
  -- An admitted request comes to an outcome and is accounted for by it, and at its end the guard and
  -- the ticket are given back.
  abbrev pub IsServed : Prepared F → Server F → Option (Server F × Outcome F) → Type 0
  IsServed p s x =
      (r : Outcome F × (World F × LifecycleGuard)) × (s' : Server F) × (x ≡ some (s', r.0))
      × (dispatch J o m.backend p m.request_id
            (run_for J o of_u32 threshold mul_f64 c classes m p s)
          ≡ some r)
      × Accounts (run_for J o of_u32 threshold mul_f64 c classes m p s).life r
      × IsReleased p.resolved.flow_id r.1.0 r.1.1 s s'

  -- An admitted request comes to an outcome, whatever the backend sends and answers. A response or
  -- the backend's own error completes the request; an error of the proxy, a panic and an aborted
  -- stream leave the accounting as it was; a retrying stream that ends well completes it, and a plain
  -- stream exactly if it ends cleanly. Then one more permit is free, with the queues otherwise as the
  -- request left them, the gauge and the registered flow count one active request less, the flow of
  -- the guard gets back the part of the estimate that was not used, and the tracker has lost the
  -- request.
  pub serve-IsServed :
      (p : Prepared F) (s : Server F)
      → IsServed p s (serve J o of_u32 threshold mul_f64 c classes m p s)
  unfolding serve
  serve-IsServed p s =
      let (r, e, a) =
        dispatch-Accounts J o m.backend p m.request_id
          (run_for J o of_u32 threshold mul_f64 c classes m p s) in
      (
        r,
        close p.resolved.flow_id m.ended s r.1,
        rw (e, serve) refl,
        e,
        a,
        close-IsReleased p.resolved.flow_id m.ended s r.1.0 r.1.1,
      )

  -- The slot allocator and all else is left alone, and the scheduler does not turn the client away.
  abbrev pub Bypasses : Server F → Option (Server F × Outcome F) → Type 0
  Bypasses s x = (r : Outcome F) × (x ≡ some (s, r)) × IsUnrejected r

  -- A prepared request that bypasses the admission, or an error that is no rejection.
  abbrev IsMetadata : Result (Prepared F) → Type 0
  IsMetadata (err e) = IsPlainError e
  IsMetadata (ok p) = p.is_inference ≡ false

  prepared-Bypasses :
      (req : Request) (r : FlowRegistry F) (x : Result (List ℕ))
      → read_body o req ≡ x
      → IsPlain x
      → is_inference_request req.method req.path ≡ false
      → (y : Result (Prepared F)) × (prepare J o of_u32 m.uuid m.slot_count req r ≡ (r, y))
        × IsMetadata y
  unfolding prepare outgoing
  prepared-Bypasses req r (err e) h u n = (err e, rw (h, prepare) refl, u)
  prepared-Bypasses req r (ok body) h u n =
      let resolved = resolve (header_text o req.headers) J m.uuid body in
      let k : id_slot (is_inference_request req.method req.path) resolved.flow_id m.slot_count r
          ≡ (r, none) =
        rw n (id_slot-bypass resolved.flow_id m.slot_count r) in
      elim (Result-cases (build_backend_url o req.path req.query)
        (url-IsPlain o req.path req.query)) [
          | inl (url, q) ↦
              let P = λ (slot : Option ℕ).
                ◌≡◌ {A = FlowRegistry F × Result (Prepared F)}
                  (r, ok (outgoing J o of_u32 req body resolved slot url))
                  (r, ok (outgoing J o of_u32 req body resolved none url)) in
              (
                ok (outgoing J o of_u32 req body resolved none url),
                rw (h, k, q, prepare) (subst P (sym (ap (λ x. x.1) k)) refl),
                n,
              )
          | inr (e, q, v) ↦ (err e, rw (h, k, q, prepare) refl, v)
        ]

  metadata-IsUnrejected :
      (x : Sent)
      → IsUnrejected
          (metadata J o of_u32 threshold mul_f64 c classes m (metadata_response o m.request_id x))
  unfolding metadata_response
  metadata-IsUnrejected unreachable = tt
  metadata-IsUnrejected late = tt
  metadata-IsUnrejected (answered status headers none) = tt
  metadata-IsUnrejected (answered status headers (some body)) = tt

  answer-Bypasses :
      (y : Result (Prepared F)) (s : Server F)
      → IsMetadata y
      → Bypasses s (answer J o of_u32 threshold mul_f64 c classes m y s)
  unfolding answer
  answer-Bypasses (err e) s k = (errored e, refl, k)
  answer-Bypasses (ok p) s k = (
    metadata J o of_u32 threshold mul_f64 c classes m (metadata_response o m.request_id m.sent),
    rw k refl,
    metadata-IsUnrejected m.sent,
  )

  -- A request that is no inference request is answered, never turned away by the scheduler, and
  -- leaves the whole server as it was: the registry, the slots, the queues and the counters.
  pub proxy_handler-bypass :
      (req : Request) (s : Server F)
      → is_inference_request req.method req.path ≡ false
      → Bypasses s (proxy_handler J o of_u32 threshold mul_f64 c classes m req s)
  unfolding proxy_handler answer
  proxy_handler-bypass req s n =
      let (y, q, k) =
        prepared-Bypasses req (shared_of s).registry (read_body o req) refl
          (read_body-IsPlain o req) n in
      rw (q, proxy_handler) (answer-Bypasses y s k)
