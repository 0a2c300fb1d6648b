-- ===== src/Gateway/Handler/Laws.antt =====
-- What the handler guarantees before a request is admitted (src/gateway/proxy.rs).
use tinyllb.Prelude.{
  ℕ, ◌≤◌, ◌<◌, ◌≡◌, ◌⊎◌, ◌↔◌, refl, Option, none, some, List, [], ◌∷◌, same, bytes_eq,
  bytes_beq_iff, Bool-cases, Option-cases, inl, inr, arith, ltb, leb,
}
use tinyllb.Prelude.Lists.{length}
use tinyllb.Prelude.Float.{Float}
use tinyllb.Prelude.Text.{bytes}
use tinyllb.Prelude.Table.{lookup}
use tinyllb.Flow.Identify.{ResolvedFlow}
use tinyllb.Gateway.Json.{Json}
use tinyllb.Gateway.Body.{forwarded_body}
use tinyllb.Gateway.Headers.{filter_headers, HeaderMap, remove_header}
use tinyllb.Gateway.Handler.{
  max_body_size, Collected, collected, over_limit, unreadable, Request, Outside, ok, content_length,
  take_body, read_body, outgoing,
}

-- The length that the request declares, if any, is within the limit.
abbrev pub DeclaresWithin : Option ℕ → Type 0
DeclaresWithin none = Unit
DeclaresWithin (some size) = size ≤ max_body_size

module _ (o : Outside) where
  take_body-ok :
      (x : Collected) (b : List ℕ)
      → (take_body x ≡ ok b) ↔ ((x ≡ collected b) × (length b < max_body_size))
  unfolding take_body
  take_body-ok over_limit b = (λ e. cc, λ (h : _ × _). cc h.0)
  take_body-ok unreadable b = (λ e. cc, λ (h : _ × _). cc h.0)
  take_body-ok (collected b') b = elim (Bool-cases (leb max_body_size (length b'))) [
    | inl y ↦ rw y (λ e. cc, λ h. ground (arith, h.0, h.1, y))
    | inr n ↦ rw n (λ e. ground (arith, e, n), λ h. ground (arith, h.0))
  ]

  -- A request's body is taken exactly if it can be read, is shorter than 32 MiB and is not declared
  -- longer.
  pub read_body-ok :
      (req : Request) (b : List ℕ)
      → (read_body o req ≡ ok b) ↔ (
          (req.body ≡ collected b)
          × (length b < max_body_size)
          × DeclaresWithin (content_length o req.headers))
  unfolding read_body
  read_body-ok req b = elim (Option-cases (content_length o req.headers)) [
    | inl e ↦
        let t = take_body-ok req.body b in
        rw (e, read_body) (λ h. ((t.0 h).0, (t.0 h).1, tt), λ h. t.1 (h.0, h.1))
    | inr (size, e) ↦ elim (Bool-cases (ltb max_body_size size)) [
      | inl y ↦ rw (e, y, read_body) (λ h. cc, λ h. absurd (ground (arith, h.2, y)))
      | inr n ↦
          let t = take_body-ok req.body b in
          rw (e, n, read_body) (λ h. ((t.0 h).0, (t.0 h).1, ground (arith, n)), λ h. t.1 (h.0, h.1))
    ]
  ]

lookup-remove_header :
    (name : List ℕ) (headers : HeaderMap) → lookup name (remove_header name headers) ≡ none
unfolding lookup
lookup-remove_header name [] = refl
lookup-remove_header name ((n, v) ∷ hs) = elim (Bool-cases (same n name)) [
  | inl y ↦ rw y (lookup-remove_header name hs)
  | inr k ↦ rw (k, k) (lookup-remove_header name hs)
]

-- What is forwarded has the body of the client, or no declared length that could be stale.
pub outgoing-length :
    {F : Float} (J : Json F) (o : Outside) (of_u32 : ℕ → J.Number) (req : Request) (body : List ℕ)
    (resolved : ResolvedFlow) (slot : Option ℕ) (url : List ℕ)
    → (let p = outgoing J o of_u32 req body resolved slot url in
        (p.forwarded_body ≡ body) ⊎ (lookup (bytes "content-length") p.headers ≡ none))
unfolding outgoing
outgoing-length J o of_u32 req body resolved slot url =
    elim (Bool-cases (same (forwarded_body J of_u32 slot body) body)) [
      | inl y ↦ inl ((bytes_beq_iff (forwarded_body J of_u32 slot body) body).0 y)
      | inr k ↦ inr (
          rw k
            (lookup-remove_header (bytes "content-length") (filter_headers o.to_str req.headers)))
    ]
