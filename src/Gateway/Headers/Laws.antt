-- ===== src/Gateway/Headers/Laws.antt =====
-- The filter of the headers against what HTTP calls a connection's own headers (src/gateway/proxy.rs).
use tinyllb.Prelude.{
  ℕ, suc, ◌≤◌, if◌then◌else◌, ◌≡◌, refl, ◌∙◌, sym, Bool, true, false, not, ap, ◌||◌, Option, none,
  some, List, [], ◌∷◌, ◌++◌, same, bytes_eq, map, arith, Bool-cases, inl, inr, Option-cases,
}
use mathlib.Core.Path.{fun_ext}
use tinyllb.Prelude.Lists.{keep_if}
use tinyllb.Prelude.Text.{bytes, split_at_byte, append_nil}
use tinyllb.Gateway.Classify.{trim_ascii}
use tinyllb.Prelude.Table.{lookup}
use tinyllb.Flow.Identify.{lower}
use tinyllb.Gateway.Headers.{
  HeaderMap, is_among, exclude_headers, connection_names, is_excluded, filter_headers,
}

-- The number of Connection headers.
abbrev pub connection_count : HeaderMap → ℕ
connection_count [] = 0
connection_count ((name, value) ∷ hs) =
    if same name (bytes "connection") then suc (connection_count hs) else connection_count hs

-- Names that are in lower case.
abbrev pub AllLower : List (List ℕ) → Type 0
AllLower [] = Unit
AllLower (n ∷ ns) = (map lower n ≡ n) × AllLower ns

lower-AllLower : (ns : List (List ℕ)) → AllLower ns → map (map lower) ns ≡ ns
lower-AllLower [] h = refl
lower-AllLower (n ∷ ns) h = rw (h.0, lower-AllLower ns h.1) refl

-- The hop-by-hop headers of HTTP (RFC 2616, section 13.5.1).
abbrev pub connection_headers : List (List ℕ)
connection_headers =
    bytes "connection"
    ∷ bytes "keep-alive"
    ∷ bytes "proxy-authenticate"
    ∷ bytes "proxy-authorization"
    ∷ bytes "te"
    ∷ bytes "trailers"
    ∷ bytes "transfer-encoding"
    ∷ bytes "upgrade"
    ∷ []

or_false : (b : Bool) → (b || false) ≡ b
or_false true = refl
or_false false = refl

exclude_headers-host : (name : List ℕ) → is_among name exclude_headers ≡ same (bytes "host") name
exclude_headers-host name = or_false (same (bytes "host") name)

module _ (to_str : List ℕ → Option (List ℕ)) where
  -- The options that a header value lists.
  abbrev listed : List ℕ → List (List ℕ)
  listed value = elim (to_str value) [
    | none ↦ []
    | some text ↦ map trim_ascii (split_at_byte 44 text)
  ]

  -- The options of all Connection headers.
  abbrev pub connection_options : HeaderMap → List (List ℕ)
  connection_options [] = []
  connection_options ((name, value) ∷ hs) =
      if same name (bytes "connection")
      then listed value ++ connection_options hs
      else connection_options hs

  -- The headers that belong to one connection: those of HTTP, Host, which names the server, and the
  -- options of the Connection headers, whose case does not matter.
  abbrev pub is_own : HeaderMap → List ℕ → Bool
  is_own headers name =
      is_among name connection_headers
      || same (bytes "host") name
      || is_among name (map (map lower) (connection_options headers))

  no-options : (hs : HeaderMap) → connection_count hs ≡ 0 → connection_options hs ≡ []
  no-options [] h = refl
  no-options ((name, value) ∷ hs) h = elim (Bool-cases (same name (bytes "connection"))) [
    | inl y ↦ absurd (omega (arith, rw y at h))
    | inr n ↦ rw n (no-options hs (rw n at h))
  ]

  -- The names that the first Connection header lists, if there is one.
  abbrev names_in : Option (List ℕ) → List (List ℕ)
  names_in none = []
  names_in (some value) = listed value

  connection_names-in :
      (hs : HeaderMap) → connection_names to_str hs ≡ names_in (lookup (bytes "connection") hs)
  unfolding connection_names
  connection_names-in hs = elim (Option-cases (lookup (bytes "connection") hs)) [
    | inl e ↦ rw (e, connection_names) refl
    | inr (v, e) ↦ rw (e, connection_names) refl
  ]

  connection_options-names :
      (hs : HeaderMap)
      → connection_count hs ≤ 1
      → connection_options hs ≡ names_in (lookup (bytes "connection") hs)
  unfolding lookup
  connection_options-names [] h = refl
  connection_options-names ((name, value) ∷ hs) h =
      elim (Bool-cases (same name (bytes "connection"))) [
        | inl y ↦
            let none_left : connection_count hs ≡ 0 = omega (arith, rw y at h) in
            rw (y, no-options hs none_left) (append_nil (listed value))
        | inr n ↦ rw n (connection_options-names hs (rw n at h))
      ]

  excluded :
      (headers : HeaderMap) (name : List ℕ)
      → is_excluded to_str headers name
        ≡ is_among name connection_headers
          || same (bytes "host") name
          || is_among name (connection_names to_str headers)
  excluded headers name =
      unfold is_excluded in
      ap
        (λ b.
          is_among name connection_headers || b || is_among name (connection_names to_str headers))
        (exclude_headers-host name)

  -- If there is at most one Connection header, and it lists its options in lower case, then exactly
  -- the hop-by-hop headers of HTTP, Host and the options of that header are dropped, and the others
  -- pass in order.
  pub filter_headers-IsEndToEnd :
      (headers : HeaderMap)
      → connection_count headers ≤ 1
      → AllLower (connection_names to_str headers)
      → filter_headers to_str headers ≡ keep_if (λ h. not (is_own headers h.0)) headers
  unfolding filter_headers is_excluded
  filter_headers-IsEndToEnd headers single lower_case =
      let e : connection_options headers ≡ connection_names to_str headers =
        connection_options-names headers single ∙ sym (connection_names-in headers) in
      rw (e, lower-AllLower (connection_names to_str headers) lower_case)
        (ap (λ test. keep_if (λ h. not (test h.0)) headers) (fun_ext (excluded headers)))
