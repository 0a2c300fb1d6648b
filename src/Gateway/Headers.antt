-- ===== src/Gateway/Headers.antt =====
-- The headers that the proxy passes on (src/gateway/proxy.rs). A header map is the list of its names
-- and values in the order of its iteration; its names are in lower case.
pub mod Laws
use tinyllb.Prelude.{
  ℕ, Bool, false, not, ◌||◌, Option, none, some, List, [], ◌∷◌, ◌++◌, same, bytes_eq, map,
}
use tinyllb.Prelude.Lists.{keep_if}
use tinyllb.Prelude.Text.{bytes, split_at_byte}
use tinyllb.Prelude.Table.{lookup}
use tinyllb.Gateway.Classify.{trim_ascii}

abbrev pub HeaderMap : Type 0
HeaderMap = List (List ℕ × List ℕ)

abbrev pub is_among : List ℕ → List (List ℕ) → Bool
is_among name [] = false
is_among name (n ∷ ns) = same n name || is_among name ns

abbrev pub hop_by_hop : List (List ℕ)
hop_by_hop =
    bytes "connection"
    ∷ bytes "keep-alive"
    ∷ bytes "proxy-authenticate"
    ∷ bytes "proxy-authorization"
    ∷ bytes "te"
    ∷ bytes "trailers"
    ∷ bytes "transfer-encoding"
    ∷ bytes "upgrade"
    ∷ []

abbrev pub exclude_headers : List (List ℕ)
exclude_headers = bytes "host" ∷ []

-- `HeaderMap::remove`
abbrev pub remove_header : List ℕ → HeaderMap → HeaderMap
remove_header name headers = keep_if (λ h. not (same (h.0) name)) headers

-- `to_str` is that of a header's value: none unless it is visible ASCII.
module _ (to_str : List ℕ → Option (List ℕ)) where
  -- The names that the first Connection header lists.
  unfoldable pub connection_names : HeaderMap → List (List ℕ)
  unfolding lookup trim_ascii
  connection_names headers = elim (lookup (bytes "connection") headers) [
    | none ↦ []
    | some conn ↦ elim (to_str conn) [
      | none ↦ []
      | some text ↦ map trim_ascii (split_at_byte 44 text)
    ]
  ]

  unfoldable pub is_excluded : HeaderMap → List ℕ → Bool
  unfolding connection_names
  is_excluded headers name =
      is_among name hop_by_hop
      || is_among name exclude_headers
      || is_among name (connection_names headers)

  unfoldable pub filter_headers : HeaderMap → HeaderMap
  unfolding is_excluded
  filter_headers headers = keep_if (λ h. not (is_excluded headers h.0)) headers

  unfoldable pub filter_response_headers_streaming : HeaderMap → HeaderMap
  unfolding filter_headers
  filter_response_headers_streaming headers =
      remove_header (bytes "content-length") (filter_headers headers)

-- `HeaderMap::insert`: all values of the name go.
abbrev pub insert_header : List ℕ → List ℕ → HeaderMap → HeaderMap
insert_header name value headers =
    keep_if (λ h. not (same (h.0) name)) headers ++ (name, value) ∷ []
