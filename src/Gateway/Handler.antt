-- ===== src/Gateway/Handler.antt =====
-- What the proxy makes of a request before it is admitted (src/gateway/proxy.rs, the first half of
-- proxy_handler): its body, its flow, the request that is sent to the backend; and the requests that
-- bypass the admission.
pub mod Laws
pub mod Dispatch
pub mod Completion
pub mod Accounts
pub mod Serve
pub mod Release
pub mod Bypass
use tinyllb.Prelude.{
  ℕ, ◌*◌, Bool, Option, none, some, List, [], ◌∷◌, if◌then◌else◌, ltb, leb, same, bytes_eq, ◌>>=◌,
}
use tinyllb.Prelude.Lists.{length}
use tinyllb.Prelude.Float.{Float}
use tinyllb.Prelude.Text.{bytes}
use tinyllb.Prelude.Table.{lookup}
use tinyllb.Flow.Id.{FlowId}
use tinyllb.Flow.Registry.{FlowRegistry, PriorityClass}
use tinyllb.Flow.Identify.{ResolvedFlow, resolve}
use tinyllb.Gateway.Json.{Json}
use tinyllb.Gateway.Body.{
  is_inference_request, id_slot, body_wants_streaming, forwarded_body, extract_max_tokens,
  is_turn_boundary_request,
}
use tinyllb.Gateway.Headers.{HeaderMap, filter_headers, remove_header, insert_header}
use tinyllb.Gateway.Forward.{ProxyError, network, internal, too_large, timeout}

-- 32 MiB
abbrev pub max_body_size : ℕ
max_body_size = 32 * (1024 * 1024)

-- What the body of a request comes to under `Limited`: its bytes, more than the limit, or an error.
pub data Collected : Type 0 where
  collected : List ℕ → Collected
  over_limit unreadable : Collected

pub record Request : Type 0 where
  pub method : List ℕ
  pub path : List ℕ
  pub query : Option (List ℕ)
  pub headers : HeaderMap
  pub body : Collected

pub record Response : Type 0 where
  pub status : ℕ
  pub headers : HeaderMap
  pub body : List ℕ

-- The libraries' part: `to_str` of a header value, the parsing and printing of numbers, and the
-- joining of a path to the backend's URL and the setting of its query.
pub record Outside : Type 0 where
  pub to_str : List ℕ → Option (List ℕ)
  pub parse_u64 : List ℕ → Option ℕ
  pub to_string : ℕ → List ℕ
  pub join : List ℕ → Option (List ℕ)
  pub set_query : List ℕ → List ℕ → List ℕ

pub data Result {ℓ} (A : Type ℓ) : Type ℓ where
  ok : A → Result A
  err : ProxyError → Result A

-- The body that is collected.
unfoldable pub take_body : Collected → Result (List ℕ)
take_body over_limit = err too_large
take_body unreadable = err internal
take_body (collected b) = if leb max_body_size (length b) then err too_large else ok b

module _ (o : Outside) where
  -- The text of the first header of a name.
  abbrev pub header_text : HeaderMap → List ℕ → Option (List ℕ)
  header_text headers name = lookup name headers >>= o.to_str

  -- The declared length, if there is one that is a number.
  unfoldable pub content_length : HeaderMap → Option ℕ
  unfolding lookup
  content_length headers = header_text headers (bytes "content-length") >>= o.parse_u64

  unfoldable pub read_body : Request → Result (List ℕ)
  unfolding content_length take_body
  read_body req = elim (content_length req.headers) [
    | none ↦ take_body req.body
    | some size ↦ if ltb max_body_size size then err too_large else take_body req.body
  ]

  unfoldable pub build_backend_url : List ℕ → Option (List ℕ) → Result (List ℕ)
  build_backend_url path query = elim (o.join path) [
    | none ↦ err internal
    | some url ↦ elim query [ none ↦ ok url | some q ↦ ok (o.set_query q url) ]
  ]

-- A response echoes the id of its request.
abbrev pub with_request_id : List ℕ → HeaderMap → HeaderMap
with_request_id request_id headers = insert_header (bytes "x-request-id") request_id headers

-- What the backend answers to a request that bypasses the admission.
pub data Sent : Type 0 where
  answered : ℕ → HeaderMap → Option (List ℕ) → Sent
  unreachable late : Sent

-- Metadata requests are proxied with no admission, lifecycle, retry or accounting.
unfoldable pub metadata_response : Outside → List ℕ → Sent → Result Response
unfolding filter_headers
metadata_response o request_id unreachable = err network
metadata_response o request_id late = err timeout
metadata_response o request_id (answered status headers none) = err network
metadata_response o request_id (answered status headers (some body)) = ok (record {
  status = status;
  headers = with_request_id request_id (filter_headers o.to_str headers);
  body = body;
})

-- A request as it goes to the scheduler and to the backend.
pub record Prepared (F : Float) : Type 0 where
  pub resolved : ResolvedFlow
  pub is_inference : Bool
  pub is_chat : Bool
  pub wants_streaming : Bool
  pub work_unit : F.Carrier
  pub is_turn_boundary : Bool
  pub url : List ℕ
  pub headers : HeaderMap
  pub forwarded_body : List ℕ

module _ {F : Float} (J : Json F) (o : Outside) (of_u32 : ℕ → J.Number) where
  -- The request to the backend; the length of a body that was changed is dropped.
  unfoldable pub outgoing : Request → List ℕ → ResolvedFlow → Option ℕ → List ℕ → Prepared F
  unfolding filter_headers
  outgoing req body resolved slot url =
      let forwarded = forwarded_body J of_u32 slot body in
      let headers = filter_headers o.to_str req.headers in
      record {
        resolved = resolved;
        is_inference = is_inference_request req.method req.path;
        is_chat = same req.path (bytes "/v1/chat/completions");
        wants_streaming = body_wants_streaming J body;
        work_unit = extract_max_tokens J body;
        is_turn_boundary = is_turn_boundary_request J body;
        url = url;
        headers =
            if same forwarded body then headers else remove_header (bytes "content-length") headers;
        forwarded_body = forwarded;
      }

  -- The slot of the flow is taken before the URL is built.
  unfoldable pub prepare :
      List ℕ → Option ℕ → Request → FlowRegistry F → FlowRegistry F × Result (Prepared F)
  unfolding read_body build_backend_url
  prepare uuid slot_count req registry = elim (read_body o req) [
    | err e ↦ (registry, err e)
    | ok body ↦
        let resolved = resolve (header_text o req.headers) J uuid body in
        let (registry', slot) =
          id_slot (is_inference_request req.method req.path) resolved.flow_id slot_count registry in
        (
          registry',
          elim (build_backend_url o req.path req.query) [
            | err e ↦ err e
            | ok url ↦ ok (outgoing req body resolved slot url)
          ],
        )
  ]
