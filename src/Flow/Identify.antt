-- ===== src/Flow/Identify.antt =====
-- The flow of a request and its explicit priority (src/flow/identify.rs).
use tinyllb.Prelude.{
  ℕ, ◌+◌, ◌≡◌, refl, Bool, true, false, ◌&&◌, Option, none, some, List, [], ◌∷◌, ◌++◌,
  if◌then◌else◌, leb, ◌>>=◌, from_option, same, bytes_eq, map,
}
use tinyllb.Prelude.Float.{Float}
use tinyllb.Prelude.Text.{bytes}
use tinyllb.Flow.Id.{FlowId, ephemeral_prefix}
use tinyllb.Flow.Registry.{PriorityClass}
use tinyllb.Gateway.Json.{string, Json, get, field}
use tinyllb.Gateway.Classify.{trim_ascii}

pub record ResolvedFlow : Type 0 where
  pub flow_id : FlowId
  pub priority_override : Option PriorityClass
  pub unset_override : Bool

-- `to_ascii_lowercase` of a byte
abbrev pub lower : ℕ → ℕ
lower b = if leb 65 b && leb b 90 then b + 32 else b

abbrev pub equals_ignoring_case : List ℕ → List ℕ → Bool
equals_ignoring_case a b = same (map lower a) (map lower b)

unfoldable pub resolve_priority_token : List ℕ → Option PriorityClass
unfolding trim_ascii
resolve_priority_token s =
    let token = map lower (trim_ascii s) in
    if same token (bytes "interactive")
    then some PriorityClass.interactive
    else if same token (bytes "agent")
    then some PriorityClass.agent
    else if same token (bytes "background")
    then some PriorityClass.background
    else none

abbrev pub non_empty : List ℕ → Option (List ℕ)
non_empty [] = none
non_empty (b ∷ s) = some (b ∷ s)

abbrev pub or_else {ℓ} : {A : Type ℓ} → Option A → Option A → Option A
or_else none later = later
or_else (some a) later = some a

-- `header` is the text of the first header of a name, if it is visible ASCII. Its whitespace is then
-- spaces and tabs.
module _ (header : List ℕ → Option (List ℕ)) where
  unfoldable pub extract_flow_id_from_header : Option FlowId
  extract_flow_id_from_header = header (bytes "x-llm-flow-id") >>= non_empty

  abbrev pub trimmed : List ℕ → Option (List ℕ)
  trimmed s = non_empty (trim_ascii s)

  -- The first name with a value that is not blank.
  unfoldable pub first_session : List (List ℕ) → Option FlowId
  first_session [] = none
  first_session (name ∷ names) = or_else (header name >>= trimmed) (first_session names)

  unfoldable pub extract_flow_id_from_session_headers : Option FlowId
  unfolding first_session
  extract_flow_id_from_session_headers = first_session (
      bytes "x-claude-code-session-id"
      ∷ bytes "x-session-id"
      ∷ bytes "x-session-affinity"
      ∷ bytes "x-client-request-id"
      ∷ bytes "session_id"
      ∷ [])

  -- The override, and whether an earlier one is to be cleared.
  unfoldable pub parse_priority : Option PriorityClass × Bool
  parse_priority = elim (header (bytes "x-llm-priority") >>= trimmed) [
    | none ↦ (none, false)
    | some val ↦
        if equals_ignoring_case val (bytes "auto")
        then (none, true)
        else (resolve_priority_token val, false)
  ]

  module _ {F : Float} (J : Json F) where
    unfoldable pub extract_flow_id_from_body : List ℕ → Option FlowId
    extract_flow_id_from_body [] = none
    extract_flow_id_from_body (b ∷ bs) = elim (J.from_slice (b ∷ bs) >>= get J (bytes "metadata")) [
      | none ↦ none
      | some metadata ↦ elim (field J (bytes "flow_id") metadata) [
        | some (string s) ↦ non_empty s
        | _ ↦ none
      ]
    ]

    -- `uuid` is the new UUID of a request that names no flow.
    unfoldable pub resolve : List ℕ → List ℕ → ResolvedFlow
    resolve uuid body =
        let named =
          or_else extract_flow_id_from_header
            (or_else extract_flow_id_from_session_headers (extract_flow_id_from_body body)) in
        let (priority_override, unset_override) = parse_priority in
        record {
          flow_id = from_option (ephemeral_prefix ++ uuid) named;
          priority_override = priority_override;
          unset_override = unset_override;
        }

-- An explicit header wins over all else.
pub resolve-header :
    {F : Float} (header : List ℕ → Option (List ℕ)) (J : Json F) (uuid body : List ℕ) (b : ℕ)
    (s : List ℕ)
    → header (bytes "x-llm-flow-id") ≡ some (b ∷ s)
    → (resolve header J uuid body).flow_id ≡ b ∷ s
unfolding resolve extract_flow_id_from_header
resolve-header header J uuid body b s h = rw (h, resolve, extract_flow_id_from_header) refl
