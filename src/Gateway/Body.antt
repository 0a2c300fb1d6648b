-- ===== src/Gateway/Body.antt =====
-- What the proxy reads from a request's body and writes into it (src/gateway/proxy.rs).
pub mod Laws
use tinyllb.Prelude.{
  ℕ, Bool, true, false, not, ◌&&◌, ◌||◌, Option, none, some, List, [], ◌∷◌, if◌then◌else◌, ◌>>=◌,
  from_option, leb, same, bytes_eq,
}
use tinyllb.Flow.Id.{FlowId, is_ephemeral}
use tinyllb.Flow.Registry.{FlowRegistry, assign_slot}
use tinyllb.Prelude.Int.{ℤ, pos}
use tinyllb.Prelude.Float.{Float}
use tinyllb.Prelude.Text.{bytes}
use tinyllb.Prelude.Table.{lookup, insert}
use tinyllb.Gateway.Json.{
  Shape, null, boolean, number, string, array, object, Json, get, field, as_array, as_object,
}
use tinyllb.Gateway.Stream.{usage_tokens}

-- Only POSTs to the two completion routes are queued.
unfoldable pub is_inference_request : List ℕ → List ℕ → Bool
is_inference_request method path =
    same method (bytes "POST")
    && (same path (bytes "/v1/chat/completions") || same path (bytes "/v1/completions"))

-- The slot that an inference request of a named flow is pinned to, if the slot count is known.
unfoldable pub id_slot :
    {F : Float} → Bool → FlowId → Option ℕ → FlowRegistry F → FlowRegistry F × Option ℕ
id_slot is_inference id none r = (r, none)
id_slot is_inference id (some n) r =
    let (r', slot) = assign_slot r id n in
    if is_inference && not (is_ephemeral id) && leb 1 n then (r', some slot) else (r, none)

module _ {F : Float} (J : Json F) where
  -- `v.get(k).and_then(|v| v.as_bool()) == Some(true)`
  unfoldable pub is_true : List ℕ → J.Value → Bool
  is_true k v = elim (field J k v) [ some (boolean b) ↦ b | _ ↦ false ]

  unfoldable pub body_wants_streaming : List ℕ → Bool
  body_wants_streaming [] = false
  body_wants_streaming (b ∷ bs) = elim (J.from_slice (b ∷ bs)) [
    | none ↦ false
    | some v ↦ is_true (bytes "stream") v
  ]

  -- `stream_options.include_usage` is true.
  unfoldable pub asks_usage : J.Value → Bool
  asks_usage v = elim (get J (bytes "stream_options") v) [
    | none ↦ false
    | some o ↦ is_true (bytes "include_usage") o
  ]

  abbrev pub json_true : J.Value
  json_true = J.of_shape (boolean true)

  -- The entry of `stream_options` in the object: options that are no object stay as they are.
  unfoldable pub with_usage : List (List ℕ × J.Value) → List (List ℕ × J.Value)
  with_usage m = elim (lookup (bytes "stream_options") m) [
    | none ↦
        insert (bytes "stream_options")
          (J.of_shape (object ((bytes "include_usage", json_true) ∷ []))) m
    | some o ↦ elim (as_object J o) [
      | some mo ↦
          insert (bytes "stream_options")
            (J.of_shape (object (insert (bytes "include_usage") json_true mo))) m
      | none ↦ m
    ]
  ]

  -- None if there is nothing to change.
  unfoldable pub inject_include_usage : List ℕ → Option (List ℕ)
  inject_include_usage body = elim (J.from_slice body) [
    | none ↦ none
    | some v ↦ elim (as_object J v) [
      | some m ↦
          if not (is_true (bytes "stream") v)
          then none
          else if asks_usage v
          then none
          else J.to_vec (J.of_shape (object (with_usage m)))
      | none ↦ none
    ]
  ]

  -- `of_u32` is `Value::from` on an integer.
  unfoldable pub inject_id_slot : (ℕ → J.Number) → List ℕ → ℕ → Option (List ℕ)
  inject_id_slot of_u32 body slot = elim (J.from_slice body) [
    | none ↦ none
    | some v ↦ elim (as_object J v) [
      | some m ↦
          J.to_vec
            (J.of_shape (object (insert (bytes "id_slot") (J.of_shape (number (of_u32 slot))) m)))
      | none ↦ none
    ]
  ]

  -- The body that is forwarded, with the slot of a pinned flow.
  unfoldable pub forwarded_body : (ℕ → J.Number) → Option ℕ → List ℕ → List ℕ
  forwarded_body of_u32 id_slot body =
      let b = from_option body (inject_include_usage body) in
      elim id_slot [ none ↦ b | some slot ↦ from_option b (inject_id_slot of_u32 b slot) ]

  -- The tokens that the request is charged for in advance.
  unfoldable pub extract_max_tokens : List ℕ → F.Carrier
  extract_max_tokens [] = F.of_ℕ 1024
  extract_max_tokens (b ∷ bs) = elim (J.from_slice (b ∷ bs)) [
    | none ↦ F.of_ℕ 1024
    | some v ↦ elim (field J (bytes "max_tokens") v) [
      | some (number n) ↦ from_option (F.of_ℕ 1024) (J.as_f64 n)
      | _ ↦ F.of_ℕ 1024
    ]
  ]

  abbrev last_of : List J.Value → Option J.Value
  last_of [] = none
  last_of (x ∷ []) = some x
  last_of (x ∷ y ∷ xs) = last_of (y ∷ xs)

  abbrev pub role_of : J.Value → List ℕ
  role_of msg = elim (field J (bytes "role") msg) [ some (string r) ↦ r | _ ↦ [] ]

  unfoldable pub is_turn_boundary_request : List ℕ → Bool
  is_turn_boundary_request [] = true
  is_turn_boundary_request (b ∷ bs) = elim (J.from_slice (b ∷ bs)) [
    | none ↦ true
    | some v ↦ elim (get J (bytes "messages") v >>= as_array J >>= last_of) [
      | none ↦ true
      | some msg ↦
          not (same (role_of msg) (bytes "tool")) && not (same (role_of msg) (bytes "assistant"))
    ]
  ]

  unfoldable pub extract_completion_tokens : List ℕ → ℤ
  extract_completion_tokens body = elim (J.from_slice body) [
    | none ↦ pos 0
    | some v ↦ usage_tokens J v
  ]
