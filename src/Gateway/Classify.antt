-- ===== src/Gateway/Classify.antt =====
-- What the gateway reads from a backend's answer (src/gateway/retry.rs): degenerate turns, the
-- frames of a stream, llama.cpp's errors; and the body of a retry.
use tinyllb.Prelude.{
  ℕ, Bool, true, false, ◌&&◌, ◌||◌, Option, none, some, List, [], ◌∷◌, if◌then◌else◌, ◌==◌, ◌>>=◌,
  is_some, from_option, same, bytes_eq,
}
use tinyllb.Prelude.Int.{ℤ, ltb_ℤ}
use tinyllb.Prelude.Float.{Float}
use tinyllb.Prelude.Float
use tinyllb.Prelude.Text.{bytes, starts_with, split_at_byte}
use tinyllb.Prelude.Lists.{drop, length}
use tinyllb.Gateway.Json.{
  Shape, null, number, string, array, object, Json, get, field, int_field, set_member,
}

pub record RetryPolicy (F : Float) : Type 0 where
  pub enabled : Bool
  pub max_retries : ℕ
  pub temperature_step : F.Carrier
  pub max_temperature : F.Carrier
  pub default_temperature : F.Carrier

pub record FrameClassification : Type 0 where
  pub has_content : Bool
  pub has_tool_calls : Bool
  pub finish_reason : Option (List ℕ)
  pub is_done : Bool
  pub has_usage : Bool
  pub is_error : Bool

pub data LlamacppErrorClass : Type 0 where
  not_llamacpp permanent transient : LlamacppErrorClass

abbrev pub nothing_seen : FrameClassification
nothing_seen = record {
  has_content = false;
  has_tool_calls = false;
  finish_reason = none;
  is_done = false;
  has_usage = false;
  is_error = false;
}

abbrev is_empty {ℓ} : {A : Type ℓ} → List A → Bool
is_empty [] = true
is_empty (x ∷ xs) = false

-- `fr == "stop" || fr == "length"`
abbrev pub is_degenerate_reason : List ℕ → Bool
is_degenerate_reason r = same r (bytes "stop") || same r (bytes "length")

unfoldable pub is_ascii_ws : ℕ → Bool
is_ascii_ws b = (b == 32) || (b == 9) || (b == 13)

unfoldable pub trim_start : List ℕ → List ℕ
unfolding is_ascii_ws
trim_start [] = []
trim_start (b ∷ s) = let rest = trim_start s in if is_ascii_ws b then rest else b ∷ s

unfoldable pub trim_end : List ℕ → List ℕ
unfolding is_ascii_ws
trim_end [] = []
trim_end (b ∷ s) = let rest = trim_end s in if is_ascii_ws b && is_empty rest then [] else b ∷ rest

unfoldable pub trim_ascii : List ℕ → List ℕ
unfolding trim_start trim_end
trim_ascii s = trim_end (trim_start s)

-- A line that is no data line is empty, which no JSON parses from.
unfoldable pub strip_data_prefix : List ℕ → List ℕ
strip_data_prefix line =
    if starts_with (bytes "data: ") line
    then drop 6 line
    else if starts_with (bytes "data:") line
    then drop 5 line
    else []

module _ {F : Float} (J : Json F) where
  unfoldable pub is_premature_stop : J.Value → Bool
  unfolding field
  is_premature_stop body = elim (field J (bytes "choices") body) [
    | some (array (c ∷ cs)) ↦ elim (J.shape c) [ object first ↦ is_empty_stop c | _ ↦ false ]
    | _ ↦ false
  ]
    where
      -- absent, null or an empty string
      lacks_content : Option (Shape J.Value J.Number) → Bool
      lacks_content none = true
      lacks_content (some null) = true
      lacks_content (some (string s)) = is_empty s
      lacks_content (some _) = false

      -- absent, null or an empty array
      lacks_tool_calls : Option (Shape J.Value J.Number) → Bool
      lacks_tool_calls none = true
      lacks_tool_calls (some null) = true
      lacks_tool_calls (some (array a)) = is_empty a
      lacks_tool_calls (some _) = false

      lacks_output : J.Value → Bool
      lacks_output m =
          if lacks_content (field J (bytes "content") m)
          then lacks_tool_calls (field J (bytes "tool_calls") m)
          else false

      is_empty_stop : J.Value → Bool
      is_empty_stop c = elim (field J (bytes "finish_reason") c) [
        | some (string s) ↦
            if is_degenerate_reason s
            then elim (get J (bytes "message") c) [
              | none ↦ false
              | some m ↦ elim (J.shape m) [ object o ↦ lacks_output m | _ ↦ false ]
            ]
            else false
        | _ ↦ false
      ]

  -- `min(base + attempt * step, max_temperature)`, or the default where that is no JSON number.
  unfoldable pub bumped_temperature : J.Value → ℕ → RetryPolicy F → Option J.Number
  bumped_temperature body attempt policy =
      let base : F.Carrier = elim (field J (bytes "temperature") body) [
        | some (number n) ↦
            if J.is_f64 n
            then from_option policy.default_temperature (J.as_f64 n)
            else policy.default_temperature
        | _ ↦ policy.default_temperature
      ] in
      let raised = F.add base (F.mul (F.of_ℕ attempt) policy.temperature_step) in
      elim (J.from_f64 (Float.min F raised policy.max_temperature)) [
        | some n ↦ some n
        | none ↦ J.from_f64 policy.default_temperature
      ]

  -- None is a panic: the body is no object and not null.
  unfoldable pub bump_temperature : J.Value → ℕ → RetryPolicy F → Option J.Value
  unfolding bumped_temperature
  bump_temperature body attempt policy =
      let value : Shape J.Value J.Number = elim (bumped_temperature body attempt policy) [
        | some n ↦ number n
        | none ↦ null
      ] in
      set_member J (bytes "temperature") (J.of_shape value) body

  unfoldable pub classify_delta : J.Value → FrameClassification → FrameClassification
  classify_delta delta r =
      let r' : FrameClassification = elim (field J (bytes "content") delta) [
        | some (string s) ↦ if is_empty s then r else record r { has_content = true }
        | some (array a) ↦ if is_empty a then r else record r { has_content = true }
        | some (object o) ↦ if is_empty o then r else record r { has_content = true }
        | _ ↦ r
      ] in
      elim (field J (bytes "tool_calls") delta) [
        | some (array a) ↦ if is_empty a then r' else record r' { has_tool_calls = true }
        | _ ↦ r'
      ]

  unfoldable pub classify_choice : J.Value → FrameClassification → FrameClassification
  unfolding classify_delta
  classify_choice choice r =
      let r' : FrameClassification = elim (get J (bytes "delta") choice) [
        | some delta ↦ classify_delta delta r
        | none ↦ r
      ] in
      elim (r'.finish_reason) [
        | some reason ↦ r'
        | none ↦ elim (field J (bytes "finish_reason") choice) [
          | some (string s) ↦ record r' { finish_reason = some s }
          | _ ↦ r'
        ]
      ]

  unfoldable pub classify_json : J.Value → FrameClassification → FrameClassification
  unfolding classify_choice
  classify_json v r =
      let r' = if is_some (get J (bytes "error") v) then record r { is_error = true } else r in
      let r'' : FrameClassification = elim (field J (bytes "choices") v) [
        | some (array (first ∷ rest)) ↦ classify_choice first r'
        | _ ↦ r'
      ] in
      elim (field J (bytes "usage") v) [
        | some (object o) ↦ if is_empty o then r'' else record r'' { has_usage = true }
        | _ ↦ r''
      ]

  unfoldable pub classify_line : FrameClassification → List ℕ → FrameClassification
  unfolding classify_json
  classify_line r line =
      let trimmed = trim_ascii (strip_data_prefix line) in
      if starts_with (bytes "[DONE]") trimmed && (length trimmed == 6)
      then record r { is_done = true }
      else elim (J.from_slice trimmed) [ some v ↦ classify_json v r | none ↦ r ]

  unfoldable pub classify_lines : FrameClassification → List (List ℕ) → FrameClassification
  classify_lines r [] = r
  classify_lines r (line ∷ lines) = classify_lines (classify_line r line) lines

  unfoldable pub classify_frame : List ℕ → FrameClassification
  unfolding classify_lines
  classify_frame frame = classify_lines nothing_seen (split_at_byte 10 frame)

  unfoldable pub classify_llamacpp_error : List ℕ → LlamacppErrorClass
  classify_llamacpp_error body = elim (J.from_slice body >>= get J (bytes "error")) [
    | none ↦ not_llamacpp
    | some error ↦ elim (J.shape error) [
      | object o ↦ elim (field J (bytes "type") error) [
        | some (string t) ↦
            if same t (bytes "exceed_context_size_error")
            then by_counts (int_field J (bytes "n_prompt_tokens") error)
                (int_field J (bytes "n_ctx") error)
            else not_llamacpp
        | _ ↦ not_llamacpp
      ]
      | _ ↦ not_llamacpp
    ]
  ]
    where
      by_counts : Option ℤ → Option ℤ → LlamacppErrorClass
      by_counts (some prompt_tokens) (some ctx) =
          if ltb_ℤ prompt_tokens ctx then transient else permanent
      by_counts (some prompt_tokens) none = not_llamacpp
      by_counts none ctx = not_llamacpp
