-- ===== src/Gateway/Metric.antt =====
-- The stream without retries (src/gateway/stream.rs): TokenAccumulator, which looks for token counts
-- in the bytes that pass, and MetricStream around it.
pub mod Laws
use tinyllb.Prelude.{
  ℕ, zero, suc, ◌+◌, Bool, true, false, not, ◌&&◌, ◌||◌, Option, none, some, List, [], ◌∷◌, ◌++◌,
  if◌then◌else◌, ◌==◌, length, drop,
}
use tinyllb.Prelude.Int.{ℤ, pos, ltb_ℤ}
use tinyllb.Prelude.Words.{add_i64}
use tinyllb.Prelude.Float.{Float}
use tinyllb.Prelude.Text.{bytes, starts_with}
use tinyllb.Scheduler.Lifecycle.{
  World, LifecycleGuard, add_delivered_tokens, record_token, mark_completed,
}

pub record TokenAccumulator : Type 0 where
  pub buffer : List ℕ

abbrev pub new : TokenAccumulator
new = record { buffer = [] }

-- "completion_tokens" with its quotes
abbrev pub token_key : List ℕ
token_key = 34 ∷ (bytes "completion_tokens" ++ (34 ∷ []))

-- What follows the first key. The key is drained with all before it.
unfoldable pub after_key : List ℕ → Option (List ℕ)
after_key [] = none
after_key (b ∷ s) =
    let later = after_key s in
    if starts_with token_key (b ∷ s) then some (drop 19 (b ∷ s)) else later

-- What follows the first colon.
unfoldable pub after_colon : List ℕ → Option (List ℕ)
after_colon [] = none
after_colon (b ∷ s) = let later = after_colon s in if b == 58 then some s else later

unfoldable pub skip_blanks : List ℕ → List ℕ
skip_blanks [] = []
skip_blanks (b ∷ s) = let later = skip_blanks s in if (b == 32) || (b == 9) then later else b ∷ s

-- Up to a comma, a brace, a space or a line end, or to the end of the buffer.
unfoldable pub value_text : List ℕ → List ℕ
value_text [] = []
value_text (b ∷ s) =
    let later = value_text s in
    if (b == 44) || (b == 125) || (b == 32) || (b == 10) || (b == 13) then [] else b ∷ later

-- `parse_i64` is `from_utf8`, `trim` and `parse::<i64>`.
module _ (parse_i64 : List ℕ → Option ℤ) where
  -- The count after a key; none if there is none to read.
  unfoldable pub count_after : List ℕ → Option ℤ
  count_after rest = elim (after_colon rest) [
    | none ↦ none
    | some s ↦ elim (skip_blanks s) [ [] ↦ none | b ∷ t ↦ parse_i64 (value_text (b ∷ t)) ]
  ]

  unfoldable pub extract_loop : ℕ → List ℕ → ℤ → List ℕ × ℤ
  extract_loop zero buffer found = (buffer, found)
  extract_loop (suc fuel) buffer found = elim (after_key buffer) [
    | none ↦ (buffer, found)
    | some rest ↦ elim (count_after rest) [
      | none ↦ extract_loop fuel rest found
      | some tokens ↦ extract_loop fuel rest (add_i64 found tokens)
    ]
  ]

  -- A round for each byte is enough: a key takes 19.
  unfoldable pub feed : List ℕ → TokenAccumulator → TokenAccumulator × ℤ
  feed chunk a =
      let buffer = a.buffer ++ chunk in
      let (rest, found) = extract_loop (length buffer) buffer (pos 0) in
      (record { buffer = rest }, found)

-- What the backend's stream gives.
pub data Inner : Type 0 where
  chunk : List ℕ → Inner
  broken ended : Inner

-- What the client gets; `end` is the clean end.
pub data Item : Type 0 where
  data_item : List ℕ → Item
  error_item end : Item

pub record MetricStream (F : Float) : Type 0 where
  pub accumulator : TokenAccumulator
  pub life : World F × LifecycleGuard

module _ {F : Float} (parse_i64 : List ℕ → Option ℤ) where
  -- `expired` is whether there is a deadline and it has passed. The counter of generated tokens is
  -- left out.
  unfoldable pub poll_next : Bool → Inner → MetricStream F → Item × MetricStream F
  poll_next true inner s = (error_item, s)
  poll_next false broken s = (error_item, s)
  poll_next false ended s = (end, record s { life = (s.life.0, mark_completed s.life.1) })
  poll_next false (chunk c) s =
      let (accumulator, tokens) = feed parse_i64 c s.accumulator in
      let (w, g) = add_delivered_tokens tokens (s.life) in
      (
        data_item c,
        record {
          accumulator = accumulator;
          life = if ltb_ℤ (pos 0) tokens then (record_token w, g) else s.life;
        },
      )

  -- A stream up to its first item that is no data.
  unfoldable pub drain : List (Bool × Inner) → MetricStream F → List Item × MetricStream F
  drain [] s = ([], s)
  drain ((expired, inner) ∷ rest) s =
      let (item, s') = poll_next expired inner s in
      let (items, s'') = drain rest s' in
      elim item [
        | data_item c ↦ (data_item c ∷ items, s'')
        | error_item ↦ (error_item ∷ [], s')
        | end ↦ (end ∷ [], s')
      ]
