-- ===== src/Gateway/Metric/Laws.antt =====
-- What MetricStream of src/gateway/stream.rs passes on, and what its accumulator keeps.
use tinyllb.Prelude.{
  ℕ, zero, suc, ◌-◌, ◌≤◌, ◌<◌, ◌≡◌, refl, ap, ◌∙◌, Bool, true, false, ◌||◌, Option, none, some,
  List, [], ◌∷◌, length, drop, length-drop, arith, inl, inr, Bool-cases, Option-cases,
}
use tinyllb.Prelude.Int.{ℤ}
use tinyllb.Prelude.Words.{add_i64}
use tinyllb.Prelude.Float.{Float}
use tinyllb.Prelude.Text.{starts_with}
use tinyllb.Scheduler.Lifecycle.{add_delivered_tokens, mark_completed}
use tinyllb.Gateway.Metric.{
  token_key, after_key, count_after, extract_loop, Inner, chunk, broken, ended, Item, data_item,
  error_item, end, MetricStream, poll_next, drain,
}

-- What is left after a key is shorter.
after_key-length : (s rest : List ℕ) → after_key s ≡ some rest → length rest < length s
unfolding after_key
after_key-length [] rest h = cc
after_key-length (b ∷ s) rest h = elim (Bool-cases (starts_with token_key (b ∷ s))) [
  | inl y ↦
      let e : some (drop 19 (b ∷ s)) ≡ some rest = rw (y, after_key) at h in
      let l : length (drop 19 (b ∷ s)) ≡ length (b ∷ s) - 19 = length-drop 19 (b ∷ s) in
      ground (arith, e, l)
  | inr k ↦
      let e : after_key s ≡ some rest = rw (k, after_key) at h in
      omega (arith, after_key-length s rest e)
]

-- A round for each byte is enough: no key is left in the buffer.
pub extract_loop-after_key :
    (parse_i64 : List ℕ → Option ℤ) (fuel : ℕ) (buffer : List ℕ) (found : ℤ)
    → length buffer ≤ fuel
    → after_key (extract_loop parse_i64 fuel buffer found).0 ≡ none
unfolding extract_loop
extract_loop-after_key parse_i64 zero [] found l = unfold after_key in refl
extract_loop-after_key parse_i64 zero (b ∷ s) found l = absurd (omega arith)
extract_loop-after_key parse_i64 (suc fuel) buffer found l =
    elim (Option-cases (after_key buffer)) [
      | inl x ↦ rw (x, extract_loop) x
      | inr (rest, x) ↦
          let d : length rest < length buffer = after_key-length buffer rest x in
          elim (Option-cases (count_after parse_i64 rest)) [
            | inl y ↦
                rw (x, y, extract_loop)
                  (extract_loop-after_key parse_i64 fuel rest found (omega (arith, d)))
            | inr (t, y) ↦
                rw (x, y, extract_loop)
                  (extract_loop-after_key parse_i64 fuel rest (add_i64 found t) (omega (arith, d)))
          ]
    ]

-- Chunks that arrive before the deadline, and what the stream gives after them.
abbrev pub chunks_then : Inner → List (List ℕ) → List (Bool × Inner)
chunks_then last [] = (false, last) ∷ []
chunks_then last (c ∷ cs) = (false, chunk c) ∷ chunks_then last cs

abbrev pub items_then : Item → List (List ℕ) → List Item
items_then last [] = last ∷ []
items_then last (c ∷ cs) = data_item c ∷ items_then last cs

-- The client gets a clean end.
abbrev pub has_end : List Item → Bool
has_end [] = false
has_end (data_item c ∷ items) = has_end items
has_end (error_item ∷ items) = has_end items
has_end (end ∷ items) = true

module _ {F : Float} (parse_i64 : List ℕ → Option ℤ) where
  abbrev pub is_completed : MetricStream F → Bool
  is_completed s = s.life.1.completed_normally

  chunk-is_completed :
      (c : List ℕ) (s : MetricStream F)
      → is_completed (poll_next parse_i64 false (chunk c) s).1 ≡ is_completed s
  unfolding poll_next add_delivered_tokens
  chunk-is_completed c s = ground arith

  -- The client gets the chunks as they are and a clean end, and the request counts as completed.
  pub drain-ended :
      (cs : List (List ℕ)) (s : MetricStream F)
      → ((drain parse_i64 (chunks_then ended cs) s).0 ≡ items_then end cs)
        × (is_completed (drain parse_i64 (chunks_then ended cs) s).1 ≡ true)
  unfolding drain poll_next mark_completed
  drain-ended [] s = (refl, refl)
  drain-ended (c ∷ cs) s =
      let ih = drain-ended cs (poll_next parse_i64 false (chunk c) s).1 in
      (ap (λ t. data_item c ∷ t) ih.0, ih.1)

  -- A stream that breaks ends with an error, and the request counts as completed only if it did.
  pub drain-broken :
      (cs : List (List ℕ)) (s : MetricStream F)
      → ((drain parse_i64 (chunks_then broken cs) s).0 ≡ items_then error_item cs)
        × (is_completed (drain parse_i64 (chunks_then broken cs) s).1 ≡ is_completed s)
  unfolding drain poll_next
  drain-broken [] s = (refl, refl)
  drain-broken (c ∷ cs) s =
      let ih = drain-broken cs (poll_next parse_i64 false (chunk c) s).1 in
      (ap (λ t. data_item c ∷ t) ih.0, ih.1 ∙ chunk-is_completed c s)

  -- A plain stream marks its request completed exactly if it gives the client a clean end.
  pub drain-is_completed :
      (inner : List (Bool × Inner)) (s : MetricStream F)
      → is_completed (drain parse_i64 inner s).1
        ≡ (has_end (drain parse_i64 inner s).0 || is_completed s)
  unfolding drain poll_next mark_completed
  drain-is_completed [] s = refl
  drain-is_completed ((true, x) ∷ rest) s = refl
  drain-is_completed ((false, broken) ∷ rest) s = refl
  drain-is_completed ((false, ended) ∷ rest) s = refl
  drain-is_completed ((false, chunk c) ∷ rest) s =
      drain-is_completed rest (poll_next parse_i64 false (chunk c) s).1
      ∙ ap (λ b. has_end (drain parse_i64 rest (poll_next parse_i64 false (chunk c) s).1).0 || b)
          (chunk-is_completed c s)
