-- ===== src/Gateway/Forward/Degenerate.antt =====
-- The retry of a degenerate answer that is no stream, and the accounting of the answer that is passed
-- on (src/gateway/proxy.rs, the end of proxy_handler).
use tinyllb.Prelude.{
  ℕ, zero, suc, Bool, true, false, ◌&&◌, Option, none, some, List, ◌∷◌, if◌then◌else◌, ltb, leb,
}
use tinyllb.Prelude.Int.{pos, ltb_ℤ}
use tinyllb.Prelude.Float.{Float}
use tinyllb.Scheduler.Lifecycle.{add_delivered_tokens, mark_completed}
use tinyllb.Gateway.Json.{Json}
use tinyllb.Gateway.Classify.{RetryPolicy, is_premature_stop, bump_temperature}
use tinyllb.Gateway.Stream.{
  resent, premature_stop_detected_total, premature_stop_retries_total,
  premature_stop_exhausted_total, tokens_generated_total,
}
use tinyllb.Gateway.Body.{extract_completion_tokens}
use tinyllb.Gateway.Forward.{Run, count}

-- A retry brings a new answer, or ends the retries, or panics in `bump_temperature`.
pub data Round (F : Float) : Type 0 where
  next : List ℕ → Run F → Round F
  stop : Run F → Round F
  panic : Run F → Round F

-- The answer that is passed on with the number of retries, or a panic.
pub data Settled (F : Float) : Type 0 where
  settled : List ℕ → ℕ → Run F → Settled F
  crashed : Run F → Settled F

module _ {F : Float} (J : Json F) (policy : RetryPolicy F) where
  unfoldable pub is_degenerate : List ℕ → Bool
  is_degenerate body = elim (J.from_slice body) [ none ↦ false | some v ↦ is_premature_stop J v ]

  -- The n-th retry. `reply` is the body of an answer with a success status.
  unfoldable pub retry_round : (ℕ → Option (List ℕ)) → J.Value → ℕ → Run F → Round F
  retry_round reply value n s =
      let s' = count premature_stop_retries_total (count premature_stop_detected_total s) in
      elim (bump_temperature J value n policy) [
        | none ↦ panic s'
        | some v ↦ elim (J.to_vec v) [
          | none ↦ stop s'
          | some b ↦ elim (reply n) [
            | none ↦ stop (record s' { log = resent b ∷ s'.log })
            | some body ↦ next body (record s' { log = resent b ∷ s'.log })
          ]
        ]
      ]

  unfoldable pub retry_rounds :
      ℕ → (ℕ → Option (List ℕ)) → J.Value → List ℕ → ℕ → Run F → Option (Settled F)
  retry_rounds zero reply value body n s = none
  retry_rounds (suc fuel) reply value body n s =
      elim (is_degenerate body && ltb n policy.max_retries) [
        | false ↦ some (settled body n s)
        | true ↦ elim (retry_round reply value (suc n) s) [
          | next body' s' ↦ retry_rounds fuel reply value body' (suc n) s'
          | stop s' ↦ some (settled body (suc n) s')
          | panic s' ↦ some (crashed s')
        ]
      ]

  abbrev pub note_exhausted : Settled F → Settled F
  note_exhausted (crashed s) = crashed s
  note_exhausted (settled body n s) =
      if leb policy.max_retries n && is_degenerate body
      then settled body n (count premature_stop_exhausted_total s)
      else settled body n s

  -- The retries of an answer, on the chat route and with a request that parses.
  unfoldable pub retry_degenerate :
      (ℕ → Option (List ℕ)) → Bool → List ℕ → List ℕ → Run F → Option (Settled F)
  retry_degenerate reply is_chat request body s =
      if policy.enabled && ltb 0 policy.max_retries && is_chat
      then elim (J.from_slice request) [
        | none ↦ some (settled body 0 s)
        | some value ↦ elim (retry_rounds (suc policy.max_retries) reply value body 0 s) [
          | none ↦ none
          | some r ↦ some (note_exhausted r)
        ]
      ]
      else some (settled body 0 s)

  -- The tokens of the answer that is passed on, and the end of the request.
  unfoldable pub account : List ℕ → Run F → Run F
  unfolding add_delivered_tokens mark_completed
  account body s =
      let t = extract_completion_tokens J body in
      let life = if ltb_ℤ (pos 0) t then add_delivered_tokens t (s.life) else s.life in
      let s' = if ltb_ℤ (pos 0) t then count (tokens_generated_total t) s else s in
      record s' { life = (life.0, mark_completed life.1) }
