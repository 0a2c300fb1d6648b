-- ===== src/Gateway/Stream.antt =====
-- The retrying stream (src/gateway/stream.rs, spawn_retry_stream): the frames of the backend go to
-- the client, and a degenerate or failed attempt is replaced by a new request. The backend's reads,
-- its answers to new requests and the client's connection are parameters; what the task does to the
-- outside is a log.
pub mod Loop
pub mod Invariant
pub mod Retries
pub mod Turn
pub mod Laws
use tinyllb.Prelude.{
  ℕ, zero, suc, ◌+◌, Bool, true, false, not, ◌&&◌, ◌||◌, Option, none, some, List, [], ◌∷◌, ◌++◌,
  if◌then◌else◌, ltb, leb, is_some, bytes_eq,
}
use tinyllb.Prelude.Int.{ℤ, pos, ltb_ℤ}
use tinyllb.Prelude.Float.{Float}
use tinyllb.Prelude.Text.{bytes, starts_with, split_at_byte}
use tinyllb.Prelude.Lists.{drop}
use tinyllb.Scheduler.Lifecycle.{World, LifecycleGuard, add_delivered_tokens, record_token}
use tinyllb.Gateway.Json.{Json, get, int_field}
use tinyllb.Gateway.Classify.{
  RetryPolicy, FrameClassification, classify_frame, trim_ascii, is_degenerate_reason,
  bump_temperature,
}
use tinyllb.Gateway.Backoff.{TransientRetry, transient_backoff}

-- One round of the read loop: whether the watchdog has declared a stall, what the stream gives
-- (none at its end or on an error), and whether the deadline has passed by then.
pub record Read : Type 0 where
  pub stalled : Bool
  pub next : Option (List ℕ)
  pub expired : Bool

pub data Counter : Type 0 where
  backend_retries_total backend_retry_exhausted_total premature_stop_detected_total
        premature_stop_retries_total premature_stop_exhausted_total :
      Counter
  tokens_generated_total : ℤ → Counter
  errors_total : Counter

-- What the task does, apart from its accounting. `leftover` is an incomplete frame.
pub data Act : Type 0 where
  frame : List ℕ → Act
  leftover : List ℕ → Act
  notice : ℕ → Act
  failure : Act
  slept : ℕ → Act
  resent : List ℕ → Act
  counted : Counter → Act

module _ (F : Float) where
  -- What the task is given: the policies, the request's body, and the outside: the text that the
  -- client is told of the n-th retry, the answer to the n-th new request (none unless its status is
  -- a success) and whether the n-th send still finds the client.
  pub record Env (J : Json F) : Type 0 where
    pub policy : RetryPolicy F
    pub transient_policy : TransientRetry
    pub forwarded_body : List ℕ
    pub answer : ℕ → Option (List Read)
    pub is_connected : ℕ → Bool

  -- The variables of the task that outlive an attempt; `log` has the newest act first.
  pub record Task : Type 0 where
    pub attempt : ℕ
    pub transient_attempt : ℕ
    pub sends : ℕ
    pub log : List Act
    pub life : World F × LifecycleGuard

pub record Attempt : Type 0 where
  pub saw_content : Bool
  pub saw_tool_calls : Bool
  pub accepted : Bool

-- How an attempt is left: the client is gone, the task panics, a new stream has come, the loop is
-- broken off, or the stream has been accepted.
pub data Exit (F : Float) : Type 0 where
  gone : Task F → Exit F
  panicked : Task F → Exit F
  again : List Read → Task F → Exit F
  failed : Task F → Exit F
  done : Task F → Exit F

pub data Step (F : Float) (A : Type 0) : Type 0 where
  going : A → Step F A
  leaves : Exit F → Step F A

abbrev pub and_then : {F : Float} {A B : Type 0} → Step F A → (A → Step F B) → Step F B
and_then (going x) f = f x
and_then (leaves y) f = leaves y

abbrev pub or_exit : {F : Float} {A : Type 0} → Step F A → (A → Exit F) → Exit F
or_exit (going x) f = f x
or_exit (leaves y) f = y

abbrev pub fresh : Attempt
fresh = record { saw_content = false; saw_tool_calls = false; accepted = false }

module _ {F : Float} where
  abbrev pub act : Act → Task F → Task F
  act x s = record s { log = x ∷ s.log }

  abbrev pub count : Counter → Task F → Task F
  count c s = act (counted c) s

module _ {F : Float} (J : Json F) where
  -- `usage.completion_tokens`, or else `usage.total_tokens`.
  unfoldable pub usage_tokens : J.Value → ℤ
  usage_tokens v = elim (get J (bytes "usage") v) [
    | none ↦ pos 0
    | some u ↦ elim (int_field J (bytes "completion_tokens") u) [
      | some t ↦ t
      | none ↦ elim (int_field J (bytes "total_tokens") u) [ some t ↦ t | none ↦ pos 0 ]
    ]
  ]

  -- The tokens of the first line that has any.
  unfoldable pub line_tokens : List ℕ → ℤ
  unfolding usage_tokens
  line_tokens line =
      let payload =
        if starts_with (bytes "data: ") line
        then drop 6 line
        else if starts_with (bytes "data:") line
        then drop 5 line
        else line in
      elim (J.from_slice (trim_ascii payload)) [ none ↦ pos 0 | some v ↦ usage_tokens v ]

  unfoldable pub first_tokens : List (List ℕ) → ℤ
  unfolding line_tokens
  first_tokens [] = pos 0
  first_tokens (line ∷ lines) =
      let later = first_tokens lines in
      if ltb_ℤ (pos 0) (line_tokens line) then line_tokens line else later

  unfoldable pub completion_tokens_from_frame : List ℕ → ℤ
  unfolding first_tokens
  completion_tokens_from_frame s = first_tokens (split_at_byte 10 s)

  module _ (e : Env F J) where
    -- `tx.send`: an item that finds no client is lost.
    unfoldable pub send : Act → Attempt → Task F → Step F (Attempt × Task F)
    send x a s =
        let s' = record s { sends = suc s.sends } in
        if e.is_connected s.sends then going (a, act x s') else leaves (gone s')

    -- Tokens that the backend reports: counted, and delivered in the sense of the guard.
    unfoldable pub charge : ℤ → Task F → Task F
    unfolding add_delivered_tokens record_token
    charge t s =
        let (w, g) = add_delivered_tokens t (s.life) in
        count (tokens_generated_total t) (record s { life = (record_token w, g) })

    unfoldable pub count_and_forward_frame :
        List ℕ → Bool → Attempt → Task F → Step F (Attempt × Task F)
    unfolding send completion_tokens_from_frame charge
    count_and_forward_frame f has_usage a s =
        let t = completion_tokens_from_frame f in
        let s' = if has_usage && ltb_ℤ (pos 0) t then charge t s else s in send (frame f) a s'

    -- The request's own body again, after a wait.
    unfoldable pub reforward : Task F → Option (List Read) × Task F
    unfolding transient_backoff
    reforward s =
        let n = suc s.transient_attempt in
        let s' = record (count backend_retries_total s) { transient_attempt = n } in
        (
          e.answer (s.attempt + n),
          act (resent e.forwarded_body) (act (slept (transient_backoff n e.transient_policy)) s'),
        )

    unfoldable pub reforward_or_abort : List ℕ → Attempt → Task F → Step F (Attempt × Task F)
    reforward_or_abort f a s =
        let (answer, s') = reforward s in
        elim answer [
          | some reads ↦ leaves (again reads s')
          | none ↦
              and_then (send (frame f) a (count backend_retry_exhausted_total s'))
                (λ x. leaves (failed x.1))
        ]

    unfoldable pub send_bumped : J.Value → Attempt × Task F → Step F (Attempt × Task F)
    send_bumped bumped (a, s) = elim (J.to_vec bumped) [
      | none ↦ leaves (failed (count premature_stop_exhausted_total s))
      | some body ↦ elim (e.answer (s.attempt + s.transient_attempt)) [
        | some reads ↦ leaves (again reads (act (resent body) s))
        | none ↦ leaves (failed (count premature_stop_exhausted_total (act (resent body) s)))
      ]
    ]

    -- The request with a higher temperature. None is the panic of `bump_temperature`.
    unfoldable pub retry_bumped : J.Value → Attempt → Task F → Step F (Attempt × Task F)
    retry_bumped value a s =
        let n = suc s.attempt in
        let s' =
          record (count premature_stop_retries_total (count premature_stop_detected_total s)) {
            attempt = n;
          } in
        elim (bump_temperature J value n e.policy) [
          | none ↦ leaves (panicked s')
          | some bumped ↦ and_then (send (notice n) a s') (send_bumped bumped)
        ]
