-- ===== src/Gateway/Stream/Loop.antt =====
-- The loops of spawn_retry_stream (src/gateway/stream.rs): a frame, the reads of an attempt, its end,
-- and the attempts.
use tinyllb.Prelude.{
  ℕ, zero, suc, ◌+◌, Bool, true, not, ◌&&◌, Option, none, some, List, [], ◌∷◌, if◌then◌else◌, ltb,
  leb, is_some,
}
use tinyllb.Prelude.Float.{Float}
use tinyllb.Scheduler.Lifecycle.{World, LifecycleGuard, mark_completed}
use tinyllb.Gateway.Json.{Json}
use tinyllb.Gateway.Classify.{FrameClassification, classify_frame, is_degenerate_reason}
use tinyllb.Gateway.Frames.{SseFrameParser, feed, finish}
use tinyllb.Gateway.Frames
use tinyllb.Gateway.Stream.{
  Read, frame, leftover, failure, premature_stop_exhausted_total, backend_retry_exhausted_total,
  Env, Task, Attempt, fresh, Exit, gone, panicked, again, failed, done, Step, going, leaves,
  and_then, or_exit, act, count, send, count_and_forward_frame, reforward, reforward_or_abort,
  retry_bumped,
}

pub data Outcome : Type 0 where
  eof deadline stall : Outcome

-- What the whole task comes to.
pub data Ended (F : Float) : Type 0 where
  completed : Task F → Ended F
  aborted : Task F → Ended F
  disconnected : Task F → Ended F
  crashed : Task F → Ended F

-- Neither content nor tool calls have been seen.
abbrev pub is_quiet : Attempt → Bool
is_quiet a = not a.saw_content && not a.saw_tool_calls

abbrev pub note : FrameClassification → Attempt → Attempt
note cls a = record a {
  saw_content = if cls.has_content then true else a.saw_content;
  saw_tool_calls = if cls.has_tool_calls then true else a.saw_tool_calls;
}

module _ {F : Float} (J : Json F) (e : Env F J) where
  abbrev pub can_retry : Bool
  can_retry =
      is_some (J.from_slice e.forwarded_body) && e.policy.enabled && ltb 0 e.policy.max_retries

  abbrev pub can_reforward : Task F → Bool
  can_reforward s =
      ltb 0 e.transient_policy.max_attempts
      && ltb s.transient_attempt e.transient_policy.max_attempts

  -- A terminal frame in an attempt that has not been accepted.
  unfoldable pub terminal : List ℕ → Bool → List ℕ → Attempt → Task F → Step F (Attempt × Task F)
  terminal reason has_usage f a s =
      if is_degenerate_reason reason
        && is_quiet a
        && ltb s.attempt e.policy.max_retries
        && can_retry
      then elim (J.from_slice e.forwarded_body) [
        | some value ↦ retry_bumped J e value a s
        | none ↦ leaves (panicked s)
      ]
      else let s' =
          if is_degenerate_reason reason && is_quiet a && leb e.policy.max_retries s.attempt
          then count premature_stop_exhausted_total s
          else s in
        count_and_forward_frame J e f has_usage (record a { accepted = true }) s'

  -- A frame that is no error to retry, in an attempt that has not been accepted.
  unfoldable pub pending_frame :
      FrameClassification → List ℕ → Attempt → Task F → Step F (Attempt × Task F)
  pending_frame cls f a s = elim (cls.finish_reason) [
    | some reason ↦ terminal reason cls.has_usage f a s
    | none ↦
        if cls.is_done
        then if a.accepted then send J e (frame f) a s else going (a, s)
        else if cls.has_usage
        then if a.accepted then count_and_forward_frame J e f cls.has_usage a s else going (a, s)
        else send J e (frame f) a s
  ]

  unfoldable pub handle_frame : List ℕ → Attempt × Task F → Step F (Attempt × Task F)
  handle_frame f (a, s) =
      let cls = classify_frame J f in
      let a' = note cls a in
      if a.accepted
      then count_and_forward_frame J e f cls.has_usage a s
      else if cls.is_error && is_quiet a' && can_reforward s
      then reforward_or_abort J e f a' s
      else pending_frame cls f a' s

  unfoldable pub handle_frames : List (List ℕ) → Attempt × Task F → Step F (Attempt × Task F)
  handle_frames [] x = going x
  handle_frames (f ∷ fs) x = and_then (handle_frame f x) (λ x'. handle_frames fs x')

  -- The read loop, over what the stream gives; a list that ends is a stream that ends.
  unfoldable pub read_loop :
      List Read
      → SseFrameParser
      → Attempt × Task F
      → Step F (Outcome × SseFrameParser × (Attempt × Task F))
  read_loop [] p x = going (eof, p, x)
  read_loop (r ∷ rs) p x = if r.stalled then going (stall, p, x) else elim (r.next) [
    | none ↦ going (eof, p, x)
    | some chunk ↦
        if r.expired
        then going (deadline, p, x)
        else let (p', frames) = feed chunk p in
          and_then (handle_frames frames x) (λ x'. read_loop rs p' x')
  ]

  -- The incomplete frames that the parser gives at the end.
  unfoldable pub flush : List (List ℕ) → Attempt × Task F → Step F (Attempt × Task F)
  flush [] x = going x
  flush (f ∷ fs) (a, s) = and_then (send J e (leftover f) a s) (λ x. flush fs x)

  abbrev pub reforward_at_end : Option (List Read) × Task F → Exit F
  reforward_at_end (some reads, s) = again reads s
  reforward_at_end (none, s) = failed (count backend_retry_exhausted_total s)

  -- The stream has ended and was not accepted.
  unfoldable pub unaccepted : Outcome → Attempt → Task F → Exit F
  unaccepted deadline a s = failed s
  unaccepted stall a s = failed s
  unaccepted eof a s =
      if not (is_quiet a)
      then failed s
      else if can_reforward s
      then reforward_at_end (reforward J e s)
      else if ltb 0 e.transient_policy.max_attempts
      then failed (count backend_retry_exhausted_total s)
      else failed s

  unfoldable pub conclude : Outcome → Attempt × Task F → Exit F
  conclude outcome (a, s) =
      if a.accepted
      then done (record s { life = (s.life.0, mark_completed s.life.1) })
      else unaccepted outcome a s

  -- After the read loop.
  unfoldable pub finish_attempt : Outcome → SseFrameParser → Attempt × Task F → Exit F
  finish_attempt outcome p x = or_exit (flush (finish p) x) (conclude outcome)

  -- One turn of the retry loop.
  unfoldable pub run_attempt : List Read → Task F → Exit F
  run_attempt reads s =
      or_exit (read_loop reads Frames.new (fresh, s)) (λ y. finish_attempt y.0 y.1 y.2)

  -- After the retry loop: the body of a stream that was not accepted ends with an error.
  unfoldable pub abort : Task F → Ended F
  abort s =
      let s' = record s { sends = suc s.sends } in
      if e.is_connected s.sends then aborted (act failure s') else aborted s'

  unfoldable pub retry_loop : ℕ → List Read → Task F → Option (Ended F)
  retry_loop zero reads s = none
  retry_loop (suc fuel) reads s = elim (run_attempt reads s) [
    | gone s' ↦ some (disconnected s')
    | panicked s' ↦ some (crashed s')
    | again reads' s' ↦ retry_loop fuel reads' s'
    | failed s' ↦ some (abort s')
    | done s' ↦ some (completed s')
  ]

  abbrev pub started : World F × LifecycleGuard → Task F
  started life = record { attempt = 0; transient_attempt = 0; sends = 0; log = []; life = life }

  -- The task, on the reads of the first response. Each turn but the last uses up one attempt of one
  -- of the two budgets.
  unfoldable pub spawn_retry_stream : List Read → World F × LifecycleGuard → Option (Ended F)
  spawn_retry_stream reads life =
      retry_loop (suc (e.policy.max_retries + e.transient_policy.max_attempts)) reads (started life)
