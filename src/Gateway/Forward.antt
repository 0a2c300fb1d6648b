-- ===== src/Gateway/Forward.antt =====
-- The proxy's new attempts at a request before any of the answer is shown (src/gateway/proxy.rs):
-- `transient_retry` after a backend error, and the retry of a degenerate answer that is no stream.
-- The backend's replies are parameters.
pub mod Laws
pub mod Degenerate
pub mod Settles
use tinyllb.Prelude.{
  ℕ, zero, suc, Bool, true, false, ◌&&◌, Option, none, some, List, [], ◌∷◌, if◌then◌else◌, ltb, leb,
}
use tinyllb.Prelude.Float.{Float}
use tinyllb.Scheduler.Lifecycle.{World, LifecycleGuard, mark_completed}
use tinyllb.Gateway.Json.{Json}
use tinyllb.Gateway.Classify.{
  LlamacppErrorClass, not_llamacpp, permanent, transient, RetryPolicy, classify_llamacpp_error,
  is_premature_stop, bump_temperature,
}
use tinyllb.Gateway.Backoff.{TransientRetry, transient_backoff}
use tinyllb.Gateway.Stream.{
  Act, Counter, slept, resent, counted, backend_retries_total, backend_retry_exhausted_total,
  premature_stop_detected_total, premature_stop_retries_total, premature_stop_exhausted_total,
  errors_total,
}
use Prim.Native.Nat.{max}

pub data ProxyError : Type 0 where
  network internal too_large timeout : ProxyError
  rejected : ℕ → ProxyError

-- The status that a client gets for it.
unfoldable pub status_code : ProxyError → ℕ
status_code network = 502
status_code internal = 500
status_code too_large = 413
status_code (rejected retry_after) = 429
status_code timeout = 408

-- What comes of sending a request: a response with a success status, one with an error status and
-- its body (none if that cannot be read), or a failure; the flag of a network failure is that of
-- `is_transient_network_error`.
pub data Reply (R : Type 0) : Type 0 where
  success : R → Reply R
  refused : ℕ → Option (List ℕ) → Reply R
  network_failure : Bool → Reply R
  timed_out other_failure : Reply R

-- What a request has done, the newest act first, and its accounting.
pub record Run (F : Float) : Type 0 where
  pub log : List Act
  pub life : World F × LifecycleGuard

pub data TransientRetryOutcome (F : Float) (R : Type 0) : Type 0 where
  succeeded : R → Run F → TransientRetryOutcome F R
  final_response : ℕ → List ℕ → Run F → TransientRetryOutcome F R
  failed : ProxyError → Run F → TransientRetryOutcome F R

-- `StatusCode::is_server_error`
abbrev pub is_server_error : ℕ → Bool
is_server_error status = leb 500 status && ltb status 600

module _ {F : Float} where
  abbrev pub count : Counter → Run F → Run F
  count c s = record s { log = counted c ∷ s.log }

  -- The wait and the request before the k-th reply.
  abbrev pub send_again : TransientRetry → List ℕ → ℕ → Run F → Run F
  send_again policy body k s = record s {
    log = resent body ∷ counted backend_retries_total ∷ slept (transient_backoff k policy) ∷ s.log;
  }

  -- The final response of the backend's error: the request counts as completed.
  unfoldable pub build_error_response :
      {R : Type 0} → ℕ → List ℕ → Run F → TransientRetryOutcome F R
  unfolding mark_completed
  build_error_response status body s =
      let s' = if is_server_error status then count errors_total s else s in
      final_response status body (record s' { life = (s'.life.0, mark_completed s'.life.1) })

module _ {F : Float} (J : Json F) {R : Type 0} (policy : TransientRetry) where
  -- What the k-th reply leads to; none is another round.
  unfoldable pub handle_reply : Reply R → ℕ → Run F → Option (TransientRetryOutcome F R)
  handle_reply (success r) k s = some (succeeded r s)
  handle_reply (refused status none) k s = some (failed network s)
  handle_reply (refused status (some b)) k s = elim (classify_llamacpp_error J b) [
    | transient ↦
        if ltb k policy.max_attempts
        then none
        else some (build_error_response status b (count backend_retry_exhausted_total s))
    | permanent ↦ some (build_error_response status b s)
    | not_llamacpp ↦ some (build_error_response status b s)
  ]
  handle_reply (network_failure is_transient) k s =
      if is_transient && ltb k policy.max_attempts
      then none
      else if is_transient
      then some (failed network (count backend_retry_exhausted_total s))
      else some (failed network s)
  handle_reply timed_out k s = some (failed timeout s)
  handle_reply other_failure k s = some (failed internal s)

  unfoldable pub transient_loop :
      ℕ → (ℕ → Reply R) → List ℕ → ℕ → Run F → Option (TransientRetryOutcome F R)
  transient_loop zero reply body attempt s = none
  transient_loop (suc fuel) reply body attempt s =
      let s' = send_again policy body (suc attempt) s in
      let later = transient_loop fuel reply body (suc attempt) s' in
      elim (handle_reply (reply (suc attempt)) (suc attempt) s') [
        | some outcome ↦ some outcome
        | none ↦ later
      ]

  -- A first attempt is made even with a budget of none, which the caller rules out.
  unfoldable pub transient_retry :
      (ℕ → Reply R) → List ℕ → Run F → Option (TransientRetryOutcome F R)
  transient_retry reply body s = transient_loop (max 1 policy.max_attempts) reply body 0 s
