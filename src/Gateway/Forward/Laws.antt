-- ===== src/Gateway/Forward/Laws.antt =====
-- Which reply ends the new attempts of `transient_retry` (src/gateway/proxy.rs).
use tinyllb.Prelude.{
  ℕ, zero, suc, ◌+◌, ◌≤◌, ◌<◌, ◌≡◌, refl, Bool, true, false, ◌&&◌, none, some, List, [], ◌∷◌, ◌++◌,
  leb, if◌then◌else◌, ltb, arith, inl, inr, Bool-cases,
}
use tinyllb.Prelude.Float.{Float}
use tinyllb.Scheduler.Lifecycle.{mark_completed}
use tinyllb.Gateway.Json.{Json}
use tinyllb.Gateway.Classify.{
  LlamacppErrorClass, not_llamacpp, permanent, transient, classify_llamacpp_error,
}
use tinyllb.Gateway.Backoff.{TransientRetry, transient_backoff}
use tinyllb.Gateway.Stream.{
  Act, resent, counted, slept, backend_retries_total, backend_retry_exhausted_total, errors_total,
}
use tinyllb.Gateway.Forward.{
  network, internal, timeout, Reply, success, refused, network_failure, timed_out, other_failure,
  Run, TransientRetryOutcome, succeeded, failed, final_response, count, build_error_response,
  handle_reply, transient_loop, transient_retry,
}
use Prim.Native.Nat.{max}

abbrev pub is_transient_class : LlamacppErrorClass → Bool
is_transient_class transient = true
is_transient_class permanent = false
is_transient_class not_llamacpp = false

-- The acts of k attempts, the newest first: each waits, is counted and sends the same body.
abbrev pub attempts : TransientRetry → List ℕ → ℕ → List Act
attempts policy body zero = []
attempts policy body (suc k) =
    resent body
    ∷ counted backend_retries_total
    ∷ slept (transient_backoff (suc k) policy)
    ∷ attempts policy body k

module _ {F : Float} where
  abbrev pub exhausted : Bool → Run F → Run F
  exhausted t s = if t then count backend_retry_exhausted_total s else s

  abbrev pub run_after : TransientRetry → List ℕ → ℕ → Run F → Run F
  run_after policy body k s = record s { log = attempts policy body k ++ s.log }

  -- The backend's own error for the client: one of status 500 to 599 is counted, and the request
  -- counts as completed.
  abbrev pub error_outcome : {R : Type 0} → ℕ → List ℕ → Run F → TransientRetryOutcome F R
  error_outcome status body s = final_response status body (record {
    log = if leb 500 status && ltb status 600 then counted errors_total ∷ s.log else s.log;
    life = (s.life.0, record (s.life.1) { completed_normally = true });
  })

  build_error_response-outcome :
      {R : Type 0} (status : ℕ) (body : List ℕ) (s : Run F)
      → build_error_response {R = R} status body s ≡ error_outcome status body s
  unfolding build_error_response mark_completed
  build_error_response-outcome status body s =
      elim (Bool-cases (leb 500 status && ltb status 600)) [ inl y ↦ rw y refl | inr n ↦ rw n refl ]

module _ {F : Float} (J : Json F) {R : Type 0} (policy : TransientRetry) where
  -- A reply after which the request may be sent again.
  abbrev pub is_retryable : Reply R → Bool
  is_retryable (success r) = false
  is_retryable (refused status none) = false
  is_retryable (refused status (some b)) = is_transient_class (classify_llamacpp_error J b)
  is_retryable (network_failure t) = t
  is_retryable timed_out = false
  is_retryable other_failure = false

  -- The outcome of a reply that is the last.
  abbrev pub verdict : Reply R → Run F → TransientRetryOutcome F R
  verdict (success r) s = succeeded r s
  verdict (refused status none) s = failed network s
  verdict (refused status (some b)) s =
      error_outcome status b (exhausted (is_transient_class (classify_llamacpp_error J b)) s)
  verdict (network_failure t) s = failed network (exhausted t s)
  verdict timed_out s = failed timeout s
  verdict other_failure s = failed internal s

  -- The first k replies can be retried.
  abbrev pub all_retryable : (ℕ → Reply R) → ℕ → Bool
  all_retryable reply zero = true
  all_retryable reply (suc k) = is_retryable (reply (suc k)) && all_retryable reply k

  handle_reply-verdict :
      (x : Reply R) (k : ℕ) (s : Run F)
      → handle_reply J policy x k s
        ≡ (if is_retryable x && ltb k policy.max_attempts then none else some (verdict x s))
  unfolding handle_reply
  handle_reply-verdict (success r) k s = refl
  handle_reply-verdict (refused status none) k s = refl
  handle_reply-verdict (refused status (some b)) k s = ground (
    arith,
    build_error_response-outcome {R = R} status b s,
    build_error_response-outcome {R = R} status b (count backend_retry_exhausted_total s),
  )
  handle_reply-verdict (network_failure true) k s = refl
  handle_reply-verdict (network_failure false) k s = refl
  handle_reply-verdict timed_out k s = refl
  handle_reply-verdict other_failure k s = refl

  -- What a finished run of the loop comes to.
  abbrev pub EndsAt : (ℕ → Reply R) → List ℕ → Run F → TransientRetryOutcome F R → ℕ → Type 0
  EndsAt reply body s o k =
      (k < max 1 policy.max_attempts)
      × (all_retryable reply k ≡ true)
      × ((is_retryable (reply (suc k)) && ltb (suc k) policy.max_attempts) ≡ false)
      × (o ≡ verdict (reply (suc k)) (run_after policy body (suc k) s))

  transient_loop-EndsAt :
      (fuel : ℕ) (reply : ℕ → Reply R) (body : List ℕ) (n : ℕ) (s : Run F)
      → n < max 1 policy.max_attempts
      → max 1 policy.max_attempts ≤ fuel + n
      → all_retryable reply n ≡ true
      → (o : TransientRetryOutcome F R) × (transient_loop J policy fuel reply body n
            (run_after policy body n s)
          ≡ some o)
        × ((k : ℕ) × EndsAt reply body s o k)
  unfolding transient_loop
  transient_loop-EndsAt zero reply body n s l f a = absurd (omega arith)
  transient_loop-EndsAt (suc fuel) reply body n s l f a =
      elim (Bool-cases (is_retryable (reply (suc n)) && ltb (suc n) policy.max_attempts)) [
        | inl y ↦
            let h : handle_reply J policy (reply (suc n)) (suc n) (run_after policy body (suc n) s)
                ≡ none =
              rw (handle_reply-verdict (reply (suc n)) (suc n) (run_after policy body (suc n) s), y)
                refl in
            let (o, p, e) =
              transient_loop-EndsAt fuel reply body (suc n) s (ground (arith, y)) (omega arith)
                (ground (arith, y, a)) in
            (o, rw (h, transient_loop) p, e)
        | inr k ↦
            let h : handle_reply J policy (reply (suc n)) (suc n) (run_after policy body (suc n) s)
                ≡ some (verdict (reply (suc n)) (run_after policy body (suc n) s)) =
              rw (handle_reply-verdict (reply (suc n)) (suc n) (run_after policy body (suc n) s), k)
                refl in
            (
              verdict (reply (suc n)) (run_after policy body (suc n) s),
              rw (h, transient_loop) refl,
              (n, (l, a, k, refl)),
            )
      ]

  -- The loop ends with the verdict on one reply, after at most max_attempts attempts (one, if that is
  -- 0): the log has, for each attempt and in order, its wait, its count and one request with the body
  -- given, and nothing else but what the verdict counts. Every reply before the last could be
  -- retried, and the last could not or no attempt was left. An error response of the backend
  -- completes the request.
  pub transient_retry-EndsAt :
      (reply : ℕ → Reply R) (body : List ℕ) (s : Run F)
      → (o : TransientRetryOutcome F R) × (transient_retry J policy reply body s ≡ some o)
        × ((k : ℕ) × EndsAt reply body s o k)
  unfolding transient_retry
  transient_retry-EndsAt reply body s =
      transient_loop-EndsAt (max 1 policy.max_attempts) reply body 0 s (omega arith) (omega arith)
        refl
