-- ===== src/Gateway/Handler/Accounts.antt =====
-- How an admitted request is accounted for, by what its client gets (src/gateway/proxy.rs).
use tinyllb.Prelude.{
  ℕ, suc, ◌≡◌, refl, Bool, true, false, ◌&&◌, ◌||◌, Option, some, none, List, ltb, inl, inr,
  Bool-cases, if_elim, bytes_eq,
}
use mathlib.Core.Path.{subst}
use tinyllb.Prelude.Float.{Float}
use tinyllb.Scheduler.Lifecycle.{World, LifecycleGuard, mark_completed}
use tinyllb.Gateway.Json.{Json}
use tinyllb.Gateway.Classify.{
  LlamacppErrorClass, not_llamacpp, permanent, transient, classify_llamacpp_error,
}
use tinyllb.Gateway.Backoff.{TransientRetry}
use tinyllb.Gateway.Stream.{errors_total}
use tinyllb.Gateway.Stream.Loop.{Ended, completed, aborted, disconnected, crashed}
use tinyllb.Gateway.Stream.Laws.{spawn_retry_stream-EndsRight, EndsRight}
use tinyllb.Gateway.Metric
use tinyllb.Gateway.Metric.{drain}
use tinyllb.Gateway.Metric.Laws.{has_end, drain-is_completed}
use tinyllb.Gateway.Forward.{
  network, internal, timeout, Reply, success, refused, network_failure, timed_out, other_failure,
  Run, TransientRetryOutcome, succeeded, final_response, failed, count, build_error_response,
  transient_retry,
}
use tinyllb.Gateway.Forward.Laws.{run_after, verdict, transient_retry-EndsAt, exhausted}
use tinyllb.Gateway.Forward.Degenerate
use tinyllb.Gateway.Forward.Degenerate.{Settled, settled, account, retry_degenerate}
use tinyllb.Gateway.Forward.Settles.{retry_degenerate-Settles}
use tinyllb.Gateway.Handler.Completion.{life_of_run, retry_degenerate-life}
use tinyllb.Gateway.Headers.{HeaderMap, filter_response_headers_streaming}
use tinyllb.Gateway.Handler.{Outside, Prepared, with_request_id}
use tinyllb.Gateway.Handler.Dispatch.{
  Whole, whole, broken, late, BackendResponse, Backend, Outcome, responded, error_response, errored,
  retrying, metered, panicked, gone, can_reforward, forward_reply, stream_env, life_of, is_sse,
  respond_stream, finish_whole, respond_whole, respond, conclude, dispatch,
}

module _ {F : Float} where
  abbrev pub is_done : World F × LifecycleGuard → Bool
  is_done life = life.1.completed_normally

  -- The accounting of a retrying stream that began with `life`.
  abbrev pub StreamAccounts : World F × LifecycleGuard → Ended F → World F × LifecycleGuard → Type 0
  StreamAccounts life (completed s) life' = is_done life' ≡ true
  StreamAccounts life (aborted s) life' = life' ≡ life
  StreamAccounts life (disconnected s) life' = Unit
  StreamAccounts life (crashed s) life' = life' ≡ life

  -- A response of the backend completes the request; an error of the proxy, a panic and an aborted
  -- stream leave the accounting as it was; a plain stream completes it exactly if it ends cleanly.
  abbrev pub Accounts : World F × LifecycleGuard → Outcome F × (World F × LifecycleGuard) → Type 0
  Accounts life (responded r, life') = is_done life' ≡ true
  Accounts life (error_response status body, life') = is_done life' ≡ true
  Accounts life (errored e, life') = life' ≡ life
  Accounts life (retrying status headers e, life') = StreamAccounts life e life'
  Accounts life (metered status headers items, life') =
      is_done life' ≡ (has_end items || is_done life)
  Accounts life (panicked, life') = life' ≡ life
  Accounts life (gone, life') = ⊥

  -- What the forwarding of a request comes to.
  abbrev Forwards : {R : Type 0} → World F × LifecycleGuard → TransientRetryOutcome F R → Type 0
  Forwards life (succeeded r s) = s.life ≡ life
  Forwards life (final_response status body s) = is_done s.life ≡ true
  Forwards life (failed e s) = s.life ≡ life

  build_error_response-Forwards :
      (R : Type 0) (life : World F × LifecycleGuard) (status : ℕ) (body : List ℕ) (s : Run F)
      → Forwards life (build_error_response {R = R} status body s)
  unfolding build_error_response mark_completed
  build_error_response-Forwards R life status body s = refl

  life-run_after :
      (policy : TransientRetry) (body : List ℕ) (k : ℕ) (s : Run F)
      → (run_after policy body k s).life ≡ s.life
  life-run_after policy body k s = refl

  life-exhausted : (t : Bool) (s : Run F) → (exhausted t s).life ≡ s.life
  life-exhausted true s = refl
  life-exhausted false s = refl

module _ {F : Float} (J : Json F) where
  verdict-Forwards :
      {R : Type 0} (policy : TransientRetry) (x : Reply R) (s : Run F)
      → Forwards s.life (verdict J policy x s)
  verdict-Forwards policy (success r) s = refl
  verdict-Forwards policy (refused status none) s = refl
  verdict-Forwards policy (refused status (some b)) s = refl
  verdict-Forwards policy (network_failure t) s = life-exhausted t s
  verdict-Forwards policy timed_out s = refl
  verdict-Forwards policy other_failure s = refl

  transient_retry-Forwards :
      {R : Type 0} (policy : TransientRetry) (reply : ℕ → Reply R) (body : List ℕ) (s : Run F)
      → (r : TransientRetryOutcome F R) × (transient_retry J policy reply body s ≡ some r)
        × Forwards s.life r
  transient_retry-Forwards policy reply body s =
      let (r, p, (k, h)) = transient_retry-EndsAt J policy reply body s in
      let q = verdict-Forwards policy (reply (suc k)) (run_after policy body (suc k) s) in
      (
        r,
        p,
        rw h.3 (
            subst
              (λ l. Forwards l (verdict J policy (reply (suc k)) (run_after policy body (suc k) s)))
              (life-run_after policy body (suc k) s) q),
      )

module _ {F : Float} (J : Json F) (o : Outside) (b : Backend F) (p : Prepared F) where
  -- What one reply is forwarded to.
  abbrev ForwardsTo : Reply BackendResponse → Run F → Type 0
  ForwardsTo x s =
      (r : TransientRetryOutcome F BackendResponse) × (forward_reply J o b p x s ≡ some r)
      × Forwards s.life r

  refused-Forwards :
      (status : ℕ) (e : List ℕ) (s : Run F) (c : LlamacppErrorClass)
      → classify_llamacpp_error J e ≡ c
      → ForwardsTo (refused status (some e)) s
  unfolding forward_reply
  refused-Forwards status e s permanent q =
      (_, rw (q, forward_reply) refl, build_error_response-Forwards _ s.life status e s)
  refused-Forwards status e s not_llamacpp q =
      (_, rw (q, forward_reply) refl, build_error_response-Forwards _ s.life status e s)
  refused-Forwards status e s transient q = elim (Bool-cases (can_reforward J o b p)) [
    | inl y ↦
        let (r, x, h) = transient_retry-Forwards J b.transient_policy b.again p.forwarded_body s in
        (r, rw (q, y, forward_reply) x, h)
    | inr n ↦ (_, rw (q, n, forward_reply) refl, build_error_response-Forwards _ s.life status e s)
  ]

  forward_reply-Forwards : (x : Reply BackendResponse) (s : Run F) → ForwardsTo x s
  unfolding forward_reply
  forward_reply-Forwards (success r) s = (succeeded r s, refl, refl)
  forward_reply-Forwards (refused status none) s = (failed network s, refl, refl)
  forward_reply-Forwards (refused status (some e)) s =
      refused-Forwards status e s (classify_llamacpp_error J e) refl
  forward_reply-Forwards (network_failure t) s = elim (Bool-cases (t && can_reforward J o b p)) [
    | inl y ↦ rw y (
        transient_retry-Forwards J b.transient_policy b.again p.forwarded_body
          (count errors_total s))
    | inr n ↦ rw n (failed network (count errors_total s), refl, refl)
  ]
  forward_reply-Forwards timed_out s = (failed timeout s, refl, refl)
  forward_reply-Forwards other_failure s = (failed internal s, refl, refl)

  -- What the response to a request comes to.
  abbrev RespondsBy :
      World F × LifecycleGuard → Option (Outcome F × (World F × LifecycleGuard)) → Type 0
  RespondsBy life x = (r : Outcome F × (World F × LifecycleGuard)) × (x ≡ some r) × Accounts life r

  stream-Accounts :
      (life : World F × LifecycleGuard) (status : ℕ) (headers : HeaderMap) (e : Ended F)
      → EndsRight J (stream_env J o b p) life e
      → Accounts life (retrying status headers e, life_of J o b p e)
  stream-Accounts life status headers (completed s) h = h.0
  stream-Accounts life status headers (aborted s) h = h.1
  stream-Accounts life status headers (disconnected s) h = tt
  stream-Accounts life status headers (crashed s) h = h

  respond_stream-Accounts :
      (request_id : List ℕ) (r : BackendResponse) (s : Run F)
      → RespondsBy s.life (respond_stream J o b p request_id r s)
  unfolding respond_stream
  respond_stream-Accounts request_id r s =
      elim (Bool-cases (b.policy.enabled && ltb 0 b.policy.max_retries && p.is_chat)) [
        | inl y ↦
            let (e, q, h) = spawn_retry_stream-EndsRight J (stream_env J o b p) r.reads s.life in
            (
              (retrying r.status (headers r) e, life_of J o b p e),
              rw (y, q, respond_stream) refl,
              stream-Accounts s.life r.status (headers r) e h,
            )
        | inr n ↦
            let m =
              drain b.parse_i64 r.inner (record { accumulator = Metric.new; life = s.life }) in
            (
              (metered r.status (headers r) m.0, m.1.life),
              rw (n, respond_stream) refl,
              drain-is_completed b.parse_i64 r.inner
                  (record { accumulator = Metric.new; life = s.life }),
            )
      ]
    where
      headers : BackendResponse → HeaderMap
      headers r = with_request_id request_id (filter_response_headers_streaming o.to_str r.headers)

  finish_whole-Accounts :
      (request_id : List ℕ) (r : BackendResponse) (life : World F × LifecycleGuard) (x : Settled F)
      → life_of_run x ≡ life
      → Accounts life (finish_whole J o b p request_id r x)
  unfolding finish_whole account mark_completed
  finish_whole-Accounts request_id r life (settled body n s) h = refl
  finish_whole-Accounts request_id r life (Degenerate.crashed s) h = h

  whole-Accounts :
      (request_id : List ℕ) (r : BackendResponse) (w : Whole) (s : Run F)
      → RespondsBy s.life (respond_whole J o b p request_id r w s)
  unfolding respond_whole
  whole-Accounts request_id r broken s = (_, refl, refl)
  whole-Accounts request_id r late s = (_, refl, refl)
  whole-Accounts request_id r (whole body) s =
      let (x, q, h) =
        retry_degenerate-Settles J b.policy b.degenerate p.is_chat p.forwarded_body body s in
      (
        finish_whole J o b p request_id r x,
        rw (q, respond_whole) refl,
        finish_whole-Accounts request_id r s.life x
            (retry_degenerate-life J b.policy b.degenerate p.is_chat p.forwarded_body body s x q),
      )

  conclude-Accounts :
      (request_id : List ℕ) (life : World F × LifecycleGuard)
      (r : TransientRetryOutcome F BackendResponse)
      → Forwards life r
      → RespondsBy life (conclude J o b p request_id r)
  unfolding conclude respond
  conclude-Accounts request_id life (succeeded r s) h =
      subst (λ l. RespondsBy l (respond J o b p request_id r s)) h
        (if_elim (RespondsBy s.life) (is_sse J o b p r.headers || p.wants_streaming) _ _
          (λ _. respond_stream-Accounts request_id r s) (λ _. whole-Accounts request_id r r.body s))
  conclude-Accounts request_id life (final_response status body s) h = (_, refl, h)
  conclude-Accounts request_id life (failed e s) h = (_, refl, h)

  -- An admitted request comes to an outcome, whatever the backend sends and answers. A response, or
  -- the backend's own error, completes the request; an error of the proxy, a panic and a stream that
  -- is aborted leave the accounting as it was; a retrying stream that ends well completes it, and a
  -- plain stream exactly if it ends cleanly.
  pub dispatch-Accounts :
      (request_id : List ℕ) (s : Run F)
      → (r : Outcome F × (World F × LifecycleGuard)) × (dispatch J o b p request_id s ≡ some r)
        × Accounts s.life r
  unfolding dispatch
  dispatch-Accounts request_id s =
      let (f, q, h) = forward_reply-Forwards b.first s in
      let (r, e, a) = conclude-Accounts request_id s.life f h in (r, rw (q, dispatch) e, a)
