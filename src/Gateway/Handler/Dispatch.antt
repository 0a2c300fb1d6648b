-- ===== src/Gateway/Handler/Dispatch.antt =====
-- The answer to an admitted request (src/gateway/proxy.rs, the second half of proxy_handler): the
-- first request to the backend and its retries, and the response by streaming or as a whole.
use tinyllb.Prelude.{
  ℕ, Bool, false, ◌&&◌, ◌||◌, Option, none, some, List, if◌then◌else◌, ltb, bytes_eq, ◌>>=◌,
}
use tinyllb.Prelude.Int.{ℤ}
use tinyllb.Prelude.Float.{Float}
use tinyllb.Prelude.Text.{bytes, starts_with}
use tinyllb.Scheduler.Lifecycle.{World, LifecycleGuard}
use tinyllb.Gateway.Json.{Json}
use tinyllb.Gateway.Classify.{
  not_llamacpp, permanent, transient, RetryPolicy, classify_llamacpp_error,
}
use tinyllb.Gateway.Backoff.{TransientRetry}
use tinyllb.Gateway.Headers.{
  HeaderMap, filter_headers, filter_response_headers_streaming, insert_header,
}
use tinyllb.Gateway.Stream.{Read, Env, errors_total}
use tinyllb.Gateway.Stream.Loop.{
  Ended, completed, aborted, disconnected, crashed, spawn_retry_stream,
}
use tinyllb.Gateway.Metric.{Inner, Item, MetricStream, drain}
use tinyllb.Gateway.Metric
use tinyllb.Gateway.Forward.{
  ProxyError, network, internal, timeout, Reply, success, refused, network_failure, timed_out,
  other_failure, Run, TransientRetryOutcome, succeeded, final_response, failed, count,
  build_error_response, transient_retry,
}
use tinyllb.Gateway.Forward.Degenerate
use tinyllb.Gateway.Forward.Degenerate.{Settled, settled, retry_degenerate, account}
use tinyllb.Gateway.Handler.{Outside, Response, Prepared, header_text, with_request_id}

-- The body of a response as a whole: its bytes, or an error, or no end before the timeout.
pub data Whole : Type 0 where
  whole : List ℕ → Whole
  broken late : Whole

-- A response of the backend with a status that is no error; its body is read in one of three ways.
pub record BackendResponse : Type 0 where
  pub status : ℕ
  pub headers : HeaderMap
  pub body : Whole
  pub reads : List Read
  pub inner : List (Bool × Inner)

-- The proxy's settings and what the outside does during a request: the backend's first reply, those
-- to `transient_retry`, to the retry of a degenerate answer and to a retrying stream, and whether
-- the client takes what the stream sends. `parse_i64` reads a number of tokens.
pub record Backend (F : Float) : Type 0 where
  pub policy : RetryPolicy F
  pub transient_policy : TransientRetry
  pub first : Reply BackendResponse
  pub again : ℕ → Reply BackendResponse
  pub degenerate : ℕ → Option (List ℕ)
  pub answer : ℕ → Option (List Read)
  pub is_connected : ℕ → Bool
  pub parse_i64 : List ℕ → Option ℤ

-- What the client gets: a response, the backend's own error with its status and body (its headers
-- are left out), an error of the proxy, a stream that retries, or a plain one. A panic gives
-- it nothing, and so does a request that it gives up.
pub data Outcome (F : Float) : Type 0 where
  responded : Response → Outcome F
  error_response : ℕ → List ℕ → Outcome F
  errored : ProxyError → Outcome F
  retrying : ℕ → HeaderMap → Ended F → Outcome F
  metered : ℕ → HeaderMap → List Item → Outcome F
  panicked gone : Outcome F

module _ {F : Float} (J : Json F) (o : Outside) (b : Backend F) (p : Prepared F) where
  abbrev pub can_reforward : Bool
  can_reforward = ltb 0 b.transient_policy.max_attempts

  -- The first reply, and where it is a transient error the retries, on the same body.
  unfoldable pub forward_reply :
      Reply BackendResponse → Run F → Option (TransientRetryOutcome F BackendResponse)
  forward_reply (success r) s = some (succeeded r s)
  forward_reply (refused status none) s = some (failed network s)
  forward_reply (refused status (some e)) s = elim (classify_llamacpp_error J e) [
    | transient ↦
        if can_reforward
        then transient_retry J b.transient_policy b.again p.forwarded_body s
        else some (build_error_response status e s)
    | permanent ↦ some (build_error_response status e s)
    | not_llamacpp ↦ some (build_error_response status e s)
  ]
  forward_reply (network_failure is_transient) s =
      if is_transient && can_reforward
      then transient_retry J b.transient_policy b.again p.forwarded_body (count errors_total s)
      else some (failed network (count errors_total s))
  forward_reply timed_out s = some (failed timeout s)
  forward_reply other_failure s = some (failed internal s)

  unfoldable pub is_sse : HeaderMap → Bool
  is_sse headers = elim (header_text o headers (bytes "content-type")) [
    | none ↦ false
    | some t ↦ starts_with (bytes "text/event-stream") t
  ]

  abbrev pub stream_env : Env F J
  stream_env = record {
    policy = b.policy;
    transient_policy = b.transient_policy;
    forwarded_body = p.forwarded_body;
    answer = b.answer;
    is_connected = b.is_connected;
  }

  abbrev pub life_of : Ended F → World F × LifecycleGuard
  life_of (completed s) = s.life
  life_of (aborted s) = s.life
  life_of (disconnected s) = s.life
  life_of (crashed s) = s.life

  -- The streaming path, up to the end of its stream.
  unfoldable pub respond_stream :
      List ℕ → BackendResponse → Run F → Option (Outcome F × (World F × LifecycleGuard))
  unfolding filter_response_headers_streaming
  respond_stream request_id r s =
      let headers =
        with_request_id request_id (filter_response_headers_streaming o.to_str r.headers) in
      if b.policy.enabled && ltb 0 b.policy.max_retries && p.is_chat
      then elim (spawn_retry_stream J stream_env r.reads s.life) [
        | none ↦ none
        | some e ↦ some (retrying r.status headers e, life_of e)
      ]
      else (let (items, m) =
            drain b.parse_i64 r.inner (record { accumulator = Metric.new; life = s.life }) in
          some (metered r.status headers items, m.life))

  -- The response to a settled answer, with the number of its retries.
  unfoldable pub finish_whole :
      List ℕ → BackendResponse → Settled F → Outcome F × (World F × LifecycleGuard)
  unfolding filter_headers account
  finish_whole request_id r (Degenerate.crashed s) = (panicked, s.life)
  finish_whole request_id r (settled body n s) = (
    responded (record {
      status = r.status;
      headers =
          insert_header (bytes "x-tinyllb-premature-stop-retries") (o.to_string n)
            (with_request_id request_id (filter_headers o.to_str r.headers));
      body = body;
    }),
    (account J b.policy body s).life,
  )

  -- The whole path, on the body that is collected.
  unfoldable pub respond_whole :
      List ℕ → BackendResponse → Whole → Run F → Option (Outcome F × (World F × LifecycleGuard))
  respond_whole request_id r broken s = some (errored network, s.life)
  respond_whole request_id r late s = some (errored timeout, s.life)
  respond_whole request_id r (whole body) s =
      elim (retry_degenerate J b.policy b.degenerate p.is_chat p.forwarded_body body s) [
        | none ↦ none
        | some x ↦ some (finish_whole request_id r x)
      ]

  unfoldable pub respond :
      List ℕ → BackendResponse → Run F → Option (Outcome F × (World F × LifecycleGuard))
  unfolding respond_stream respond_whole is_sse
  respond request_id r s =
      if is_sse r.headers || p.wants_streaming
      then respond_stream request_id r s
      else respond_whole request_id r r.body s

  -- What the forwarding comes to.
  unfoldable pub conclude :
      List ℕ
      → TransientRetryOutcome F BackendResponse
      → Option (Outcome F × (World F × LifecycleGuard))
  unfolding respond
  conclude request_id (succeeded r s) = respond request_id r s
  conclude request_id (final_response status body s) = some (error_response status body, s.life)
  conclude request_id (failed e s) = some (errored e, s.life)

  unfoldable pub dispatch : List ℕ → Run F → Option (Outcome F × (World F × LifecycleGuard))
  unfolding forward_reply conclude
  dispatch request_id s = forward_reply b.first s >>= conclude request_id
