-- ===== src/Tests/Gateway.antt =====
-- Concrete runs of the gateway (src/gateway/).
use tinyllb.Prelude.{
  ℕ, ◌≤◌, ◌≡◌, refl, ◌⊎◌, true, false, Option, none, some, List, [], ◌∷◌, ◌++◌, ◌==◌, bytes_eq,
  if◌then◌else◌,
}
use tinyllb.Prelude.Int.{pos}
use tinyllb.Prelude.Float.{scaled}
use tinyllb.Prelude.Text.{bytes, concat}
use tinyllb.Flow.Registry.{new_registry}
use tinyllb.Scheduler.Drr.State.{new_state}
use tinyllb.Scheduler.Lifecycle.{World, LifecycleGuard}
use tinyllb.Gateway.Json.{field, get, set_member}
use tinyllb.Tests.Json.{Value, request, json, json-IsLawful}
use tinyllb.Gateway.Body.{is_true, asks_usage, inject_include_usage}
use tinyllb.Gateway.Body.Laws.{has_usable_options, inject_include_usage-asks}
use tinyllb.Gateway.Forward.{Reply, success, refused, Run, TransientRetryOutcome, transient_retry}
use tinyllb.Gateway.Forward.Laws.{EndsAt, transient_retry-EndsAt}
use tinyllb.Gateway.Forward.Degenerate.{Settled, retry_degenerate}
use tinyllb.Gateway.Forward.Settles.{Settles, retry_degenerate-Settles}
use tinyllb.Gateway.Frames.{
  new, find_delimiter, feed, feed_all, finish, extract_events, extract_loop,
}
use tinyllb.Gateway.Frames.Laws.{IsFramed, feed_all-feed, feed-framed, finish-feed_all}
use tinyllb.Gateway.Backoff.{transient_backoff}
use tinyllb.Gateway.Classify.{
  bump_temperature, classify_frame, trim_ascii, strip_data_prefix, classify_line,
}
use tinyllb.Prelude.Table.{lookup, insert}
use tinyllb.Gateway.Stream.{
  Read, Act, Env, frame, leftover, notice, resent, slept, counted, backend_retries_total,
  premature_stop_retries_total, premature_stop_detected_total, send, count_and_forward_frame,
  charge, completion_tokens_from_frame, reforward, reforward_or_abort, send_bumped, retry_bumped,
}
use tinyllb.Gateway.Stream.Loop.{
  Ended, spawn_retry_stream, retry_loop, run_attempt, finish_attempt, conclude, unaccepted, flush,
  read_loop, handle_frames, handle_frame, pending_frame, terminal,
}
use tinyllb.Gateway.Stream.Invariant.{IsOnce, resends}
use tinyllb.Gateway.Stream.Laws.{
  task_of, EndsRight, spawn_retry_stream-total, spawn_retry_stream-IsOnce,
  spawn_retry_stream-EndsRight,
}

abbrev line : List ℕ → List ℕ
line s = bytes "data: " ++ (s ++ (10 ∷ 10 ∷ []))

abbrev chunk : List ℕ → Read
chunk s = record { stalled = false; next = some s; expired = false }

-- A degenerate stop, then an error, then content and a stop.
abbrev env : Env scaled json
env = record {
  policy = record {
    enabled = true;
    max_retries = 2;
    temperature_step = pos 300;
    max_temperature = pos 1500;
    default_temperature = pos 0;
  };
  transient_policy = record { max_attempts = 2; backoff_start = 100; backoff_max = 1000 };
  forwarded_body = bytes "r";
  answer = λ n.
      if n == 1
      then some (chunk (line (bytes "e")) ∷ [])
      else some (chunk (line (bytes "c")) ∷ chunk (line (bytes "s")) ∷ []);
  is_connected = λ n. true;
}

abbrev reads : List Read
reads = chunk (line (bytes "s")) ∷ []

abbrev life : World scaled × LifecycleGuard
life = (
  record {
    shared = record {
      drr = new_state scaled 2;
      registry = new_registry scaled (pos 1000) 10;
      waiting_queue = [];
      metrics = record { active_flows = pos 0; log = [] };
    };
    progress = none;
  },
  record {
    flow_id = bytes "f";
    estimated_cost = pos 5;
    completed_normally = false;
    delivered_tokens = pos 0;
  },
)

spawn_retry_stream-total_example :
    (r : Ended scaled) × (spawn_retry_stream json env reads life ≡ some r)
    × (resends (task_of r).log ≤ 4)
spawn_retry_stream-total_example = spawn_retry_stream-total json env reads life

spawn_retry_stream-IsOnce_example :
    (r : Ended scaled) × (spawn_retry_stream json env reads life ≡ some r)
    × IsOnce json (task_of r).log
spawn_retry_stream-IsOnce_example = spawn_retry_stream-IsOnce json env reads life

spawn_retry_stream-EndsRight_example :
    (r : Ended scaled) × (spawn_retry_stream json env reads life ≡ some r)
    × EndsRight json env life r
spawn_retry_stream-EndsRight_example = spawn_retry_stream-EndsRight json env reads life

feed_all-feed_example :
    feed_all ((97 ∷ 10 ∷ []) ∷ (10 ∷ 98 ∷ []) ∷ []) new ≡ feed (97 ∷ 10 ∷ 10 ∷ 98 ∷ []) new
feed_all-feed_example =
    feed_all-feed ((97 ∷ 10 ∷ []) ∷ (10 ∷ 98 ∷ []) ∷ []) new (unfold find_delimiter in refl)

one_event-IsFramed : IsFramed ((97 ∷ 10 ∷ 10 ∷ []) ∷ []) (98 ∷ [])
unfolding find_delimiter
one_event-IsFramed = (refl, refl)

feed-framed_example :
    feed (97 ∷ 10 ∷ 10 ∷ 98 ∷ []) new ≡ (record { buffer = 98 ∷ [] }, (97 ∷ 10 ∷ 10 ∷ []) ∷ [])
feed-framed_example = feed-framed ((97 ∷ 10 ∷ 10 ∷ []) ∷ []) (98 ∷ []) one_event-IsFramed

finish-feed_all_example :
    (concat (feed_all ((97 ∷ 10 ∷ []) ∷ (10 ∷ 98 ∷ []) ∷ []) new).1
        ++ concat (finish (feed_all ((97 ∷ 10 ∷ []) ∷ (10 ∷ 98 ∷ []) ∷ []) new).0)
      ≡ 97 ∷ 10 ∷ 10 ∷ 98 ∷ [])
    × IsFramed
        (feed_all ((97 ∷ 10 ∷ []) ∷ (10 ∷ 98 ∷ []) ∷ []) new).1
        (concat (finish (feed_all ((97 ∷ 10 ∷ []) ∷ (10 ∷ 98 ∷ []) ∷ []) new).0))
finish-feed_all_example = finish-feed_all ((97 ∷ 10 ∷ []) ∷ (10 ∷ 98 ∷ []) ∷ [])

abbrev ended_log : Option (Ended scaled) → List Act
ended_log none = []
ended_log (some r) = (task_of r).log

retried_run :
    ended_log (spawn_retry_stream json env reads life)
    ≡ frame (line (bytes "s"))
      ∷ frame (line (bytes "c"))
      ∷ resent (bytes "r")
      ∷ slept 100
      ∷ counted backend_retries_total
      ∷ resent (bytes "r")
      ∷ notice 1
      ∷ counted premature_stop_retries_total
      ∷ counted premature_stop_detected_total
      ∷ []
unfolding spawn_retry_stream retry_loop run_attempt finish_attempt conclude unaccepted flush
    read_loop handle_frames handle_frame pending_frame terminal send count_and_forward_frame charge
    completion_tokens_from_frame reforward reforward_or_abort send_bumped retry_bumped
    transient_backoff bump_temperature classify_frame classify_line trim_ascii strip_data_prefix
    field get feed finish extract_events extract_loop find_delimiter set_member lookup insert
retried_run = refl

-- A stream that ends within a frame: the client gets the bytes that came, and the whole answer to
-- the new request after them.
leftover_run :
    ended_log (spawn_retry_stream json env (chunk (bytes "data: c") ∷ []) life)
    ≡ frame (line (bytes "s"))
      ∷ frame (line (bytes "c"))
      ∷ resent (bytes "r")
      ∷ slept 200
      ∷ counted backend_retries_total
      ∷ resent (bytes "r")
      ∷ slept 100
      ∷ counted backend_retries_total
      ∷ leftover (bytes "data: c")
      ∷ []
unfolding spawn_retry_stream retry_loop run_attempt finish_attempt conclude unaccepted flush
    read_loop handle_frames handle_frame pending_frame terminal send count_and_forward_frame charge
    completion_tokens_from_frame reforward reforward_or_abort send_bumped retry_bumped
    transient_backoff bump_temperature classify_frame classify_line trim_ascii strip_data_prefix
    field get feed finish extract_events extract_loop find_delimiter set_member lookup insert
leftover_run = refl

-- A transient error of llama.cpp, then a response.
abbrev reply : ℕ → Reply ℕ
reply n = if n == 1 then refused 500 (some (bytes "t")) else success 7

abbrev idle : Run scaled
idle = record { log = []; life = life }

transient_retry-EndsAt_example :
    (o : TransientRetryOutcome scaled ℕ) × (transient_retry json
        (env.transient_policy)
        reply
        (bytes "r")
        idle
      ≡ some o)
    × ((k : ℕ) × EndsAt json (env.transient_policy) reply (bytes "r") idle o k)
transient_retry-EndsAt_example =
    transient_retry-EndsAt json (env.transient_policy) reply (bytes "r") idle

retry_degenerate-Settles_example :
    (r : Settled scaled) × (retry_degenerate json
        (env.policy)
        (λ n. some (bytes "c"))
        true
        (bytes "r")
        (bytes "s")
        idle
      ≡ some r)
    × Settles json (env.policy) (bytes "s") 0 0 r
retry_degenerate-Settles_example =
    retry_degenerate-Settles json (env.policy) (λ n. some (bytes "c")) true (bytes "r") (bytes "s")
      idle

inject_include_usage-asks_example :
    (u : Value) × (asks_usage json u ≡ true)
    × (get json (bytes "stream") u ≡ get json (bytes "stream") request)
    × (((inject_include_usage json (bytes "r") ≡ none) × (u ≡ request))
        ⊎ (inject_include_usage json (bytes "r") ≡ some (bytes "r")))
inject_include_usage-asks_example =
    inject_include_usage-asks json json-IsLawful (bytes "r") request
      ((bytes "stream", Value.truth true) ∷ []) (bytes "stream") refl refl
      (unfold is_true field get lookup in refl) (unfold has_usable_options lookup in refl)
      (λ p. cc p)
