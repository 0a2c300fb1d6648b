-- ===== src/Lib.antt =====
-- Verification of tinyllb: flows, their priorities and slots, the admission of requests by deficit
-- round robin, and the gateway's streams and retries.
--
-- A request arrives at the gateway, is given a flow, and asks the scheduler for a ticket. The flow
-- registry (src/flow/mod.rs) holds the flows with their weight, priority, credit and counters; the
-- slot allocator (src/flow/slots.rs) pins named flows to backend slots; the cadence heuristic
-- (src/flow/cadence.rs) sets a flow's priority by its arrivals. The scheduler (src/scheduler/)
-- passes the request through the KV gate and the completion bias gate, queues it in its flow's
-- queue and hands tickets out in its admission loop, by deficit round robin, priority and KV bias,
-- below a cap that falls with the KV pressure. The request's lifecycle guard reports at its end
-- what the request used, and the scheduler restores the rest to the flow's credit. The gateway
-- (src/gateway/) sends the request to the backend, passes the answer on frame by frame, and sends
-- the request again where the answer is degenerate or broken off and nothing was shown yet.
--
-- Prelude              shared names, tests, lists, integers, machine words, tables and floats
-- Flow.Id              FlowId and its hash (src/flow/mod.rs)
-- Flow.Identify        the flow of a request (src/flow/identify.rs)
-- Flow.Slots           SlotAllocator (src/flow/slots.rs)
-- Flow.Registry        FlowRegistry, Flow, QueueSnapshot (src/flow/mod.rs)
-- Flow.Cadence         CadenceRegistry (src/flow/cadence.rs)
-- Scheduler.Backpressure, .PressureCap, .Priority, .KvBias, .Progress, .Lifecycle, .KvPolicy,
--   .CompletionBias    the files of src/scheduler/ of the same names (kv_admission.rs is KvPolicy,
--                      flow_progress.rs is Progress)
-- Scheduler.Events     the metrics that are read back, and a log of the other writes
-- Scheduler.Drr        drr.rs: State the state, Select `try_select`, Admit the requests' side and a
--                      turn of `admission_loop`, Admission `admit` in its three modes, System the
--                      steps of the whole; the other modules hold proofs
-- Scheduler.Facade     mod.rs: the arrival of a request, the stall gate, reports and the reaper;
--                      Admit the whole way of a request (`admit_with_turn_boundary`)
-- Gateway.Json         serde_json, as an interface
-- Gateway.Frames       SseFrameParser (src/gateway/retry.rs)
-- Gateway.Classify     the classification of frames and bodies and the bumped body (retry.rs)
-- Gateway.Backoff      transient_backoff (retry.rs)
-- Gateway.Stream       the task of `spawn_retry_stream` (src/gateway/stream.rs): a send, a new
--                      request; Loop its loops; the other modules hold proofs
-- Gateway.Body         what the proxy reads from a request's body and writes into it (proxy.rs)
-- Gateway.Forward      `transient_retry` and the errors (proxy.rs, error.rs); Degenerate the retry
--                      of an answer that is no stream, at the end of `proxy_handler`
-- Gateway.Headers      the filter of the headers (proxy.rs)
-- Gateway.Handler      `proxy_handler` (proxy.rs): the request up to its admission; Dispatch the
--                      answer to an admitted request; Serve the handler as a whole; the other
--                      modules hold proofs
-- Gateway.Metric       TokenAccumulator and MetricStream (stream.rs)
-- Api                  the registration of a flow (src/api/flows.rs)
-- Backend              src/backend/mod.rs: Scrape its parsers, Monitor a round of `poll_loop`
-- Config               the validation of src/config/loader.rs
-- Tests                concrete runs
--
-- A function is one critical section, or writes that no other section sees in between; it takes the
-- state and the clock readings and returns the new state. A write through a reference to a
-- registered flow is a write to its entry: the reaper leaves a flow with a queued or active request
-- alone when it tests it. Its test of a flow and the removal are one step here; in the code a
-- request can arrive between them. A map is a list of pairs with one pair for each key, and
-- iterates in that order, which no theorem depends on. An Instant or a Duration is a number of
-- nanoseconds, a Unix time a number of seconds. A u32 or u64 is a number with its wrap-around
-- written out, an i64 an integer that is wrapped after each operation, as in a release build. An
-- f64 is an interface with the operations that the code calls; the laws of its order or of exact
-- integers are hypotheses where a theorem needs them, and `scaled` is an instance. `none` as the
-- result of `try_select` or of a turn is a panic. The loops recur on lists, and the loops that wait
-- for the outside run over the sequence of what they see. Five functions take fuel: the frame
-- parser and the token accumulator a round for each byte of the buffer, as an event takes two bytes
-- at least and a key 19, and the three retry loops a turn for each attempt that their budgets allow
-- and, but for `transient_retry`, one more. JSON is an interface, since serde_json is a library;
-- what the backend sends and answers and whether the client is there are arguments.
--
-- A request's way through the scheduler is one function of what it meets: what others do while it
-- waits is a function on the shared state, and what it waits for is an argument.
--
-- Not modelled: a client that leaves while its request waits for the backend, the headers of an
-- error response, the sending of requests by reqwest and the test for its transient errors, the
-- waiting for a snapshot of the backend and the request for its slots, the configuration's
-- defaults, file and environment, the response of GET /queue, the routers, the registration of the
-- metrics, and the start of the executable. They are constants, calls of libraries, or input and
-- output.
pub mod Prelude
pub mod Api
pub mod Backend
pub mod Config
pub mod Flow
pub mod Gateway
pub mod Scheduler
pub mod Tests
