-- ===== src/Tests/Handler.antt =====
-- Concrete requests to the proxy (src/gateway/proxy.rs).
use tinyllb.Prelude.{
  ℕ, ◌≡◌, ◌⊎◌, refl, true, false, none, some, [], ◌∷◌, ◌++◌, bytes_eq, not, arith,
}
use tinyllb.Prelude.Lists.{keep_if}
use tinyllb.Prelude.Int.{pos}
use tinyllb.Prelude.Float.{scaled}
use tinyllb.Prelude.Text.{bytes}
use tinyllb.Prelude.Table.{lookup}
use tinyllb.Flow.Identify.{ResolvedFlow}
use tinyllb.Flow.Registry.{Priorities}
use tinyllb.Gateway.Body.{is_inference_request}
use tinyllb.Gateway.Classify.{trim_ascii}
use tinyllb.Gateway.Headers.{HeaderMap, connection_names, is_excluded, filter_headers}
use tinyllb.Gateway.Headers.Laws.{is_own, filter_headers-IsEndToEnd}
use tinyllb.Gateway.Forward.{refused, success}
use tinyllb.Gateway.Handler.{Outside, Request, collected, answered, outgoing, Prepared}
use tinyllb.Gateway.Handler.Laws.{outgoing-length}
use tinyllb.Gateway.Handler.Dispatch.{Backend, BackendResponse, whole}
use tinyllb.Gateway.Handler.Serve.{Server, Meets, serve, proxy_handler}
use tinyllb.Gateway.Handler.Bypass.{IsServed, serve-IsServed, Bypasses, proxy_handler-bypass}
use tinyllb.Tests.Json.{json}
use tinyllb.Tests.Admission.{gina, config, open_visit, scheduler}

abbrev outside : Outside
outside = record {
  to_str = λ s. some s;
  parse_u64 = λ s. none;
  to_string = λ n. n ∷ [];
  join = λ path. some path;
  set_query = λ q url. url ++ q;
}

-- An own header, an option of the connection, and one that passes.
abbrev headers : HeaderMap
headers =
    (bytes "connection", bytes "close, x-hop")
    ∷ (bytes "te", bytes "trailers")
    ∷ (bytes "x-hop", bytes "1")
    ∷ (bytes "accept", bytes "json")
    ∷ []

filter_headers-IsEndToEnd_example :
    filter_headers (λ s. some s) headers
    ≡ keep_if (λ h. not (is_own (λ s. some s) headers h.0)) headers
filter_headers-IsEndToEnd_example =
    filter_headers-IsEndToEnd (λ s. some s) headers (omega arith)
      (unfold connection_names lookup trim_ascii in (refl, (refl, tt)))

passed : filter_headers (λ s. some s) headers ≡ (bytes "accept", bytes "json") ∷ []
unfolding filter_headers is_excluded connection_names lookup trim_ascii
passed = refl

-- An option of the connection that is written with a capital letter does not stop its header.
abbrev capital : HeaderMap
capital = (bytes "connection", bytes "X-Hop") ∷ (bytes "x-hop", bytes "1") ∷ []

capital_option : filter_headers (λ s. some s) capital ≡ (bytes "x-hop", bytes "1") ∷ []
unfolding filter_headers is_excluded connection_names lookup trim_ascii
capital_option = refl

abbrev request : Request
request = record {
  method = bytes "POST";
  path = bytes "/v1/chat/completions";
  query = none;
  headers = headers;
  body = collected (bytes "r");
}

-- A request for the models, with no body.
abbrev models : Request
models = record {
  method = bytes "GET";
  path = bytes "/v1/models";
  query = none;
  headers = [];
  body = collected [];
}

abbrev resolved : ResolvedFlow
resolved = record { flow_id = gina; priority_override = none; unset_override = false }

abbrev number_of : ℕ → json.Number
number_of n = pos n

abbrev response : BackendResponse
response = record {
  status = 200;
  headers = headers;
  body = whole (bytes "c");
  reads = [];
  inner = [];
}

-- A transient error of llama.cpp, then a response.
abbrev backend : Backend scaled
backend = record {
  policy = record {
    enabled = true;
    max_retries = 2;
    temperature_step = pos 300;
    max_temperature = pos 1500;
    default_temperature = pos 0;
  };
  transient_policy = record { max_attempts = 2; backoff_start = 100; backoff_max = 1000 };
  first = refused 500 (some (bytes "t"));
  again = λ n. success response;
  degenerate = λ n. none;
  answer = λ n. none;
  is_connected = λ n. true;
  parse_i64 = λ s. none;
}

abbrev meets : Meets scaled
meets = record {
  request_id = bytes "id";
  uuid = bytes "u";
  slot_count = some 2;
  unix = 2;
  sent = answered 200 headers (some (bytes "m"));
  visit = open_visit;
  backend = backend;
  ended = 9;
}

abbrev classes : Priorities
classes = record { interactive = 100; agent = 50; background = 10 }

abbrev server : Server scaled
server = record { scheduler = scheduler; progress = [] }

abbrev prepared : Prepared scaled
prepared = outgoing json outside number_of request (bytes "r") resolved (some 1) (bytes "/v1")

outgoing-length_example :
    (prepared.forwarded_body ≡ bytes "r")
    ⊎ (lookup (bytes "content-length") prepared.headers ≡ none)
outgoing-length_example =
    outgoing-length json outside number_of request (bytes "r") resolved (some 1) (bytes "/v1")

serve-IsServed_example :
    IsServed json outside number_of
      (pos 800)
      (λ n x. n)
      config
      classes
      meets
      prepared
      server
      (serve json outside number_of (pos 800) (λ n x. n) config classes meets prepared server)
serve-IsServed_example =
    serve-IsServed json outside number_of (pos 800) (λ n x. n) config classes meets prepared server

proxy_handler-bypass_example :
    Bypasses json outside number_of
      (pos 800)
      (λ n x. n)
      config
      classes
      meets
      server
      (proxy_handler json outside number_of (pos 800) (λ n x. n) config classes meets models server)
proxy_handler-bypass_example =
    proxy_handler-bypass json outside number_of (pos 800) (λ n x. n) config classes meets models
      server (unfold is_inference_request in refl)
