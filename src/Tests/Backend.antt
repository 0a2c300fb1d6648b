-- ===== src/Tests/Backend.antt =====
-- Concrete runs of the backend monitor and the configuration's validation (src/backend/, src/config/).
use tinyllb.Prelude.{ℕ, ◌≡◌, refl, true, false, none, [], ◌∷◌}
use tinyllb.Prelude.Int.{pos, ◌+ℤ◌}
use tinyllb.Prelude.Float.{scaled}
use tinyllb.Scheduler.Backpressure.{hybrid}
use tinyllb.Backend.{BackendSnapshot, default_snapshot, is_busy}
use tinyllb.Backend.Monitor.{Monitor, has_progressed, watch}
use tinyllb.Backend.Watchdog.{Tick, watch_all, is_frozen, watch_all-stalled}
use tinyllb.Config.{
  Config, validate, validate_base, validate_kv_policy, validate_kv_pressure, validate_retry_policy,
  validate_transient_retry, validate_priority_policy,
}
use tinyllb.Config.Laws.{IsUsable, validate-IsUsable}

abbrev busy : BackendSnapshot scaled
busy = record (default_snapshot scaled) { requests_running = pos 1000 }

abbrev monitor : Monitor scaled
monitor = record {
  last_prompt_tokens = pos 0;
  last_generation_tokens = pos 0;
  last_cached_tokens = pos 0;
  last_decode_calls = pos 0;
  last_progress = 5;
  stalled = false;
  last_slots_ok = none;
  sent_snapshot = none;
  sent_stalled = none;
  backend_stall_events_total = 0;
}

abbrev tick_at : ℕ → Tick scaled
tick_at n = record { snapshot = busy; now = n; later = n }

frozen : is_frozen 30 (tick_at 20 ∷ tick_at 40 ∷ []) monitor ≡ true
unfolding watch is_busy has_progressed
frozen = refl

watch_all-stalled_example : (watch_all 30 (tick_at 20 ∷ tick_at 40 ∷ []) monitor).stalled ≡ true
watch_all-stalled_example = watch_all-stalled 30 (tick_at 20) (tick_at 40 ∷ []) monitor frozen

abbrev config : Config scaled
config = record {
  has_top_level_kv_policy = false;
  max_active_flows = 4;
  starvation_timeout = 300;
  default_weight = pos 1000;
  mode = hybrid;
  max_queue_depth = 100;
  max_wait = 10;
  cannot_be_a_base = false;
  is_scheme_empty = false;
  metrics_interval = 1;
  kv_policy = record { enabled = true; reject_threshold = pos 950; delay_threshold = pos 800 };
  kv_pressure = record {
    enabled = true;
    thresholds =
        record { at = pos 700; max_flows = 3 } ∷ record { at = pos 900; max_flows = 1 } ∷ [];
  };
  retry_policy = record {
    enabled = true;
    max_retries = 2;
    temperature_step = pos 300;
    max_temperature = pos 1500;
    default_temperature = pos 0;
  };
  transient_retry = record { max_attempts = 3; backoff_start = 500; backoff_max = 4000 };
  priority_policy = record {
    enabled = true;
    idle_gap_threshold = 30;
    agentic_suspected_threshold = 5;
    agentic_confirmed_threshold = 12;
  };
}

config_accepted : validate config ≡ none
unfolding validate validate_base validate_kv_policy validate_kv_pressure validate_retry_policy
    validate_transient_retry validate_priority_policy ◌+ℤ◌
config_accepted = refl

validate-IsUsable_example : IsUsable config (pos 800)
validate-IsUsable_example = validate-IsUsable config (pos 800) config_accepted
