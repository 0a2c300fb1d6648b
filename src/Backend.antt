-- ===== src/Backend.antt =====
-- The backend monitor (src/backend/mod.rs): what it reads from a backend, and its stall watchdog.
pub mod Scrape
pub mod Monitor
pub mod Watchdog
use tinyllb.Prelude.{ℕ, Bool, ◌||◌, Option, none}
use tinyllb.Prelude.Float.{Float}

pub record BackendSnapshot (F : Float) : Type 0 where
  pub kv_usage : F.Carrier
  pub kv_free : F.Carrier
  pub slot_count : Option ℕ
  pub preemptions : ℕ
  pub generation_tokens : F.Carrier
  pub prompt_tokens : F.Carrier
  pub requests_running : F.Carrier
  pub requests_waiting : F.Carrier
  pub cached_prompt_tokens : F.Carrier
  pub decode_calls : F.Carrier

abbrev pub default_snapshot : (F : Float) → BackendSnapshot F
default_snapshot F = record {
  kv_usage = F.zero;
  kv_free = F.one;
  slot_count = none;
  preemptions = 0;
  generation_tokens = F.zero;
  prompt_tokens = F.zero;
  requests_running = F.zero;
  requests_waiting = F.zero;
  cached_prompt_tokens = F.zero;
  decode_calls = F.zero;
}

unfoldable pub is_busy : {F : Float} → BackendSnapshot F → Bool
is_busy {F} s = F.lt F.zero s.requests_running || F.lt F.zero s.requests_waiting
