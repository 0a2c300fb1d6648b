-- ===== src/Backend/Monitor.antt =====
-- A round of the monitor's polling (src/backend/mod.rs, poll_loop) and its inference watchdog.
use tinyllb.Prelude.{
  ℕ, suc, ◌-◌, ◌%◌, Bool, true, not, ◌&&◌, ◌||◌, Option, none, some, List, if◌then◌else◌, leb, ◌==◌,
  length, is_some,
}
use tinyllb.Prelude.Words.{u32_mod}
use tinyllb.Prelude.Float.{Float}
use tinyllb.Backend.{BackendSnapshot, is_busy}
use tinyllb.Backend.Scrape.{Scan, parse_snapshot, SlotKv, slots_kv_usage}

-- The variables of the loop, what it last sent on its two channels, and the stalls it has counted.
pub record Monitor (F : Float) : Type 0 where
  pub last_prompt_tokens : F.Carrier
  pub last_generation_tokens : F.Carrier
  pub last_cached_tokens : F.Carrier
  pub last_decode_calls : F.Carrier
  pub last_progress : ℕ
  pub stalled : Bool
  pub last_slots_ok : Option Bool
  pub sent_snapshot : Option (BackendSnapshot F)
  pub sent_stalled : Option Bool
  pub backend_stall_events_total : ℕ

-- Whether the endpoint works, for the log lines.
unfoldable pub slots_health : Bool → Option Bool → Option Bool
slots_health ok none = if ok then some true else none
slots_health ok (some was) = some ok

-- `a != b`: true on a NaN.
abbrev pub differs : (F : Float) → F.Carrier → F.Carrier → Bool
differs F a b = not (F.le a b && F.le b a)

module _ {F : Float} where
  unfoldable pub has_progressed : BackendSnapshot F → Monitor F → Bool
  has_progressed s w =
      differs F s.prompt_tokens w.last_prompt_tokens
      || differs F s.generation_tokens w.last_generation_tokens
      || differs F s.cached_prompt_tokens w.last_cached_tokens
      || differs F s.decode_calls w.last_decode_calls

  -- The watchdog on a new snapshot: `now` is when it looks for progress, `later` when it measures.
  unfoldable pub watch : ℕ → BackendSnapshot F → ℕ → ℕ → Monitor F → Monitor F
  watch stall_timeout s now later w =
      let idle_since = if is_busy s then w.last_progress else now in
      let last_progress = if has_progressed s w then now else idle_since in
      let now_stalled = is_busy s && leb stall_timeout (later - last_progress) in
      record w {
        last_progress = last_progress;
        last_prompt_tokens = s.prompt_tokens;
        last_generation_tokens = s.generation_tokens;
        last_cached_tokens = s.cached_prompt_tokens;
        last_decode_calls = s.decode_calls;
        stalled = now_stalled;
        backend_stall_events_total =
            if now_stalled && not w.stalled
            then suc w.backend_stall_events_total
            else w.backend_stall_events_total;
        sent_stalled = some now_stalled;
      }

  -- `slots` is the answer of the /slots endpoint, which is asked of llama.cpp only.
  unfoldable pub with_slots : Bool → Option (List SlotKv) → BackendSnapshot F → BackendSnapshot F
  with_slots kv_unified none s = record s { slot_count = none }
  with_slots kv_unified (some slots) s =
      let s' = record s { slot_count = some (length slots % u32_mod) } in
      elim (slots_kv_usage F slots kv_unified) [
        | none ↦ s'
        | some usage ↦ record s' { kv_usage = usage; kv_free = F.sub F.one usage }
      ]

  -- A round with the body of /metrics, or none if it cannot be had.
  unfoldable pub poll :
      Scan F → ℕ → Bool → Option (List ℕ) → Option (List SlotKv) → ℕ → ℕ → Monitor F → Monitor F
  poll scan stall_timeout kv_unified none slots now later w = w
  poll scan stall_timeout kv_unified (some body) slots now later w =
      let r = parse_snapshot scan body in
      let s = if r.found_llamacpp then with_slots kv_unified slots r.snapshot else r.snapshot in
      let health =
        if r.found_llamacpp
        then slots_health (is_some slots) w.last_slots_ok
        else w.last_slots_ok in
      let w' = record w { last_slots_ok = health } in
      if not (r.found_usage || r.found_llamacpp)
      then w'
      else let w'' = record w' { sent_snapshot = some s } in
        if stall_timeout == 0 then w'' else watch stall_timeout s now later w''
