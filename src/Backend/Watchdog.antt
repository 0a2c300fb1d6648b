-- ===== src/Backend/Watchdog.antt =====
-- When the inference watchdog of src/backend/mod.rs reports a stall.
use tinyllb.Prelude.{
  ℕ, ◌-◌, ◌≡◌, refl, ap, ◌∙◌, Bool, true, false, not, ◌&&◌, List, [], ◌∷◌, ◌<◌, leb, arith,
}
use tinyllb.Prelude.Float.{Float}
use tinyllb.Backend.{BackendSnapshot, is_busy}
use tinyllb.Backend.Monitor.{Monitor, has_progressed, watch}

-- A snapshot with the two readings of the clock.
pub record Tick (F : Float) : Type 0 where
  pub snapshot : BackendSnapshot F
  pub now : ℕ
  pub later : ℕ

module _ {F : Float} (stall_timeout : ℕ) where
  abbrev pub tick : Tick F → Monitor F → Monitor F
  tick t w = watch stall_timeout t.snapshot t.now t.later w

  abbrev pub watch_all : List (Tick F) → Monitor F → Monitor F
  watch_all [] w = w
  watch_all (t ∷ ts) w = watch_all ts (tick t w)

  -- The backend has work at every tick, and none of its counters moves.
  abbrev pub is_frozen : List (Tick F) → Monitor F → Bool
  is_frozen [] w = true
  is_frozen (t ∷ ts) w =
      is_busy t.snapshot && not (has_progressed t.snapshot w) && is_frozen ts (tick t w)

  abbrev pub end_of : Tick F → List (Tick F) → ℕ
  end_of t [] = t.later
  end_of t (t' ∷ ts) = end_of t' ts

  frozen-last_progress :
      (t : Tick F) (w : Monitor F)
      → is_busy t.snapshot ≡ true
      → has_progressed t.snapshot w ≡ false
      → (tick t w).last_progress ≡ w.last_progress
  unfolding watch
  frozen-last_progress t w b p = rw (b, p) refl

  frozen-stalled :
      (t : Tick F) (w : Monitor F)
      → is_busy t.snapshot ≡ true
      → has_progressed t.snapshot w ≡ false
      → (tick t w).stalled ≡ leb stall_timeout (t.later - w.last_progress)
  unfolding watch
  frozen-stalled t w b p = rw (b, p) refl

  -- While the backend has work and none of its counters moves, a stall is reported exactly once the
  -- timeout has passed since the last progress, as of the last tick.
  pub watch_all-stalled :
      (t : Tick F) (ts : List (Tick F)) (w : Monitor F)
      → is_frozen (t ∷ ts) w ≡ true
      → (watch_all (t ∷ ts) w).stalled ≡ leb stall_timeout (end_of t ts - w.last_progress)
  watch_all-stalled t [] w h = frozen-stalled t w (ground (arith, h)) (ground (arith, h))
  watch_all-stalled t (t' ∷ ts) w h =
      let e : (tick t w).last_progress ≡ w.last_progress =
        frozen-last_progress t w (ground (arith, h)) (ground (arith, h)) in
      watch_all-stalled t' ts (tick t w) (ground (arith, h))
      ∙ ap (λ x. leb stall_timeout (end_of t' ts - x)) e

  -- A tick that finds the backend idle or finds progress clears the stall, if its two clock readings
  -- are less than the timeout apart.
  pub tick_clears :
      (t : Tick F) (w : Monitor F)
      → (is_busy t.snapshot && not (has_progressed t.snapshot w)) ≡ false
      → t.later - t.now < stall_timeout
      → (tick t w).stalled ≡ false
  unfolding watch
  tick_clears t w h l = ground (arith, h, l)
