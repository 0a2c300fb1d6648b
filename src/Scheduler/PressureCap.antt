-- ===== src/Scheduler/PressureCap.antt =====
-- The concurrency cap driven by KV pressure (src/scheduler/pressure_cap.rs).
pub mod Laws
use Prim.Native.Nat.{min}
use tinyllb.Prelude.{
  ℕ, ◌≡◌, refl, Bool, true, false, Option, none, some, List, [], ◌∷◌, if◌then◌else◌, from_option,
}
use tinyllb.Prelude.Float.{Float, clamp}

-- `config::KvPressureThreshold` and `config::KvPressure`
pub record KvPressureThreshold (F : Float) : Type 0 where
  pub at : F.Carrier
  pub max_flows : ℕ

pub record KvPressure (F : Float) : Type 0 where
  pub enabled : Bool
  pub thresholds : List (KvPressureThreshold F)

-- `Iterator::min`
unfoldable pub minimum : List ℕ → Option ℕ
minimum [] = none
minimum (n ∷ ns) = some (elim (minimum ns) [ none ↦ n | some m ↦ min n m ])

module _ (F : Float) where
  open F use {Carrier, zero, one, le}

  -- The `max_flows` of the thresholds that the pressure has reached.
  unfoldable pub matching : Carrier → List (KvPressureThreshold F) → List ℕ
  matching pressure [] = []
  matching pressure (t ∷ ts) =
      if le t.at pressure then t.max_flows ∷ matching pressure ts else matching pressure ts

  unfoldable pub effective_max : KvPressure F → ℕ → Carrier → ℕ
  unfolding matching minimum
  effective_max config max_active_flows pressure =
      if config.enabled
      then from_option max_active_flows (elim (minimum (matching pressure config.thresholds)) [
        | none ↦ none
        | some m ↦ some (min m max_active_flows)
      ])
      else max_active_flows

  -- The pressure of the latest snapshot's `kv_usage`, if there is one.
  unfoldable pub pressure : Option Carrier → Carrier
  pressure kv_usage =
      from_option zero (elim kv_usage [ none ↦ none | some u ↦ some (clamp F zero one u) ])

  unfoldable pub effective : KvPressure F → Option Carrier → ℕ → ℕ
  unfolding effective_max pressure
  effective config kv_usage max_active_flows =
      effective_max config max_active_flows (pressure kv_usage)
