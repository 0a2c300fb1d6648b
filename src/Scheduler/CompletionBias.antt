-- ===== src/Scheduler/CompletionBias.antt =====
-- The completion bias gate (src/scheduler/completion_bias.rs): a request of a flow that is not
-- active waits while the active flows are at the target.
pub mod Laws
use tinyllb.Prelude.{
  ℕ, ◌≡◌, refl, Bool, true, false, not, ◌&&◌, ◌==◌, Option, none, some, List, [], ◌∷◌,
  if◌then◌else◌, ltb,
}
use tinyllb.Prelude.Float.{Float}
use tinyllb.Flow.Registry.{Flow, is_active}
use tinyllb.Scheduler.Events.{Metrics, active_u32}
use tinyllb.Scheduler.Progress.{FlowProgressTracker, any_flow_near_done}
use tinyllb.Scheduler.Drr.Select.{is_starved, record_force_admit}

pub record CompletionBiasGate : Type 0 where
  pub enabled : Bool
  pub target_active_flows : ℕ
  pub predictive_admit : Bool
  pub starvation_timeout : ℕ

-- The target of 0 stands for all active flows.
unfoldable pub new : Bool → ℕ → Bool → ℕ → ℕ → CompletionBiasGate
new enabled target_active_flows predictive_admit max_active_flows starvation_timeout = record {
  enabled = enabled;
  target_active_flows = if target_active_flows == 0 then max_active_flows else target_active_flows;
  predictive_admit = predictive_admit;
  starvation_timeout = starvation_timeout;
}

-- What a waiting request finds in one round of its loop: the clock, its flow and the tracker, and
-- the active flows after the wake-up that ends the round.
pub record Seen (F : Float) : Type 0 where
  pub now : ℕ
  pub flow : Flow F
  pub progress : FlowProgressTracker
  pub active : ℕ

-- `threshold` is PREDICTIVE_ADMIT_THRESHOLD.
module _ (F : Float) (threshold : F.Carrier) where
  unfoldable pub near_done : CompletionBiasGate → FlowProgressTracker → Bool
  near_done g t = g.predictive_admit && any_flow_near_done F threshold t

  -- `maybe_force_admit`
  unfoldable pub maybe_force_admit : CompletionBiasGate → ℕ → Flow F → Metrics → Metrics × Bool
  maybe_force_admit g now f m = elim (is_starved f g.starvation_timeout now) [
    | none ↦ (m, false)
    | some wait ↦ (record_force_admit f.id wait m, true)
  ]

  -- The waiting loop over the rounds that take place; `false` is a request that still waits.
  unfoldable pub loop : CompletionBiasGate → List (Seen F) → Metrics → Metrics × Bool
  loop g [] m = (m, false)
  loop g (o ∷ os) m =
      let (m', forced) = maybe_force_admit g o.now o.flow m in
      let rest = loop g os m' in
      if forced
      then (m', true)
      else if near_done g o.progress
      then (m', true)
      else if ltb o.active g.target_active_flows
      then (m', true)
      else rest

  -- `check`: the tests before the loop, then the loop.
  unfoldable pub check :
      CompletionBiasGate → Flow F → FlowProgressTracker → List (Seen F) → Metrics → Metrics × Bool
  check g f progress os m =
      if not g.enabled
      then (m, true)
      else if is_active f
      then (m, true)
      else if g.target_active_flows == 0
      then (m, true)
      else if ltb (active_u32 m) g.target_active_flows
      then (m, true)
      else if near_done g progress
      then (m, true)
      else loop g os m
