-- ===== src/Scheduler/CompletionBias/Laws.antt =====
-- When the completion bias gate lets a request through (src/scheduler/completion_bias.rs).
use tinyllb.Prelude.{
  ◌≡◌, refl, Bool, false, not, ◌||◌, ◌==◌, is_some, List, [], ◌∷◌, ltb, Option-cases, inl, inr,
  arith,
}
use tinyllb.Prelude.Float.{Float}
use tinyllb.Flow.Registry.{Flow, is_active}
use tinyllb.Scheduler.Events.{Metrics, active_u32}
use tinyllb.Scheduler.Progress.{FlowProgressTracker}
use tinyllb.Scheduler.Drr.Select.{is_starved}
use tinyllb.Scheduler.CompletionBias.{
  CompletionBiasGate, Seen, near_done, maybe_force_admit, loop, check,
}

module _ (F : Float) (threshold : F.Carrier) where
  -- A round that ends the wait: the flow has starved, some flow is near done, or there is room.
  abbrev pub opens : CompletionBiasGate → Seen F → Bool
  opens g o =
      is_some (is_starved o.flow g.starvation_timeout o.now)
      || near_done F threshold g o.progress
      || ltb o.active g.target_active_flows

  abbrev pub any_opens : CompletionBiasGate → List (Seen F) → Bool
  any_opens g [] = false
  any_opens g (o ∷ os) = opens g o || any_opens g os

  loop-any_opens :
      (g : CompletionBiasGate) (os : List (Seen F)) (m : Metrics)
      → (loop F threshold g os m).1 ≡ any_opens g os
  unfolding loop maybe_force_admit
  loop-any_opens g [] m = refl
  loop-any_opens g (o ∷ os) m = elim (Option-cases (is_starved o.flow g.starvation_timeout o.now)) [
    | inr (w, y) ↦ ground (arith, y)
    | inl n ↦ ground (arith, n, loop-any_opens g os m)
  ]

  -- The gate lets a request through exactly if it is disabled, the flow is active, there is no
  -- target, the active flows are below it, some flow is near done, or a round of its wait finds the
  -- flow starved, a flow near done or the active flows below the target.
  pub check-any_opens :
      (g : CompletionBiasGate) (f : Flow F) (progress : FlowProgressTracker) (os : List (Seen F))
      (m : Metrics)
      → (check F threshold g f progress os m).1
        ≡ not g.enabled
          || is_active f
          || g.target_active_flows == 0
          || ltb (active_u32 m) g.target_active_flows
          || near_done F threshold g progress
          || any_opens g os
  unfolding check
  check-any_opens g f progress os m = ground (arith, loop-any_opens g os m)
