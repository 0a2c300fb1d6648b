-- ===== src/Scheduler/KvBias.antt =====
-- The KV-aware bias of the selection (src/scheduler/kv_bias.rs).
pub mod Laws
use tinyllb.Prelude.{
  ℕ, ◌≡◌, refl, Bool, true, false, not, ◌||◌, Option, none, some, List, [], ◌∷◌, if◌then◌else◌,
}
use tinyllb.Prelude.Float.{Float, max}
use tinyllb.Flow.Id.{FlowId}
use tinyllb.Scheduler.Priority.{FlowCandidate, select_best, cmp_fair, is_lt}

-- `config::KvBias`
pub record KvBias (F : Float) : Type 0 where
  pub enabled : Bool
  pub bias_full_at : F.Carrier
  pub pressure_below : F.Carrier

module _ (F : Float) where
  open F use {Carrier, zero, one, epsilon, lt, le, sub, mul, div, abs}

  unfoldable pub bias_weight : KvBias F → Carrier → Carrier
  bias_weight config pressure =
      let lo = max F config.pressure_below zero in
      let hi = max F config.bias_full_at lo in
      if le pressure lo
      then zero
      else if le hi pressure
      then one
      else div (sub pressure lo) (sub hi lo)

  unfoldable pub max_footprint : Carrier → List (FlowCandidate F) → Carrier
  max_footprint acc [] = acc
  max_footprint acc (c ∷ cs) = max_footprint (max F acc c.kv_footprint) cs

  -- Whether a candidate with its score replaces the best so far with its score.
  unfoldable pub is_better : FlowCandidate F → Carrier → FlowCandidate F → Carrier → Bool
  is_better cand score best best_score =
      if lt epsilon (abs (sub score best_score))
      then lt best_score score
      else is_lt (cmp_fair F cand best)

  unfoldable pub best_scored :
      Carrier → Carrier → FlowCandidate F → Carrier → List (FlowCandidate F) → FlowCandidate F
  unfolding is_better
  best_scored weight top best best_score [] = best
  best_scored weight top best best_score (cand ∷ cands) =
      let score = mul weight (div cand.kv_footprint top) in
      let better = is_better cand score best best_score in
      best_scored weight top (if better then cand else best) (if better then score else best_score)
        cands

  unfoldable pub select_scored : Carrier → Carrier → List (FlowCandidate F) → Option FlowId
  unfolding best_scored
  select_scored weight top [] = none
  select_scored weight top (cand ∷ cands) =
      some (best_scored weight top cand (mul weight (div cand.kv_footprint top)) cands).flow_id

  unfoldable pub is_empty : List (FlowCandidate F) → Bool
  is_empty [] = true
  is_empty (c ∷ cs) = false

  unfoldable pub select : KvBias F → List (FlowCandidate F) → Carrier → Option FlowId
  unfolding bias_weight max_footprint select_scored is_empty
  select config candidates pressure =
      let weight = if config.enabled then bias_weight config pressure else zero in
      if le weight zero || is_empty candidates
      then select_best F candidates
      else (let top = max_footprint zero candidates in
          if le top zero then select_best F candidates else select_scored weight top candidates)
