-- ===== src/Scheduler/Priority.antt =====
-- Selection among eligible flows (src/scheduler/priority.rs).
pub mod Laws
use Prim.Native.Nat.{compare, Ordering}
use tinyllb.Prelude.{
  ℕ, ◌≡◌, refl, Bool, true, false, Option, none, some, List, [], ◌∷◌, ◌==◌, ltb, if◌then◌else◌,
}
use tinyllb.Prelude.Float.{Float, near}
use tinyllb.Flow.Id.{FlowId}

pub record FlowCandidate (F : Float) : Type 0 where
  pub flow_id : FlowId
  pub priority : ℕ
  -- an Instant, in nanoseconds
  pub enqueued_at : ℕ
  pub base_score : F.Carrier
  pub kv_footprint : F.Carrier

module _ (F : Float) where
  open F use {lt}

  -- Whether `cand` replaces the best so far.
  unfoldable pub replaces : FlowCandidate F → FlowCandidate F → Bool
  replaces cand best =
      if ltb best.priority cand.priority
      then true
      else if cand.priority == best.priority
      then (if lt cand.base_score best.base_score
          then true
          else if near F cand.base_score best.base_score
          then ltb cand.enqueued_at best.enqueued_at
          else false)
      else false

  unfoldable pub best_of : FlowCandidate F → List (FlowCandidate F) → FlowCandidate F
  unfolding replaces
  best_of best [] = best
  best_of best (cand ∷ cands) = best_of (if replaces cand best then cand else best) cands

  unfoldable pub select_best : List (FlowCandidate F) → Option FlowId
  unfolding best_of
  select_best [] = none
  select_best (cand ∷ cands) = some (best_of cand cands).flow_id

  -- `Ordering::reverse` and `Ordering::then_with`
  abbrev reversed : Ordering → Ordering
  reversed Ordering.lt = Ordering.gt
  reversed Ordering.eq = Ordering.eq
  reversed Ordering.gt = Ordering.lt

  abbrev then_with : Ordering → Ordering → Ordering
  then_with Ordering.lt o = Ordering.lt
  then_with Ordering.eq o = o
  then_with Ordering.gt o = Ordering.gt

  unfoldable pub cmp_fair : FlowCandidate F → FlowCandidate F → Ordering
  cmp_fair a b =
      then_with
        (then_with (reversed (compare a.priority b.priority)) (
          if near F a.base_score b.base_score
          then Ordering.eq
          else if lt a.base_score b.base_score
          then Ordering.lt
          else Ordering.gt))
        (compare a.enqueued_at b.enqueued_at)

-- `Ordering::is_lt`
abbrev pub is_lt : Ordering → Bool
is_lt Ordering.lt = true
is_lt Ordering.eq = false
is_lt Ordering.gt = false
