-- ===== src/Scheduler/Progress.antt =====
-- Per-flow token progress (src/scheduler/flow_progress.rs). The two `i64` sums wrap; an `f64` is the
-- interface's.
pub mod Laws
use tinyllb.Prelude.{
  ℕ, ◌≡◌, refl, Bool, true, false, not, ◌&&◌, ◌||◌, Option, none, some, List, [], ◌∷◌,
  if◌then◌else◌, from_option, bytes_eq,
}
use tinyllb.Prelude.Int.{ℤ, pos, ltb_ℤ, eqb_ℤ}
use tinyllb.Prelude.Words.{add_i64, saturating_sub_i64}
use tinyllb.Prelude.Float.{Float}
use tinyllb.Prelude.Table.{lookup, insert, remove}
use tinyllb.Flow.Id.{FlowId}

pub record ProgressEntry : Type 0 where
  pub estimated : ℤ
  pub delivered : ℤ

abbrev pub FlowProgressTracker : Type 0
FlowProgressTracker = List (FlowId × ProgressEntry)

abbrev pub fresh : ProgressEntry
fresh = record { estimated = pos 0; delivered = pos 0 }

unfoldable pub register : FlowId → ℤ → FlowProgressTracker → FlowProgressTracker
register id estimated t =
    let e = from_option fresh (lookup id t) in
    insert id (record e { estimated = add_i64 e.estimated estimated }) t

unfoldable pub update_delivered : FlowId → ℤ → FlowProgressTracker → FlowProgressTracker
update_delivered id delta t = elim (lookup id t) [
  | none ↦ t
  | some e ↦ insert id (record e { delivered = add_i64 e.delivered delta }) t
]

unfoldable pub unregister : FlowId → ℤ → ℤ → FlowProgressTracker → FlowProgressTracker
unregister id estimated delivered t = elim (lookup id t) [
  | none ↦ t
  | some e ↦
      let new_est = saturating_sub_i64 e.estimated estimated in
      let new_del = saturating_sub_i64 e.delivered delivered in
      if eqb_ℤ new_est (pos 0) && eqb_ℤ new_del (pos 0)
      then remove id t
      else insert id (record { estimated = new_est; delivered = new_del }) t
]

unfoldable pub delivered_for : FlowId → FlowProgressTracker → ℤ
delivered_for id t = elim (lookup id t) [ none ↦ pos 0 | some e ↦ e.delivered ]

module _ (F : Float) where
  open F use {Carrier, le, div, of_ℤ}

  -- delivered / estimated ≥ threshold, for a flow with an estimate
  unfoldable pub reaches : Carrier → ProgressEntry → Bool
  reaches threshold e =
      ltb_ℤ (pos 0) e.estimated && le threshold (div (of_ℤ e.delivered) (of_ℤ e.estimated))

  unfoldable pub is_near_done : FlowId → Carrier → FlowProgressTracker → Bool
  unfolding reaches
  is_near_done id threshold t = elim (lookup id t) [ none ↦ false | some e ↦ reaches threshold e ]

  unfoldable pub any_flow_near_done : Carrier → FlowProgressTracker → Bool
  unfolding reaches
  any_flow_near_done threshold [] = false
  any_flow_near_done threshold ((id, e) ∷ t) = reaches threshold e || any_flow_near_done threshold t
