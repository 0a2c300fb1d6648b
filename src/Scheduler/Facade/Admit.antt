-- ===== src/Scheduler/Facade/Admit.antt =====
-- The way of a request through the scheduler (src/scheduler/mod.rs, `admit_with_turn_boundary`): its
-- arrival, the KV gate, the stall gate and the admission by the DRR scheduler.
use tinyllb.Prelude.{ℕ, Bool, Option, List}
use tinyllb.Prelude.Float.{Float}
use tinyllb.Flow.Id.{FlowId}
use tinyllb.Scheduler.KvPolicy.{Gate, proceeds, rejected, parked, Wake, check, wait, leave_delay}
use tinyllb.Scheduler.Drr.Admission.{DrrConfig, Passage, Admission, abandoned, admit}
use tinyllb.Scheduler.Facade.{Scheduler, arrival, stall_gate}

-- What a request meets: the clocks, the KV pressure of the last snapshot, what it sees while it is
-- delayed, what others do until it goes on, the stall signal then, and the admission's own.
pub record Visit (F : Float) : Type 0 where
  pub now : ℕ
  pub unix : ℕ
  pub kv_usage : Option F.Carrier
  pub wakes : List (Wake F)
  pub meanwhile : Scheduler F → Scheduler F
  pub is_stalled : Bool
  pub passage : Passage F

module _ {F : Float} (threshold : F.Carrier) (mul_f64 : ℕ → F.Carrier → ℕ) (c : DrrConfig)
    (id : FlowId) (v : Visit F) where
  -- The arrival and the check of the KV gate.
  unfoldable pub enter_gate : Bool → Scheduler F → Scheduler F × Gate
  enter_gate is_turn_boundary s =
      let (s', is_interactive) = arrival id v.now v.unix is_turn_boundary s in
      let (policy, metrics, gate) =
        check F mul_f64 is_interactive v.kv_usage s'.kv_policy s'.shared.metrics in
      (record s' { shared = record (s'.shared) { metrics = metrics }; kv_policy = policy }, gate)

  -- The wait of a delayed request.
  unfoldable pub pass_gate : Scheduler F × Gate → Scheduler F × Gate
  pass_gate (s, proceeds) = (s, proceeds)
  pass_gate (s, rejected e) = (s, rejected e)
  pass_gate (s, parked) =
      let s' = v.meanwhile s in
      let (policy, gate) = wait F mul_f64 v.wakes s'.kv_policy in
      (record s' { kv_policy = policy }, gate)

  -- A request that is still delayed at the end of what it sees has been given up by its client.
  unfoldable pub past_gate : F.Carrier → Scheduler F → Gate → Scheduler F × Admission
  past_gate work_unit s (rejected e) = (s, Admission.rejected e)
  past_gate work_unit s parked =
      (record s { kv_policy = leave_delay F mul_f64 s.kv_policy }, abandoned)
  past_gate work_unit s proceeds =
      let (shared, outcome) = admit threshold c id v.passage mul_f64 work_unit s.shared in
      (record s { shared = shared }, outcome)

  unfoldable pub admit_with_turn_boundary : F.Carrier → Bool → Scheduler F → Scheduler F × Admission
  unfolding enter_gate pass_gate past_gate
  admit_with_turn_boundary work_unit is_turn_boundary s =
      let (s', gate) = pass_gate (enter_gate is_turn_boundary s) in
      past_gate work_unit s' (stall_gate v.is_stalled gate)
