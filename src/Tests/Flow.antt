-- ===== src/Tests/Flow.antt =====
-- Concrete flows, slots and arrivals (src/flow/mod.rs, src/flow/slots.rs, src/flow/cadence.rs).
use tinyllb.Prelude.{
  ℕ, ◌<◌, ◌≡◌, ◌≢◌, refl, true, false, some, List, [], ◌∷◌, arith, inl, ◌&&◌, bytes_eq, nat_eq,
}
use tinyllb.Prelude.Int.{pos}
use tinyllb.Prelude.Float.{scaled}
use tinyllb.Prelude.Table.{lookup}
use tinyllb.Flow.Id.{FlowId}
use tinyllb.Flow.Slots
use tinyllb.Flow.Slots.{Inner, is_free, assign, sweep_missing}
use tinyllb.Flow.Slots.Counts.{IsCounted}
use tinyllb.Flow.Slots.Assign.{assign_exclusive}
use tinyllb.Flow.Slots.Sweep.{Op, assigns, releases, sweeps, run, run-new-IsCounted}
use tinyllb.Flow.Registry.{Flow, FlowRegistry, new_flow, contains, queue_snapshot}
use tinyllb.Flow.Registry
use tinyllb.Flow.Registry.Reap
use tinyllb.Flow.Registry.Reap.{lookup-reap_idle, slots-reap_idle}
use tinyllb.Flow.Registry.Laws.{IsNumbered, ids, IsDistinct, waits, queue_snapshot_lem}
use tinyllb.Flow.Cadence
use tinyllb.Flow.Cadence.{
  CadenceState, cold, interactive, agentic_suspected, agentic_confirmed, PriorityPolicy, Cadence,
  CadenceRegistry, arrive,
}
use tinyllb.Flow.Cadence.Laws.{continue_all, continue_all_lem, classify_and_apply-priority}

abbrev alice : FlowId
alice = 97 ∷ []

abbrev bob : FlowId
bob = 98 ∷ []

-- One flow on slot 0.
abbrev one_taken : Inner
one_taken = record { assignments = (alice, 0) ∷ []; occupied = (0, 1) ∷ [] }

one_taken-IsCounted : IsCounted one_taken
unfolding Slots.Counts.holders lookup
one_taken-IsCounted = record { distinct = (refl, tt); counted = λ x. ground arith }

assign_exclusive_example :
    lookup alice (assign one_taken bob 2).0.assignments ≢ some (assign one_taken bob 2).1
unfolding lookup is_free
assign_exclusive_example =
    assign_exclusive one_taken bob alice 2 1 one_taken-IsCounted refl (omega arith) refl
      (λ e. ground arith)

full-lt : (x : ℕ) → x < 1 → is_free one_taken x ≡ false
unfolding is_free lookup
full-lt x h = ground arith

-- Two flows come, one goes, and a sweep follows.
abbrev calls : List Op
calls = assigns alice 2 ∷ assigns bob 2 ∷ releases alice ∷ sweeps (λ id. true) ∷ []

run-new-IsCounted_example : IsCounted (run Slots.new calls)
run-new-IsCounted_example = run-new-IsCounted calls (omega arith)

-- A registry with one idle flow, which holds slot 0.
abbrev idle_registry : FlowRegistry scaled
idle_registry = record {
  flows = (alice, new_flow scaled alice (pos 1000) 10 5) ∷ [];
  default_weight = pos 1000;
  default_priority = 10;
  slots = one_taken;
}

lookup-reap_idle_example :
    lookup alice (Registry.reap_idle idle_registry 10 100).0.flows
    ≡ Registry.Reap.kept 10 100 (lookup alice idle_registry.flows)
unfolding lookup
lookup-reap_idle_example = lookup-reap_idle idle_registry 10 100 alice (refl, tt)

queue_snapshot_lem_example :
    ((j : FlowId)
      → contains j (ids (queue_snapshot idle_registry 0 1 (alice ∷ bob ∷ [])).flows)
        ≡ contains j (alice ∷ bob ∷ []) && waits idle_registry j)
    × IsDistinct (ids (queue_snapshot idle_registry 0 1 (alice ∷ bob ∷ [])).flows)
    × IsNumbered 1 (queue_snapshot idle_registry 0 1 (alice ∷ bob ∷ [])).flows
queue_snapshot_lem_example = queue_snapshot_lem idle_registry 0 1 (alice ∷ bob ∷ [])

abbrev policy : PriorityPolicy
policy = record {
  enabled = true;
  idle_gap_threshold = 30;
  agentic_suspected_threshold = 2;
  agentic_confirmed_threshold = 4;
}

abbrev arrivals : List (ℕ × ℕ)
arrivals = (1, 1) ∷ (2, 2) ∷ (3, 3) ∷ []

continue_all_lem_example :
    ((continue_all policy (Cadence.new 0) arrivals).state ≡ agentic_suspected)
    × ((continue_all policy (Cadence.new 0) arrivals).continuous_arrival_count ≡ 3)
continue_all_lem_example =
    continue_all_lem policy (Cadence.new 0) arrivals
      (record { suspected = omega arith; confirmed = omega arith }) (inl refl) refl (omega arith)

abbrev suspected : Cadence
suspected = record {
  last_arrival = some 10;
  continuous_arrival_count = 3;
  state = agentic_suspected;
  last_seen = 10;
}

abbrev cadences : CadenceRegistry
cadences = record {
  inner = (alice, suspected) ∷ [];
  policy = policy;
  classes = record { interactive = 100; agent = 50; background = 10 };
}

classify_and_apply-priority_example :
    (Cadence.classify_and_apply cadences (new_flow scaled alice (pos 1000) 10 5) alice 11).1
    ≡ record (new_flow scaled alice (pos 1000) 10 5) {
      priority = Cadence.priority (Cadence.entry cadences alice 11).state cadences.classes;
    }
classify_and_apply-priority_example =
    classify_and_apply-priority cadences (new_flow scaled alice (pos 1000) 10 5) alice 11
