-- ===== src/Tests/Drr.antt =====
-- Concrete runs of the DRR scheduler and of requests (src/scheduler/drr.rs,
-- src/scheduler/lifecycle.rs).
use tinyllb.Prelude.{
  not, ◌==◌, ◌≤◌, ◌≡◌, refl, true, false, none, some, [], ◌∷◌, arith, if◌then◌else◌, bytes_eq,
  nat_eq, bytes_beq, from_option,
}
use tinyllb.Prelude.Int.{pos, ◌-ℤ◌, ◌+ℤ◌}
use tinyllb.Prelude.Lists.{length, keep_if}
use tinyllb.Prelude.Words.{u32_mod, add_i64, wrap_i64}
use tinyllb.Prelude.Float.{scaled}
use tinyllb.Prelude.Table.{lookup}
use tinyllb.Flow.Id.{FlowId}
use tinyllb.Flow.Registry
use tinyllb.Prelude.Table
use tinyllb.Prelude.Words
use tinyllb.Scheduler.Priority
use tinyllb.Scheduler.Drr.Select
use tinyllb.Flow.Registry.{FlowRegistry, new_registry, new_flow}
use tinyllb.Scheduler.Events.{Metrics}
use tinyllb.Scheduler.KvBias
use tinyllb.Scheduler.KvBias.{KvBias}
use tinyllb.Scheduler.KvBias.Laws.{select-IsCandidate}
use tinyllb.Scheduler.Drr.State.{Shared, Env, Selection}
use tinyllb.Scheduler.Drr.Serve.{IsWellFormed, Serves}
use tinyllb.Scheduler.Drr.Select.{try_select}
use tinyllb.Scheduler.Drr.Starvation.{try_select-starved}
use tinyllb.Scheduler.Drr.Total.{SelectsOne, Round, try_select-total}
use tinyllb.Scheduler.Drr.Queues.{cancel_pending-own}
use tinyllb.Scheduler.Drr.Admit.{credit, guard_new, granted, enqueue, cancel_pending, loop_turn}
use tinyllb.Scheduler.Drr.System.{finds, arrives, Reachable, starts, steps, queues, start, IsSound}
use tinyllb.Scheduler.Drr.Turns.{Turned, loop_turn-total}
use tinyllb.Scheduler.Drr.Safety.{Reachable-IsSound, granted-cap}
use tinyllb.Scheduler.Lifecycle.{World}
use tinyllb.Scheduler.Lifecycle.Credit.{credit_of, request, request-charge}

abbrev erin : FlowId
erin = 101 ∷ []

abbrev registry : FlowRegistry scaled
registry = new_registry scaled (pos 100000) 10

abbrev no_metrics : Metrics
no_metrics = record { active_flows = pos 0; log = [] }

-- The scheduler before its first request.
abbrev idle : Shared scaled
idle = (start scaled registry no_metrics 2).shared

-- One request of 50 tokens waits.
abbrev queued : Shared scaled
queued = (enqueue erin 1 (pos 50000) (guard_new erin (credit erin 1 idle).0).0).0

abbrev bias : KvBias scaled
bias = record { enabled = false; bias_full_at = pos 900; pressure_below = pos 500 }

abbrev env : Env scaled
env = record {
  now = 5;
  unix = 5;
  starvation_timeout = 100;
  cap = 2;
  footprint = λ id. pos 0;
  select = λ cs. KvBias.select scaled bias cs (pos 0);
}

env-SelectsOne : SelectsOne scaled env
env-SelectsOne c cs = select-IsCandidate scaled bias c cs (pos 0)

queued-Reachable :
    Reachable scaled (start scaled registry no_metrics 2) (record { shared = queued; tickets = [] })
queued-Reachable =
    steps (steps (steps starts (finds erin 1)) (arrives erin)) (queues erin 1 (pos 50000))

Reachable-IsSound_example : IsSound scaled 2 (record { shared = queued; tickets = [] })
Reachable-IsSound_example =
    Reachable-IsSound scaled registry no_metrics 2 (omega arith) queued-Reachable

queued-IsWellFormed : IsWellFormed queued.drr
queued-IsWellFormed =
    (Reachable-IsSound scaled registry no_metrics 2 (omega arith) queued-Reachable).well_formed

try_select-total_example : Round scaled env queued
unfolding enqueue guard_new credit
try_select-total_example =
    try_select-total scaled env queued env-SelectsOne queued-IsWellFormed (omega arith)

-- The receiver of the ticket has gone.
loop_turn-total_example : Turned scaled env false false queued
unfolding enqueue guard_new credit
loop_turn-total_example =
    loop_turn-total scaled env false false queued env-SelectsOne queued-IsWellFormed (omega arith)

abbrev served : Selection scaled
served = record {
  flow_id = erin;
  pending = record { pending_id = 0; enqueued_at = 1; work_unit = pos 50000 };
}

-- The state after the turn that admits the request.
abbrev admitted_state : Shared scaled
admitted_state = elim (loop_turn scaled env false true queued) [ none ↦ queued | some r ↦ r.0 ]

turn_grants : loop_turn scaled env false true queued ≡ some (admitted_state, granted served)
unfolding guard_new credit loop_turn Select.try_select Select.fetch Select.serve Select.with_pending
    Select.scan_starved Select.is_starved Select.record_force_admit Select.accumulate
    Select.credit_entry Select.credit_flow Select.candidates Select.select_eligible Select.turn
    enqueue Registry.get_or_create Registry.touched Registry.put_flow Registry.modify_flow
    Table.lookup Table.insert Table.remove KvBias.select KvBias.bias_weight KvBias.select_scored
    KvBias.best_scored KvBias.is_better KvBias.max_footprint KvBias.is_empty Priority.select_best
    Priority.best_of Priority.replaces ◌+ℤ◌ ◌-ℤ◌ Words.add_i64 Words.sub_i64 Words.wrap_i64
turn_grants = refl

granted-cap_example : length (erin ∷ []) ≤ 2
granted-cap_example =
    granted-cap scaled registry no_metrics 2 env false true (omega arith) queued-Reachable
      env-SelectsOne (omega arith) turn_grants

cancel_pending-own_example :
    from_option [] (lookup erin (cancel_pending erin (some 0) queued.drr).waiting) ≡ (
      if bytes_beq erin erin
      then keep_if (λ p. not (p.pending_id == 0)) (from_option [] (lookup erin queued.drr.waiting))
      else from_option [] (lookup erin queued.drr.waiting))
cancel_pending-own_example = cancel_pending-own erin erin 0 queued.drr

-- The flow's estimate of 50 tokens has been taken from a credit of 0.
abbrev debited : World scaled
debited = record {
  shared = record idle {
    registry = record registry {
      flows =
          (erin, record (new_flow scaled erin (pos 100000) 10 5) { credit = pos 0 -ℤ pos 50 }) ∷ [];
    };
  };
  progress = some [];
}

request-charge_example :
    credit_of (request erin 50 (12 ∷ 8 ∷ []) true 9 debited).shared erin ≡ pos 0 -ℤ pos 20
unfolding lookup ◌-ℤ◌
request-charge_example =
    request-charge erin 50 (12 ∷ 8 ∷ []) true 9 debited (pos 0) (omega arith) (omega arith) refl
      (omega arith, omega arith)

-- The same request, when it has waited for longer than the timeout.
abbrev later : Env scaled
later = record env { now = 500 }

try_select-starved_example :
    (r : Shared scaled × Selection scaled) × (try_select scaled later queued
      ≡ some (r.0, some r.1, true))
    × (r.1.flow_id ≡ erin)
    × Serves queued.drr r.0.drr r.1
unfolding enqueue guard_new credit Registry.get_or_create Registry.touched Registry.put_flow
    Registry.modify_flow Table.lookup Table.insert
try_select-starved_example =
    try_select-starved scaled later queued erin queued-IsWellFormed (omega arith) (omega arith) refl
