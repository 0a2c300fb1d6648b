-- ===== src/Tests/Admission.antt =====
-- Concrete admissions (src/scheduler/drr.rs, src/scheduler/mod.rs).
use tinyllb.Prelude.{List, ◌≡◌, ◌≢◌, refl, true, false, some, [], ◌∷◌, arith, inr, bytes_eq}
use tinyllb.Prelude.Int.{pos}
use tinyllb.Prelude.Float.{scaled}
use tinyllb.Prelude.Table.{lookup, insert}
use tinyllb.Flow.Id.{FlowId}
use tinyllb.Flow.Registry.{
  FlowRegistry, new_registry, get_or_create, touched, put_flow, modify_flow,
}
use tinyllb.Scheduler.Backpressure.{hybrid}
use tinyllb.Scheduler.Events.{Metrics}
use tinyllb.Scheduler.CompletionBias
use tinyllb.Scheduler.Drr.State.{Shared}
use tinyllb.Scheduler.Drr.Admit.{credit, guard_new, enqueue}
use tinyllb.Scheduler.Drr.System.{State, Reachable, start, starts, steps, finds, arrives, queues}
use tinyllb.Scheduler.Drr.Safety.{Reachable-IsSound}
use tinyllb.Scheduler.Drr.Serve.{IsWellFormed}
use tinyllb.Scheduler.Drr.Admission.{
  DrrConfig, Passage, granted, ticket, admit, in_mode, admit_hybrid, wait_at_gate, time_out,
}
use tinyllb.Scheduler.Drr.Admission.Laws.{at}
use tinyllb.Scheduler.Drr.Admission.Restores.{Restores, admit-Restores}
use tinyllb.Scheduler.Facade.{Scheduler}
use tinyllb.Scheduler.Facade.Admit.{Visit, admit_with_turn_boundary}
use tinyllb.Scheduler.Facade.Gates.{gated, admit-turned_away}

abbrev pub gina : FlowId
gina = 103 ∷ []

abbrev pub registry : FlowRegistry scaled
registry = new_registry scaled (pos 1000) 10

abbrev pub no_metrics : Metrics
no_metrics = record { active_flows = pos 0; log = [] }

abbrev pub origin : State scaled
origin = start scaled registry no_metrics 2

-- One request of the flow waits.
abbrev pub waiting : Shared scaled
waiting = (enqueue gina 1 (pos 5000) (guard_new gina (credit gina 1 origin.shared).0).0).0

waiting-Reached : (l : List FlowId) × Reachable scaled origin (at scaled waiting l)
waiting-Reached =
    ([], steps (steps (steps starts (finds gina 1)) (arrives gina)) (queues gina 1 (pos 5000)))

waiting-IsWellFormed : IsWellFormed waiting.drr
waiting-IsWellFormed =
    (Reachable-IsSound scaled registry no_metrics 2 (omega arith) waiting-Reached.1).well_formed

abbrev pub config : DrrConfig
config = record {
  backpressure_mode = hybrid;
  max_queue_depth = 4;
  retry_after_base = 1000000000;
  completion_bias_gate = record {
    enabled = false;
    target_active_flows = 2;
    predictive_admit = false;
    starvation_timeout = 100;
  };
}

-- The wait for a ticket runs into the timer.
abbrev pub passage : Passage scaled
passage = record {
  enter = 2;
  unix = 2;
  progress = [];
  rounds = [];
  gives_up = false;
  at_gate = λ sh. sh;
  at_queue = λ sh. sh;
  timer_first = true;
  answer = ticket;
  now = 12;
}

abbrev pub visit : Visit scaled
visit = record {
  now = 2;
  unix = 2;
  kv_usage = some (pos 500);
  wakes = [];
  meanwhile = λ s. s;
  is_stalled = true;
  passage = passage;
}

-- The backend is not stalled.
abbrev pub open_visit : Visit scaled
open_visit = record visit { is_stalled = false }

abbrev pub scheduler : Scheduler scaled
scheduler = record {
  shared = waiting;
  cadence = record {
    inner = [];
    policy = record {
      enabled = true;
      idle_gap_threshold = 30;
      agentic_suspected_threshold = 2;
      agentic_confirmed_threshold = 4;
    };
    classes = record { interactive = 100; agent = 50; background = 10 };
  };
  kv_policy = record {
    enabled = false;
    reject_threshold = pos 950;
    delay_threshold = pos 850;
    bypass_interactive = true;
    backpressure_mode = hybrid;
    retry_after_base = 1000000000;
    max_queue_depth = 16;
    delayed_count = 0;
  };
  interactive_priority = 100;
}

timed_out : (admit (pos 800) config gina passage (λ n x. n) (pos 7000) waiting).1 ≢ granted
unfolding admit in_mode admit_hybrid wait_at_gate time_out CompletionBias.check
timed_out e = cc

admit-Restores_example :
    Restores waiting (admit (pos 800) config gina passage (λ n x. n) (pos 7000) waiting).0
unfolding enqueue guard_new credit get_or_create touched put_flow modify_flow lookup insert
admit-Restores_example =
    admit-Restores (pos 800) config gina passage waiting waiting-IsWellFormed (refl, tt)
      (omega arith) (λ sh. refl) (λ sh. refl) (λ n x. n) (pos 7000) timed_out

admit-turned_away_example :
    ((admit_with_turn_boundary (pos 800) (λ n x. n) config gina visit (pos 7000) true scheduler).1
      ≢ granted)
    × ((admit_with_turn_boundary
          (pos 800)
          (λ n x. n)
          config
          gina
          visit
          (pos 7000)
          true
          scheduler).0.shared
        ≡ (gated (pos 800) (λ n x. n) config gina visit true scheduler).0.shared)
admit-turned_away_example =
    admit-turned_away (pos 800) (λ n x. n) config gina visit (pos 7000) true scheduler (inr refl)
