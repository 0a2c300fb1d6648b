-- ===== src/Tests/Facade.antt =====
-- A concrete arrival at the scheduler (src/scheduler/mod.rs).
use tinyllb.Prelude.{◌≡◌, true, false, some, [], ◌∷◌, ◌==◌, bytes_eq}
use tinyllb.Prelude.Int.{pos}
use tinyllb.Prelude.Float.{scaled}
use tinyllb.Prelude.Table.{lookup}
use tinyllb.Flow.Id.{FlowId}
use tinyllb.Flow.Registry.{Flow, new_registry}
use tinyllb.Flow.Cadence.{agentic_suspected}
use tinyllb.Scheduler.Backpressure.{hybrid}
use tinyllb.Scheduler.Drr.State.{new_state}
use tinyllb.Scheduler.Facade.{Scheduler, arrival}
use tinyllb.Scheduler.Facade.Laws.{priority_after, lookup-arrival}

abbrev frank : FlowId
frank = 102 ∷ []

abbrev scheduler : Scheduler scaled
scheduler = record {
  shared = record {
    drr = new_state scaled 2;
    registry = new_registry scaled (pos 1000) 10;
    waiting_queue = [];
    metrics = record { active_flows = pos 0; log = [] };
  };
  cadence = record {
    inner =
        (
          frank,
          record {
            last_arrival = some 10;
            continuous_arrival_count = 3;
            state = agentic_suspected;
            last_seen = 10;
          },
        )
        ∷ [];
    policy = record {
      enabled = true;
      idle_gap_threshold = 30;
      agentic_suspected_threshold = 2;
      agentic_confirmed_threshold = 4;
    };
    classes = record { interactive = 100; agent = 50; background = 10 };
  };
  kv_policy = record {
    enabled = false;
    reject_threshold = pos 950;
    delay_threshold = pos 850;
    bypass_interactive = true;
    backpressure_mode = hybrid;
    retry_after_base = 1000000000;
    max_queue_depth = 16;
    delayed_count = 0;
  };
  interactive_priority = 100;
}

lookup-arrival_example :
    (f : Flow scaled) × (lookup frank (arrival frank 12 12 false scheduler).0.shared.registry.flows
      ≡ some f)
    × (f.priority ≡ priority_after scheduler frank 12 12 false)
    × ((arrival frank 12 12 false scheduler).1
        ≡ (priority_after scheduler frank 12 12 false == 100))
lookup-arrival_example = lookup-arrival scheduler frank 12 12 false
