-- ===== src/Tests/Scheduler.antt =====
-- Concrete runs of the policies and the gates (src/scheduler/).
use tinyllb.Prelude.{
  ℕ, ◌≡◌, refl, true, false, not, ◌||◌, some, List, [], ◌∷◌, map, arith, ◌==◌, ltb, bytes_eq,
  nat_eq,
}
use tinyllb.Prelude.Int.{ℤ, pos, ◌-ℤ◌, ◌+ℤ◌}
use tinyllb.Prelude.Float.{scaled}
use tinyllb.Prelude.Table
use tinyllb.Flow.Id.{FlowId}
use tinyllb.Flow.Registry.{Flow, new_flow, is_active}
use tinyllb.Scheduler.Backpressure.{blocking, hybrid}
use tinyllb.Scheduler.Events.{Metrics, active_u32}
use tinyllb.Scheduler.PressureCap.{KvPressure, effective_max}
use tinyllb.Scheduler.PressureCap.Laws.{allowed, effective_max-allowed}
use tinyllb.Scheduler.Priority.{select_best}
use tinyllb.Scheduler.Priority.Laws.{IsExact, Key, candidate, IsOneOf, IsFirst, select_best_lem}
use tinyllb.Scheduler.KvBias
use tinyllb.Scheduler.KvBias.{KvBias}
use tinyllb.Scheduler.KvBias.Laws.{select-equal_footprints}
use tinyllb.Scheduler.Progress.{FlowProgressTracker, register, update_delivered, unregister}
use tinyllb.Scheduler.Progress.Laws.{view, unregister-register}
use tinyllb.Scheduler.KvPolicy.{KvPolicy, Wake, published, timed_out}
use tinyllb.Scheduler.KvPolicy.Laws.{pass, counted, IsRejected, pass-delayed_count, pass-blocking}
use tinyllb.Scheduler.CompletionBias.{CompletionBiasGate, Seen, near_done, check}
use tinyllb.Scheduler.CompletionBias.Laws.{any_opens, check-any_opens}

abbrev carol : FlowId
carol = 99 ∷ []

abbrev dave : FlowId
dave = 100 ∷ []

abbrev pressure_config : KvPressure scaled
pressure_config = record {
  enabled = true;
  thresholds = record { at = pos 700; max_flows = 4 } ∷ record { at = pos 900; max_flows = 2 } ∷ [];
}

effective_max-allowed_example :
    effective_max scaled pressure_config 8 (pos 800)
    ≡ allowed scaled 8 (pos 800) pressure_config.thresholds
effective_max-allowed_example = effective_max-allowed scaled pressure_config 8 (pos 800) refl

pub scaled-IsExact : IsExact scaled
unfolding ◌-ℤ◌
scaled-IsExact = record { lt_lem = λ m n h k. ground arith; near_lem = λ m n h k. ground arith }

abbrev low : Key scaled
low = record { flow_id = carol; priority = 10; enqueued_at = 1; index = 0; kv_footprint = pos 0 }

abbrev high : Key scaled
high = record { flow_id = dave; priority = 50; enqueued_at = 2; index = 1; kv_footprint = pos 0 }

select_best_lem_example :
    (w : Key scaled) × (select_best scaled (map (candidate scaled) (low ∷ high ∷ []))
      ≡ some w.flow_id)
    × IsOneOf scaled w (low ∷ high ∷ [])
    × IsFirst scaled w (low ∷ high ∷ [])
select_best_lem_example =
    select_best_lem scaled scaled-IsExact low (high ∷ []) (omega arith, (omega arith, tt))

abbrev bias_config : KvBias scaled
bias_config = record { enabled = true; bias_full_at = pos 900; pressure_below = pos 500 }

self-near : (s : ℤ) → scaled.lt scaled.epsilon (scaled.abs (scaled.sub s s)) ≡ false
unfolding ◌-ℤ◌
self-near s = ground arith

select-equal_footprints_example :
    KvBias.select scaled bias_config (map (candidate scaled) (low ∷ high ∷ [])) (pos 700)
    ≡ select_best scaled (map (candidate scaled) (low ∷ high ∷ []))
select-equal_footprints_example =
    select-equal_footprints scaled scaled-IsExact bias_config (pos 0) (low ∷ high ∷ []) (pos 700)
      self-near (omega arith, (omega arith, tt)) (refl, (refl, tt))

abbrev tracker : FlowProgressTracker
tracker = (carol, record { estimated = pos 100; delivered = pos 40 }) ∷ []

unregister-register_example :
    view
      (unregister carol
        (pos 50)
        (pos 7)
        (update_delivered carol (pos 7) (register carol (pos 50) tracker)))
      carol
    ≡ view tracker carol
unfolding Table.lookup ◌+ℤ◌
unregister-register_example =
    unregister-register carol carol (pos 50) (pos 7) tracker (omega arith, omega arith)
      (omega arith, omega arith) (omega arith, omega arith) (omega arith, omega arith)

-- A Retry-After that does not scale.
abbrev keep : ℕ → ℤ → ℕ
keep base ratio = base

abbrev hybrid_gate : KvPolicy scaled
hybrid_gate = record {
  enabled = true;
  reject_threshold = pos 950;
  delay_threshold = pos 850;
  bypass_interactive = true;
  backpressure_mode = hybrid;
  retry_after_base = 1000000000;
  max_queue_depth = 16;
  delayed_count = 3;
}

abbrev blocking_gate : KvPolicy scaled
blocking_gate = record hybrid_gate { backpressure_mode = blocking }

abbrev wakes : List (Wake scaled)
wakes = published (pos 900) ∷ timed_out ∷ []

pass-delayed_count_example :
    (pass scaled keep false
      (some (pos 900))
      wakes
      hybrid_gate
      (record { active_flows = pos 0; log = [] })).0.delayed_count
    ≡ counted scaled keep
        (pass scaled keep false
          (some (pos 900))
          wakes
          hybrid_gate
          (record { active_flows = pos 0; log = [] })).1
        3
pass-delayed_count_example =
    pass-delayed_count scaled keep false (some (pos 900)) wakes hybrid_gate
      (record { active_flows = pos 0; log = [] }) (omega arith)

pass-blocking_example :
    ¬ IsRejected scaled keep
      (pass scaled keep false
        (some (pos 990))
        wakes
        blocking_gate
        (record { active_flows = pos 0; log = [] })).1
pass-blocking_example =
    pass-blocking scaled keep false (some (pos 990)) wakes blocking_gate
      (record { active_flows = pos 0; log = [] }) (omega arith) refl

abbrev gate : CompletionBiasGate
gate = record {
  enabled = true;
  target_active_flows = 2;
  predictive_admit = false;
  starvation_timeout = 100;
}

abbrev newcomer : Flow scaled
newcomer = new_flow scaled dave (pos 1000) 10 0

abbrev rounds : List (Seen scaled)
rounds =
    record { now = 500; flow = newcomer; progress = tracker; active = 2 }
    ∷ record { now = 900; flow = newcomer; progress = tracker; active = 1 }
    ∷ []

abbrev two_active : Metrics
two_active = record { active_flows = pos 2; log = [] }

check-any_opens_example :
    (check scaled (pos 900) gate newcomer tracker rounds two_active).1
    ≡ not gate.enabled
      || is_active newcomer
      || gate.target_active_flows == 0
      || ltb (active_u32 two_active) gate.target_active_flows
      || near_done scaled (pos 900) gate tracker
      || any_opens scaled (pos 900) gate rounds
check-any_opens_example = check-any_opens scaled (pos 900) gate newcomer tracker rounds two_active
