-- ===== src/Scheduler/Backpressure.antt =====
-- Rejections and their Retry-After (src/scheduler/backpressure.rs, src/gateway/error.rs). A
-- Duration is a number of nanoseconds; `mul_f64` is the standard library's, a parameter here.
use tinyllb.Prelude.{ℕ, ◌==◌, if◌then◌else◌}
use tinyllb.Prelude.Float.{Float}

-- `config::BackpressureMode`
pub data BackpressureMode : Type 0 where
  blocking fail_fast hybrid : BackpressureMode

pub record BackpressureRejected : Type 0 where
  pub retry_after : ℕ

module _ (F : Float) (mul_f64 : ℕ → F.Carrier → ℕ) where
  open F use {Carrier, one, add, div, of_ℕ}

  -- retry_after_base * (1 + depth / max_queue_depth), with the ratio 2 for an unbounded queue
  unfoldable pub fail_fast_retry_after : ℕ → ℕ → ℕ → ℕ
  fail_fast_retry_after depth max_queue_depth retry_after_base =
      let ratio : Carrier =
        if max_queue_depth == 0 then of_ℕ 2 else div (of_ℕ depth) (of_ℕ max_queue_depth) in
      mul_f64 retry_after_base (add one ratio)
