-- ===== src/Scheduler.antt =====
-- The scheduler module of the proxy (src/scheduler).
pub mod Backpressure
pub mod Priority
pub mod KvBias
pub mod PressureCap
pub mod Events
pub mod Drr
pub mod Progress
pub mod Lifecycle
pub mod KvPolicy
pub mod CompletionBias
pub mod Facade
