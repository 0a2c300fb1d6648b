-- ===== src/Tests.antt =====
-- Concrete runs of the model, one for each theorem that has hypotheses.
pub mod Flow
pub mod Scheduler
pub mod Drr
pub mod Facade
pub mod Json
pub mod Gateway
pub mod Backend
pub mod Metric
pub mod Admission
pub mod Handler
