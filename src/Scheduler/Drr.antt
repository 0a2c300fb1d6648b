-- ===== src/Scheduler/Drr.antt =====
-- The deficit round robin scheduler (src/scheduler/drr.rs).
pub mod State
pub mod Select
pub mod Frames
pub mod Serve
pub mod Rounds
pub mod Total
pub mod Admit
pub mod Queues
pub mod System
pub mod Starvation
pub mod Turns
pub mod Safety
pub mod Admission
