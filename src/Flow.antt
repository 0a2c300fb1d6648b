-- ===== src/Flow.antt =====
-- The flow module of the proxy (src/flow).
pub mod Id
pub mod Identify
pub mod Slots
pub mod Registry
pub mod Cadence
