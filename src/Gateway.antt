-- ===== src/Gateway.antt =====
-- The gateway (src/gateway/): the framing and the classification of backend streams, and the retries.
pub mod Json
pub mod Frames
pub mod Classify
pub mod Backoff
pub mod Stream
pub mod Headers
pub mod Body
pub mod Forward
pub mod Metric
pub mod Handler
