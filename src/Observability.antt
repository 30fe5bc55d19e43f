-- ===== src/Observability.antt =====
-- app/observability: the metrics, their percentiles and the event bus, as plain state.
pub mod Window
pub mod Percentiles
pub mod Metrics
pub mod DbMetrics
pub mod Events
pub mod Counting
pub mod FanOut
pub mod Fifo
pub mod Lifespan
