-- ===== src/Trace.antt =====
-- trace/: the collectors that a trace is made of.
pub mod Telemetry
pub mod Stats
pub mod RateLimit
pub mod Tee
pub mod Sampling
pub mod Filters
pub mod Counting
pub mod ReportBuffer
pub mod BackendCollector
pub mod Examples
