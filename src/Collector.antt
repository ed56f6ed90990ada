-- ===== src/Collector.antt =====
-- trace/collector.go: the interface `Collector`, with the state of the collector passed on.
pub mod Run
pub mod SampledErrors
use observability_cli.Net.{Traffic, Error}

pub record Collector (S : Type 0) : Type 0 where
  pub process : S → Traffic → S × Error
  pub close : S → S × Error
