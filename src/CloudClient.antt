-- ===== src/CloudClient.antt =====
-- daemon/internal/cloud_client: the main goroutine of the daemon, which keeps the services, their
-- traces, and the clients that wait for news. The goroutine handles one event at a time.
pub mod State
pub mod Handlers
pub mod Events
pub mod Answers
pub mod Conservation
pub mod Answered
pub mod Channels
pub mod ClosedOnce
pub mod Needed
pub mod Invariant
pub mod Total
pub mod Runs
pub mod Examples
