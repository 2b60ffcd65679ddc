-- ===== src/Uplink.antt =====
-- internal/uplink: the node's side of ingestion.
pub mod Client
pub mod SchedulerState
pub mod Scheduler
pub mod Actions
