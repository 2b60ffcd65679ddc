-- ===== src/Agent.antt =====
-- internal/agent: the events of the coding agents and the tasks that they drive.
pub mod Events
pub mod Sanitize
pub mod Checkpoints
pub mod Tasks
pub mod Creation
pub mod Alerts
pub mod Reducer
