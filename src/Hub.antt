-- ===== src/Hub.antt =====
-- internal/hub: the hub's side of node ingestion.
pub mod Validation
pub mod Registry
pub mod Store
pub mod Dashboard
pub mod Actions
pub mod Receiver
