-- ===== src/State.antt =====
-- internal/state: the data that nodes and the hub share.
pub mod Enums
pub mod Public
pub mod Internal
pub mod Display
pub mod Root
pub mod Store
pub mod Projector
pub mod Acknowledge
