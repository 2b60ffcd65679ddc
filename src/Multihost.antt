-- ===== src/Multihost.antt =====
-- internal/multihost: the pull model, in which a hub reads the public state of configured peers.
pub mod Peers
pub mod Poller
pub mod Honest
pub mod Shown
