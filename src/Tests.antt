-- ===== src/Tests.antt =====
-- Runs at concrete inputs of the hub and of the uplink.
mod Data
mod HubRuns
mod ReceiverRuns
mod UplinkRuns
mod AgentRuns
mod ReducerRuns
mod NodeRuns
