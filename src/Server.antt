-- ===== src/Server.antt =====
-- gateway/pkg/server: the gateway's HTTP handlers over its components.
pub mod Start
pub mod State
pub mod Nodes
pub mod Payout
pub mod Peers
pub mod Tier
pub mod Signals
pub mod Policy
pub mod Auth
pub mod Connect
pub mod Anonymous
pub mod Disconnect
pub mod Revoker
pub mod Status
pub mod Lockout
