-- ===== src/Nftgate.antt =====
-- gateway/pkg/nftgate: sessions, their tokens, and the gate in front of the VPN endpoints.
pub mod Store
pub mod Token
pub mod Gate
pub mod Middleware
pub mod Access
