-- ===== src/Wireguard.antt =====
-- gateway/pkg/wireguard/manager.go: the client address pool and the peers.
pub mod Pool
pub mod Manager
