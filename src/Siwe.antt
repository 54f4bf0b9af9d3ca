-- ===== src/Siwe.antt =====
-- gateway/pkg/siwe: sign-in with Ethereum.
pub mod Message
pub mod NonceStore
pub mod Service
