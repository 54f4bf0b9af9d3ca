-- ===== src/Anonauth.antt =====
-- gateway/pkg/anonauth: anonymous challenges and nullifiers.
pub mod Challenges
pub mod Nullifiers
pub mod Service
