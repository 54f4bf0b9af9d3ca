-- ===== src/Nftcheck.antt =====
-- gateway/pkg/nftcheck: access tiers and the caching access checkers.
pub mod Tier
pub mod Checker
pub mod Direct
