-- ===== src/Nftgate/Access.antt =====
-- The operations of `Gate` of gateway/pkg/nftgate/middleware.go that call its checker, and those
-- that read or start it.
use sovereign_vpn.Base.{ℕ, Option, none, some, List}
use sovereign_vpn.Clock.{Time, Duration}
use sovereign_vpn.Nftcheck.Tier.{AccessTier}
use sovereign_vpn.Nftcheck.Checker
use sovereign_vpn.Nftcheck.Checker.{Checker, CheckResult, Query}
use sovereign_vpn.Nftgate.Store.{Address, new_session_store, store_len}
use sovereign_vpn.Nftgate.Gate.{Gate}

-- `NewGate`; the random signing key is part of the keyed signature, a parameter.
unfoldable pub new_gate : Duration → Gate
unfolding new_session_store
new_gate cred_ttl = record { cred_ttl = cred_ttl; store = new_session_store }

tier_of_check : Checker × Option CheckResult → Checker × Option AccessTier
tier_of_check (c, none) = (c, none)
tier_of_check (c, some result) = (c, some result.tier)

unfoldable pub check_access :
    Query
    → Option (List Address)
    → Checker
    → Address
    → Time
    → Time
    → Time
    → Checker × Option AccessTier
unfolding tier_of_check Checker.check
check_access query vaults c wallet read_at checked_at stored_at =
    tier_of_check (Checker.check query vaults c wallet read_at checked_at stored_at)

abbrev pub invalidate_cache : Checker → Address → Checker
invalidate_cache c wallet = Checker.invalidate c wallet

unfoldable pub active_session_count : Gate → ℕ
active_session_count g = store_len g.store
