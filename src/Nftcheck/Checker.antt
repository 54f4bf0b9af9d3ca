-- ===== src/Nftcheck/Checker.antt =====
-- The caching checkers of gateway/pkg/nftcheck: `Checker` of checker.go and `DirectChecker` of
-- direct.go have the same cache and the same loop over delegated vaults, and differ in the chain
-- query that they make.
pub mod Cache
pub mod Vaults
use sovereign_vpn.Base.{
  ℕ, Bool, true, false, ◌&&◌, Option, none, some, List, [], ◌∷◌, ◌==◌, nat_eq, if◌then◌else◌, ltb,
}
use sovereign_vpn.Clock.{Time, Duration, add, before, after}
use sovereign_vpn.Map.{Map, lookup, insert, delete, sweep}
use sovereign_vpn.Nftcheck.Tier.{AccessTier, rank, tier_eq}

abbrev pub Address : Type 0
Address = ℕ

pub record CheckResult : Type 0 where
  pub tier : AccessTier
  pub checked_at : Time

pub record CacheEntry : Type 0 where
  pub result : CheckResult
  pub expires_at : Time

pub record Checker : Type 0 where
  pub cache_ttl : Duration
  pub cache : Map Address CacheEntry

-- The switch of `checkOnChain` on the contract's two answers.
unfoldable pub tier_of_access : Bool → Bool → AccessTier
tier_of_access access free =
    if free then AccessTier.free else if access then AccessTier.paid else AccessTier.denied

-- A chain query: the tier of a wallet, `none` where the call fails.
abbrev pub Query : Type 0
Query = Address → Option AccessTier

better : AccessTier → Option AccessTier → AccessTier
better tier none = tier
better tier (some vault_tier) = if ltb (rank tier) (rank vault_tier) then vault_tier else tier

-- The loop over the vaults: errors are passed over, and the best tier ends it.
unfoldable pub check_vaults : Query → AccessTier → List Address → AccessTier
unfolding better
check_vaults query tier [] = tier
check_vaults query tier (vault ∷ vaults) =
    let best = better tier (query vault) in
    let rest = check_vaults query best vaults in
    elim (query vault) [ none ↦ rest | some _ ↦ if best == AccessTier.free then best else rest ]

with_vaults : Query → Option (List Address) → AccessTier → AccessTier
with_vaults query none tier = tier
with_vaults query (some vaults) tier =
    if tier == AccessTier.denied then check_vaults query tier vaults else tier

fresh_entry : Time → Option CacheEntry → Option CheckResult
fresh_entry now none = none
fresh_entry now (some e) = if before now e.expires_at then some e.result else none

-- The answer of the cache at a reading of the clock, the first critical section of `Check`.
unfoldable pub cached : Checker → Address → Time → Option CheckResult
unfolding fresh_entry
cached c wallet now = fresh_entry now (lookup wallet c.cache)

-- The last critical section of `Check`.
unfoldable pub store_result : Checker → Address → CheckResult → Time → Checker
store_result c wallet result now = record c {
  cache = insert wallet (record { result = result; expires_at = add now c.cache_ttl }) c.cache;
}

-- The chain part of `Check`, between the sections; `vaults` are what the delegation finder
-- returns, `none` where no finder is configured.
unfoldable pub query_tier : Query → Option (List Address) → Address → Option AccessTier
unfolding with_vaults
query_tier query vaults wallet = elim (query wallet) [
  | none ↦ none
  | some tier ↦ some (with_vaults query vaults tier)
]

unfoldable pub checked :
    Checker → Address → Time → Time → Option AccessTier → Checker × Option CheckResult
checked c wallet checked_at stored_at none = (c, none)
checked c wallet checked_at stored_at (some tier) =
    let result : CheckResult = record { tier = tier; checked_at = checked_at } in
    (store_result c wallet result stored_at, some result)

unfoldable pub check_miss :
    Query
    → Option (List Address)
    → Checker
    → Address
    → Time
    → Time
    → Option CheckResult
    → Checker × Option CheckResult
unfolding query_tier checked
check_miss query vaults c wallet checked_at stored_at (some result) = (c, some result)
check_miss query vaults c wallet checked_at stored_at none =
    checked c wallet checked_at stored_at (query_tier query vaults wallet)

-- `Check`, with no other section in between: its three readings of the clock in their order.
unfoldable pub check :
    Query
    → Option (List Address)
    → Checker
    → Address
    → Time
    → Time
    → Time
    → Checker × Option CheckResult
unfolding check_miss
check query vaults c wallet read_at checked_at stored_at =
    check_miss query vaults c wallet checked_at stored_at (cached c wallet read_at)

unfoldable pub invalidate : Checker → Address → Checker
invalidate c wallet = record c { cache = delete wallet c.cache }

-- One tick of the cleanup routine.
unfoldable pub cleanup : Checker → Time → Checker
cleanup c now = record c { cache = sweep (λ e. after now e.expires_at) c.cache }

-- Sequences of whole calls and ticks of the cleanup routine.
pub data Call : Type 0 where
  checks : Query → Option (List Address) → Address → Time → Time → Time → Call
  invalidates : Address → Call
  cleans : Time → Call

unfoldable pub step : Checker → Call → Checker
unfolding check invalidate cleanup
step c (checks query vaults wallet read_at checked_at stored_at) =
    (check query vaults c wallet read_at checked_at stored_at).0
step c (invalidates wallet) = invalidate c wallet
step c (cleans now) = cleanup c now

unfoldable pub run : Checker → List Call → Checker
unfolding step
run c [] = c
run c (call ∷ calls) = run (step c call) calls
