-- ===== src/Tests/Stores.antt =====
-- The theorems on nonces, nullifiers, tokens, sessions and limits at concrete inputs.
use sovereign_vpn.Base.{
  All, ◌+◌, ◌≤◌, ◌≡◌, refl, false, none, some, List, [], ◌∷◌, ◌==◌, nat_eq, text_eq, if◌then◌else◌,
  ℤ, arith,
}
use Prim.Native.Nat.{min}
use sovereign_vpn.Text.{text}
use sovereign_vpn.Clock.{add, after, before}
use sovereign_vpn.Map.{lookup, insert, kept}
use sovereign_vpn.Siwe.NonceStore
use sovereign_vpn.Siwe.NonceStore.SingleUse.{issued, accepted, accepted-le-issued}
use sovereign_vpn.Siwe.NonceStore.Lifetime.{consume-run-generate}
use sovereign_vpn.Anonauth.Nullifiers
use sovereign_vpn.Anonauth.Nullifiers.SingleUse.{consume_twice}
use sovereign_vpn.Ratelimit
use sovereign_vpn.Ratelimit.Window.{requested, allowed, allowed-min}
use sovereign_vpn.Nftcheck.Tier.{AccessTier, rank}
use sovereign_vpn.Nftcheck.Checker.{
  checked, query_tier, Query, CheckResult, check_vaults, check, cached, invalidate,
}
use sovereign_vpn.Nftcheck.Checker as Checks
use sovereign_vpn.Nftcheck.Checker.Cache.{chain_answer, Keeps}
use sovereign_vpn.Nftcheck.Checker.Vaults.{best_rank, rank-check_vaults, check-cached}
use sovereign_vpn.Nftgate.Store.{SessionStore, new_session_store, set, delete_by_id, cleanup}
use sovereign_vpn.Nftgate.Store.Invariant.{
  Consistent, Reach, empty, sets, deletes_id, Reach-Consistent,
}
use sovereign_vpn.Nftgate.Store.Effects.{set-exact, lookup-cleanup}
use sovereign_vpn.Tests.Fixtures.{noon, hour, alice, bob, alice_store, checker}

-- A nonce that is issued once and presented twice.
abbrev nonce_calls : List NonceStore.Call
nonce_calls =
    NonceStore.generates (some (text "n")) noon
    ∷ NonceStore.consumes (text "n") (noon + 1)
    ∷ NonceStore.consumes (text "n") (noon + 2)
    ∷ []

accepted-le-issued_example :
    accepted (NonceStore.new_nonce_store (ℤ.pos hour)) (text "n") nonce_calls
    ≤ issued (text "n") nonce_calls
accepted-le-issued_example = accepted-le-issued (ℤ.pos hour) (text "n") nonce_calls

consume-run-generate_example :
    (NonceStore.consume
      (NonceStore.run
        (NonceStore.generate (NonceStore.new_nonce_store (ℤ.pos hour)) (some (text "n")) noon).0
        (NonceStore.cleans (noon + 5) ∷ []))
      (text "n")
      (noon + 9)).1
    ≡ before (noon + 9) (add noon (NonceStore.new_nonce_store (ℤ.pos hour)).ttl)
consume-run-generate_example =
    consume-run-generate (NonceStore.new_nonce_store (ℤ.pos hour)) (text "n") noon (noon + 9)
      (NonceStore.cleans (noon + 5) ∷ []) (omega arith, tt)

consume_twice_example :
    (Nullifiers.consume
      (Nullifiers.run
        (Nullifiers.consume Nullifiers.new_nullifier_store (text "N") (ℤ.pos hour) noon).0
        (Nullifiers.cleans (noon + 5) ∷ Nullifiers.releases (text "M") ∷ []))
      (text "N")
      (ℤ.pos hour)
      (noon + 9)).1
    ≡ false
unfolding Nullifiers.consume Nullifiers.new_nullifier_store lookup
consume_twice_example =
    consume_twice Nullifiers.new_nullifier_store (text "N") (ℤ.pos hour) (ℤ.pos hour) noon
      (noon + 9) (Nullifiers.cleans (noon + 5) ∷ Nullifiers.releases (text "M") ∷ []) refl
      (omega arith, (ground (arith), tt)) (omega arith)

-- Two requests a minute.
abbrev limiter : Ratelimit.Limiter
limiter = record { limit = ℤ.pos 2; window = ℤ.pos 60_000_000_000; visitors = [] }

abbrev more_requests : List Ratelimit.Call
more_requests =
    Ratelimit.requests (text "1.2.3.4") (noon + 1)
    ∷ Ratelimit.cleans (noon + 2)
    ∷ Ratelimit.requests (text "1.2.3.4") (noon + 3)
    ∷ []

allowed-min_example :
    allowed limiter (text "1.2.3.4") (Ratelimit.requests (text "1.2.3.4") noon ∷ more_requests)
    ≡ min (requested (text "1.2.3.4") (Ratelimit.requests (text "1.2.3.4") noon ∷ more_requests)) 2
unfolding lookup
allowed-min_example =
    allowed-min limiter (text "1.2.3.4") noon 1 more_requests refl refl
      (omega arith, (omega arith, (omega arith, tt)))

-- Wallet 1 is denied, 2 pays, 3 is free, and any other query fails.
abbrev chain : Query
chain a =
    if a == 1
    then some AccessTier.denied
    else if a == 2
    then some AccessTier.paid
    else if a == 3
    then some AccessTier.free
    else none

rank-check_vaults_example :
    rank (check_vaults chain AccessTier.denied (2 ∷ 9 ∷ 3 ∷ 1 ∷ []))
    ≡ best_rank chain 0 (2 ∷ 9 ∷ 3 ∷ 1 ∷ [])
rank-check_vaults_example = rank-check_vaults chain AccessTier.denied (2 ∷ 9 ∷ 3 ∷ 1 ∷ [])

abbrev found : CheckResult
found = record { tier = AccessTier.free; checked_at = noon }

-- A chain that fails.
abbrev down : Query
down a = none

-- The calls between two checks of wallet 1.
abbrev other_checks : List Checks.Call
other_checks =
    Checks.checks down none 8 noon noon noon
    ∷ Checks.checks down none 1 (noon + 9) noon noon
    ∷ Checks.invalidates 2
    ∷ Checks.cleans (noon + hour)
    ∷ []

other_checks-Keeps : All (Keeps 1 (noon + hour)) other_checks
other_checks-Keeps = ((λ e. omega arith), ((λ e. omega arith), (omega arith, (omega arith, tt))))

-- Wallet 1 is still free when the hour is nearly over, and asked for again when it is.
check-cached_example :
    let c' = Checks.run (check chain (some (3 ∷ [])) checker 1 noon noon noon).0 other_checks in
    (some found ≡ chain_answer chain (some (3 ∷ [])) 1 noon)
    × (check down none c' 1 (noon + hour) noon noon
        ≡ checked c' 1 noon noon (query_tier down none 1))
    × ((check down none c' 1 (noon + hour) noon noon).1 ≡ none)
    × ((check down none (invalidate c' 1) 1 (noon + hour) noon noon).1 ≡ none)
unfolding cached check check_vaults lookup query_tier
check-cached_example =
    check-cached chain down (some (3 ∷ [])) none checker 1 noon noon noon other_checks (noon + hour)
      noon noon found refl refl other_checks-Keeps

abbrev reached : SessionStore
reached = set new_session_store alice

alice-Reach : Reach reached
unfolding lookup new_session_store
alice-Reach = sets empty alice refl

alice-Consistent : Consistent reached
alice-Consistent = Reach-Consistent alice-Reach

Reach-Consistent_example : Consistent (delete_by_id reached (text "a1"))
Reach-Consistent_example = Reach-Consistent (deletes_id alice-Reach (text "a1"))

set-exact_example : lookup (text "a1") (set reached (record bob { address = 7 })).sessions ≡ none
unfolding set lookup new_session_store insert
set-exact_example = set-exact reached alice-Consistent (record bob { address = 7 }) (text "a1") refl

lookup-cleanup_example :
    lookup (text "a1") (cleanup alice_store (noon + hour + 1)).sessions
    ≡ kept (λ s. after (noon + hour + 1) s.expires_at) (lookup (text "a1") alice_store.sessions)
lookup-cleanup_example = lookup-cleanup alice_store (noon + hour + 1) (text "a1")
