-- ===== src/Nftcheck/Direct.antt =====
-- `DirectChecker` of gateway/pkg/nftcheck/direct.go. Its cache and its loop over the delegated
-- vaults are those of `Checker`; its chain query asks the card contract for balances in batches.
-- The loop's `start`, `end` and `tokenID` are int64; a `start` or an `end` stands here as its 64 bits,
-- and the sums wrap as theirs do.
pub mod Rounds
pub mod Batches
use sovereign_vpn.Base.{
  ◌&&◌, ◌^◌, ◌%◌, to_int64, ℕ, zero, suc, ◌+◌, ◌-◌, ◌/◌, Bool, true, false, ◌||◌, Option, none,
  some, List, [], ◌∷◌, ◌==◌, int_eq, if◌then◌else◌, ltb, ℤ,
}
use sovereign_vpn.Clock.{Time, Duration}
use sovereign_vpn.Map.{Map, size}
use sovereign_vpn.Nftcheck.Tier.{AccessTier}
use sovereign_vpn.Nftcheck.Checker
use sovereign_vpn.Nftcheck.Checker.{Address, Checker, CheckResult}

pub record DirectChecker : Type 0 where
  pub this_card_id : ℤ
  -- an int64; 0 for a number that is not positive
  pub max_token_id : ℕ
  pub checker : Checker

unfoldable pub new_direct_checker : ℤ → ℕ → Duration → DirectChecker
new_direct_checker this_card_id max_token_id cache_ttl = record {
  this_card_id = this_card_id;
  max_token_id = max_token_id;
  checker = record { cache_ttl = cache_ttl; cache = [] };
}

-- `balanceOfBatch` for one wallet and the ids from the first int64 on, which is given by its 64
-- bits, as many as the second number says;
-- `none` where the call, its packing or its unpacking fails.
abbrev pub BalanceCall : Type 0
BalanceCall = Address → ℕ → ℕ → Option (List ℕ)

-- `hasAnyCard` and `hasThisCard`
pub record Held : Type 0 where
  pub any_card : Bool
  pub this_card : Bool

hold : ℤ → ℕ → Held → Held
hold this id held = record { any_card = true; this_card = held.this_card || to_int64 id == this }

-- The loop over the balances of a batch; `id` has the 64 bits of the first
-- one's token.
unfoldable pub scan : ℤ → ℕ → List ℕ → Held → Held
unfolding hold
scan this id [] held = held
scan this id (bal ∷ balances) held =
    scan this (suc id) balances (if ltb 0 bal then hold this id held else held)

abbrev pub batch_size : ℕ
batch_size = 50

-- The 64 bits of a sum of two int64.
abbrev pub wrap64 : ℕ → ℕ
wrap64 n = n % 2 ^ 64

-- Whether an int64, given by its 64 bits, is greater than one that is not negative.
unfoldable pub exceeds : ℕ → ℕ → Bool
exceeds n max = ltb n (2 ^ 63) && ltb max n

-- `end - start + 1`, with `end` cut at the highest token
unfoldable pub batch_count : ℕ → ℕ → ℕ
unfolding exceeds
batch_count max start =
    if exceeds (wrap64 (start + batch_size - 1)) max
    then wrap64 (max + 2 ^ 64 - start + 1)
    else batch_size

abbrev pub held_tier : Held → AccessTier
held_tier held = if held.any_card then AccessTier.paid else AccessTier.denied

-- The loop over the batches, for at most `rounds` of them; the outer `none` says that these were
-- too few, the inner one is the code's error.
unfoldable pub check_batches :
    BalanceCall → ℤ → ℕ → Address → ℕ → ℕ → Held → Option (Option AccessTier)
unfolding scan exceeds batch_count
check_batches call this max wallet zero start held =
    if exceeds start max then some (some (held_tier held)) else none
check_batches call this max wallet (suc rounds) start held =
    if exceeds start max
    then some (some (held_tier held))
    else elim (call wallet start (batch_count max start)) [
      | none ↦ some none
      | some balances ↦
          let seen = scan this start balances held in
          let rest = check_batches call this max wallet rounds (wrap64 (start + batch_size)) seen in
          if seen.this_card then some (some AccessTier.free) else rest
    ]

finished : Option (Option AccessTier) → Option AccessTier
finished none = none
finished (some tier) = tier

abbrev pub nothing_held : Held
nothing_held = record { any_card = false; this_card = false }

-- The loop from the first token, with as many rounds as there are batches.
unfoldable pub all_batches : BalanceCall → ℤ → ℕ → Address → Option (Option AccessTier)
unfolding check_batches
all_batches call this max wallet =
    check_batches call this max wallet (max / batch_size + 1) 1 nothing_held

-- `checkDirect`
unfoldable pub check_direct : BalanceCall → DirectChecker → Address → Option AccessTier
unfolding finished all_batches
check_direct call c wallet = finished (all_batches call c.this_card_id c.max_token_id wallet)

with_checker : DirectChecker → Checker × Option CheckResult → DirectChecker × Option CheckResult
with_checker c (checker, result) = (record c { checker = checker }, result)

-- `Check`, with the vaults that the delegation finder returns.
unfoldable pub check :
    BalanceCall
    → Option (List Address)
    → DirectChecker
    → Address
    → Time
    → Time
    → Time
    → DirectChecker × Option CheckResult
unfolding with_checker check_direct Checker.check
check call vaults c wallet read_at checked_at stored_at =
    with_checker c
      (Checker.check (check_direct call c) vaults c.checker wallet read_at checked_at stored_at)

unfoldable pub invalidate : DirectChecker → Address → DirectChecker
unfolding Checker.invalidate
invalidate c wallet = record c { checker = Checker.invalidate c.checker wallet }

unfoldable pub cache_size : DirectChecker → ℕ
cache_size c = size c.checker.cache

-- One tick of the cleanup routine.
unfoldable pub cleanup : DirectChecker → Time → DirectChecker
unfolding Checker.cleanup
cleanup c now = record c { checker = Checker.cleanup c.checker now }
