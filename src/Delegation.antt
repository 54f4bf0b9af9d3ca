-- ===== src/Delegation.antt =====
-- gateway/pkg/delegation/delegation.go: the wallets that delegated to a hot wallet. The calls of
-- the two registries, with the packing and unpacking of their arguments, are parameters.
pub mod Cache
pub mod Vaults
use sovereign_vpn.Base.{
  ◌*◌, ℕ, Bool, true, false, not, ◌&&◌, ◌||◌, Option, none, some, List, [], ◌∷◌, ◌++◌, ◌==◌, nat_eq,
  int_eq, if◌then◌else◌, ℤ,
}
use sovereign_vpn.Clock.{Time, Duration, add, before, after, minute}
use sovereign_vpn.Map.{Map, lookup, insert, delete, sweep}
use sovereign_vpn.External.{Address}

pub record CacheEntry : Type 0 where
  pub vaults : List Address
  pub expires_at : Time

pub record Config : Type 0 where
  pub enable_delegate_xyz : Bool
  pub enable_6529 : Bool
  pub memes_contract : Address
  pub cache_ttl : Duration

pub record Checker : Type 0 where
  pub memes_contract : Address
  pub enable_dxyz : Bool
  pub enable_6529 : Bool
  pub cache_ttl : Duration
  pub cache : Map Address CacheEntry

unfoldable pub new_checker : Config → Checker
new_checker cfg = record {
  memes_contract = cfg.memes_contract;
  enable_dxyz = cfg.enable_delegate_xyz;
  enable_6529 = cfg.enable_6529;
  cache_ttl = if cfg.cache_ttl == ℤ.pos 0 then ℤ.pos (5 * minute) else cfg.cache_ttl;
  cache = [];
}

-- The fields of a delegation that the code reads.
pub record Delegation : Type 0 where
  pub type : ℕ
  pub from : Address
  pub contract : Address

-- What the registries answer, `none` where the call fails: the wallets that delegated to a wallet
-- for a contract, and the incoming delegations of a wallet.
pub record Registries : Type 0 where
  pub retrieve_6529 : Address → Address → Option (List Address)
  pub incoming : Address → Option (List Delegation)

-- A delegation of everything (type 1) or of the contract (type 2).
abbrev pub applies : Address → Delegation → Bool
applies memes d = d.type == 1 || (d.type == 2 && d.contract == memes)

-- The loop over the delegations.
unfoldable pub vaults_of : Address → List Delegation → List Address
vaults_of memes [] = []
vaults_of memes (d ∷ ds) =
    let rest = vaults_of memes ds in
    if applies memes d && not (d.from == 0) then d.from ∷ rest else rest

find_delegate_xyz_vaults : Registries → Checker → Address → Option (List Address)
unfolding vaults_of
find_delegate_xyz_vaults r c hot_wallet = elim (r.incoming hot_wallet) [
  | none ↦ none
  | some ds ↦ some (vaults_of c.memes_contract ds)
]

find_6529_vaults : Registries → Checker → Address → Option (List Address)
find_6529_vaults r c hot_wallet = r.retrieve_6529 hot_wallet c.memes_contract

-- A lookup that is switched off or fails adds nothing.
found : Bool → Option (List Address) → List Address
found enabled none = []
found enabled (some vaults) = if enabled then vaults else []

-- The loop of `dedupe`, with the addresses seen so far.
dedupe_from : Map Address Bool → List Address → List Address
dedupe_from seen [] = []
dedupe_from seen (a ∷ addrs) =
    let first = a ∷ dedupe_from (insert a true seen) addrs in
    let again = dedupe_from seen addrs in elim (lookup a seen) [ some true ↦ again | _ ↦ first ]

unfoldable pub dedupe : List Address → List Address
unfolding dedupe_from
dedupe addrs = dedupe_from [] addrs

pub all_vaults : Registries → Checker → Address → List Address
unfolding found find_6529_vaults find_delegate_xyz_vaults dedupe
all_vaults r c hot_wallet = dedupe (
    found c.enable_6529 (find_6529_vaults r c hot_wallet)
    ++ found c.enable_dxyz (find_delegate_xyz_vaults r c hot_wallet))

unfoldable pub store_vaults : Checker → Address → List Address → Time → Checker
store_vaults c hot_wallet vaults stored_at = record c {
  cache =
      insert hot_wallet (record { vaults = vaults; expires_at = add stored_at c.cache_ttl })
        c.cache;
}

unfoldable pub fresh_vaults : Time → Option CacheEntry → Option (List Address)
fresh_vaults now none = none
fresh_vaults now (some e) = if before now e.expires_at then some e.vaults else none

unfoldable pub find_uncached :
    Registries → Checker → Address → Time → Option (List Address) → Checker × List Address
unfolding all_vaults store_vaults
find_uncached r c hot_wallet stored_at (some vaults) = (c, vaults)
find_uncached r c hot_wallet stored_at none =
    let vaults = all_vaults r c hot_wallet in (store_vaults c hot_wallet vaults stored_at, vaults)

-- `FindVaults`, which has no error: its readings of the clock at the cache and at the storing
unfoldable pub find_vaults : Registries → Checker → Address → Time → Time → Checker × List Address
unfolding fresh_vaults find_uncached
find_vaults r c hot_wallet read_at stored_at =
    find_uncached r c hot_wallet stored_at (fresh_vaults read_at (lookup hot_wallet c.cache))

unfoldable pub invalidate : Checker → Address → Checker
invalidate c hot_wallet = record c { cache = delete hot_wallet c.cache }

-- One tick of the cleanup routine.
unfoldable pub cleanup : Checker → Time → Checker
cleanup c now = record c { cache = sweep (λ e. after now e.expires_at) c.cache }

-- Sequences of whole calls and ticks of the cleanup routine.
pub data Call : Type 0 where
  finds : Registries → Address → Time → Time → Call
  invalidates : Address → Call
  cleans : Time → Call

unfoldable pub step : Checker → Call → Checker
unfolding find_vaults invalidate cleanup
step c (finds r hot_wallet read_at stored_at) = (find_vaults r c hot_wallet read_at stored_at).0
step c (invalidates hot_wallet) = invalidate c hot_wallet
step c (cleans now) = cleanup c now

unfoldable pub run : Checker → List Call → Checker
unfolding step
run c [] = c
run c (call ∷ calls) = run (step c call) calls
