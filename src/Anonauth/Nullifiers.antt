-- ===== src/Anonauth/Nullifiers.antt =====
-- gateway/pkg/anonauth/nullifiers.go. `Consume`, `Release` and a tick of the cleanup are one
-- critical section each; `IsConsumed` is a read and, for an expired entry, a second section that
-- looks again before it deletes.
pub mod SingleUse
use sovereign_vpn.Base.{
  ℕ, Bool, true, false, not, ◌&&◌, Option, none, some, List, [], ◌∷◌, if◌then◌else◌, text_eq,
  is_positive, ℤ,
}
use sovereign_vpn.Text.{Text, is_empty}
use sovereign_vpn.Clock.{Time, Duration, minute, add, before}
use sovereign_vpn.Map.{Map, lookup, insert, delete, sweep}

pub record NullifierStore : Type 0 where
  pub nullifiers : Map Text Time

unfoldable pub new_nullifier_store : NullifierStore
new_nullifier_store = record { nullifiers = [] }

-- A lifetime that is not positive is a minute.
abbrev pub lifetime : Duration → Duration
lifetime ttl = if is_positive ttl then ttl else ℤ.pos minute

abbrev pub is_active : Time → Option Time → Bool
is_active now none = false
is_active now (some expires_at) = before now expires_at

unfoldable pub consume : NullifierStore → Text → Duration → Time → NullifierStore × Bool
consume ns nullifier ttl now =
    if is_empty nullifier
    then (ns, false)
    else if is_active now (lookup nullifier ns.nullifiers)
    then (ns, false)
    else (record { nullifiers = insert nullifier (add now (lifetime ttl)) ns.nullifiers }, true)

-- The second section of `IsConsumed`, on the entry as it is then.
drop_expired : NullifierStore → Text → Time → Option Time → NullifierStore
drop_expired ns nullifier now none = ns
drop_expired ns nullifier now (some current) =
    if not (before now current) then record { nullifiers = delete nullifier ns.nullifiers } else ns

-- `read` is the entry that the first section found, `ns` the store at the second.
unfoldable pub check_read : NullifierStore → Text → Time → Option Time → NullifierStore × Bool
unfolding drop_expired
check_read ns nullifier now none = (ns, false)
check_read ns nullifier now (some expires_at) =
    if before now expires_at
    then (ns, true)
    else (drop_expired ns nullifier now (lookup nullifier ns.nullifiers), false)

unfoldable pub is_consumed : NullifierStore → Text → Time → NullifierStore × Bool
unfolding check_read
is_consumed ns nullifier now = check_read ns nullifier now (lookup nullifier ns.nullifiers)

unfoldable pub release : NullifierStore → Text → NullifierStore
release ns nullifier =
    if is_empty nullifier then ns else record { nullifiers = delete nullifier ns.nullifiers }

unfoldable pub cleanup : NullifierStore → Time → NullifierStore
cleanup ns now = record {
  nullifiers = sweep (λ expires_at. not (before now expires_at)) ns.nullifiers;
}

-- The sections that goroutines interleave on the store.
pub data Call : Type 0 where
  consumes : Text → Duration → Time → Call
  -- the second section of an `IsConsumed` that read this entry before
  checks : Text → Time → Option Time → Call
  releases : Text → Call
  cleans : Time → Call

unfoldable pub step : NullifierStore → Call → NullifierStore
step ns (consumes n ttl now) = (consume ns n ttl now).0
step ns (checks n now read) = (check_read ns n now read).0
step ns (releases n) = release ns n
step ns (cleans now) = cleanup ns now

unfoldable pub run : NullifierStore → List Call → NullifierStore
run ns [] = ns
run ns (c ∷ cs) = run (step ns c) cs
