-- ===== src/Server/Policy.antt =====
-- The cached anonymous policy of gateway/pkg/server/server.go. A refresh holds `policyFetchMu` from
-- end to end; `fetched_at` is the reading that it stores.
pub mod Freshness
use sovereign_vpn.Base.{
  ℕ, ◌<◌, ◌^◌, Bool, true, false, not, ◌&&◌, ◌||◌, Option, none, some, List, [], ◌∷◌, ◌==◌, nat_eq,
  text_eq, if◌then◌else◌, ℤ, is_positive, ltb, leb, Result, ok, err, ◌*◌, ◌-◌,
}
use sovereign_vpn.Text.{Text, text, is_empty, parse_uint}
use sovereign_vpn.Clock.{Time, second}
use sovereign_vpn.Anonauth.Service.{Service, set_policy_epoch}
use sovereign_vpn.Server.State.{
  Server, Externals, ZkClient, RootReply, RootData, MetaValue, str, number, float_whole,
  float_other, int, int64, uint64, unsupported,
}

abbrev pub policy_cache_ttl : ℕ
policy_cache_ttl = 30_000_000_000

abbrev pub background_refresh_age : ℕ
background_refresh_age = 20_000_000_000

-- A number that is positive and fits 64 bits unsigned, where the type bounds it.
positive : ℤ → Option ℕ
positive (ℤ.pos n) = if ltb 0 n then some n else none
positive (ℤ.negsuc _) = none

-- `v != float64(uint64(v))` for a whole value: it holds from 2^64 on.
whole_float : ℤ → Option ℕ
whole_float (ℤ.pos n) = if ltb 0 n && ltb n (2 ^ 64) then some n else none
whole_float (ℤ.negsuc _) = none

epoch_of_value : MetaValue → Option ℕ
unfolding positive whole_float
epoch_of_value (str v) = parse_uint v
epoch_of_value (number v) = parse_uint v
epoch_of_value (float_whole v) = whole_float v
epoch_of_value float_other = none
epoch_of_value (int v) = positive v
epoch_of_value (int64 v) = positive v
epoch_of_value (uint64 v) = if v == 0 then none else some v
epoch_of_value unsupported = none

-- `policyEpochFromMetadata`, `none` for each of its errors
unfoldable pub policy_epoch_from_metadata : Option MetaValue → Option ℕ
unfolding epoch_of_value
policy_epoch_from_metadata none = none
policy_epoch_from_metadata (some v) = epoch_of_value v

-- The age of the cache at a reading of the clock.
abbrev pub age : Server → Time → ℕ
age s now = now - s.policy_fetched_at

unfoldable pub cache_fresh : Server → Time → Bool
cache_fresh s now = not (s.policy_fetched_at == 0) && ltb (age s now) policy_cache_ttl

-- `shouldRefreshAnonymousPolicyInBackground`, with its two readings of the clock
unfoldable pub should_refresh_in_background : Server → Time → Time → Bool
should_refresh_in_background s t0 t1 =
    not (s.policy_fetched_at == 0)
    && leb background_refresh_age (age s t0)
    && ltb (age s t1) policy_cache_ttl

mark_fetched : Server → Text → Time → Server
mark_fetched s root at = record s { policy_root = root; policy_fetched_at = at }

-- What an accepted reply of the ZK API changes.
apply_root : Server → Text → Time → Option ℕ → Server × Bool
unfolding mark_fetched
apply_root s root at none = (s, false)
apply_root s root at (some epoch) =
    if is_empty root
    then (s, false)
    else (mark_fetched (record s { anon_auth = set_policy_epoch s.anon_auth epoch }) root at, true)

apply_data : Server → Time → Bool → Option RootData → Server × Bool
unfolding apply_root
apply_data s at success none = (s, false)
apply_data s at success (some d) =
    if not success
    then (s, false)
    else apply_root s d.root at (policy_epoch_from_metadata d.policy_epoch)

-- The reply to `GetMerkleRoot`: an error, nil, or a result.
apply_reply : Server → Time → Option (Option RootReply) → Server × Bool
unfolding apply_data
apply_reply s at none = (s, false)
apply_reply s at (some none) = (s, false)
apply_reply s at (some (some r)) = apply_data s at r.success r.root_data

-- `refreshAnonymousPolicyEpoch`: whether it succeeds; `checked_at` is the reading of the freshness
-- test.
unfoldable pub refresh_policy : ZkClient → Server → Bool → Time → Time → Server × Bool
unfolding apply_reply
refresh_policy zk s force checked_at fetched_at =
    if not force && cache_fresh s checked_at
    then (s, true)
    else apply_reply s fetched_at (zk.get_merkle_root (text "vpn_access_v1"))

-- `maybeRefreshAnonymousPolicyEpochAsync` up to the start of its goroutine: whether it starts one.
unfoldable pub queue_refresh : Server → Time → Time → Server × Bool
queue_refresh s t0 t1 =
    if not (should_refresh_in_background s t0 t1)
    then (s, false)
    else if s.policy_refresh_queued
    then (s, false)
    else (record s { policy_refresh_queued = true }, true)

-- The goroutine: a forced refresh, whose result is only logged, and the flag's reset.
unfoldable pub background_refresh : ZkClient → Server → Time → Server
background_refresh zk s fetched_at = record (refresh_policy zk s true fetched_at fetched_at).0 {
  policy_refresh_queued = false;
}

-- `syncAnonymousPolicyEpoch`: the state, whether it succeeds, and whether it starts a refresh. The
-- readings: the freshness test, the two of the background test, the second freshness test and the
-- stored one.
unfoldable pub sync_policy :
    Option ZkClient → Server → Time → Time → Time → Time → Time → Server × Bool × Bool
sync_policy none s t0 t1 t2 t3 t4 = (s, true, false)
sync_policy (some zk) s t0 t1 t2 t3 t4 =
    if cache_fresh s t0
    then (let (s', started) = queue_refresh s t1 t2 in (s', true, started))
    else (let (s', done) = refresh_policy zk s false t3 t4 in (s', done, false))
