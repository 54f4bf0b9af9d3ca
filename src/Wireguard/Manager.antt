-- ===== src/Wireguard/Manager.antt =====
-- `Manager` of gateway/pkg/wireguard/manager.go. Every method holds the manager's mutex. The `wg`
-- program is outside the code: whether a command succeeds is an argument, and the commands that
-- were run are kept in a log.
pub mod Addresses
pub mod Failure
pub mod Leak
use sovereign_vpn.Base.{
  ℕ, zero, suc, ◌+◌, Bool, true, false, Option, none, some, List, [], ◌∷◌, ◌++◌, if◌then◌else◌,
  text_eq, Result, ok, err,
}
use sovereign_vpn.Text.{Text, text}
use sovereign_vpn.Clock.{Time, Duration, add, after}
use sovereign_vpn.Map.{Map, keys, size, lookup, insert, delete}
use sovereign_vpn.Wireguard.Pool.{IpPool, allocate, release}

pub record PeerConfig : Type 0 where
  pub server_public_key : Text
  pub server_endpoint : Text
  pub client_address : Text
  pub dns : Text
  pub allowed_ips : Text

pub record Peer : Type 0 where
  pub public_key : Text
  pub client_ip : Text
  pub assigned_at : Time
  pub expires_at : Time

pub record Config : Type 0 where
  pub server_public_key : Text
  pub server_endpoint : Text
  pub dns : Text

pub data WgCommand : Type 0 where
  set_peer : Text → Text → WgCommand
  remove_peer_command : Text → WgCommand

pub record Manager : Type 0 where
  pub cfg : Config
  pub peers : Map Text Peer
  pub ip_pool : IpPool
  -- oldest first
  pub commands : List WgCommand

pub data PeerError : Type 0 where
  no_available_ips adding_peer peer_not_found removing_peer : PeerError

unfoldable pub new_manager : Config → IpPool → Manager
new_manager cfg pool = record { cfg = cfg; peers = []; ip_pool = pool; commands = [] }

peer_config : Config → Text → PeerConfig
peer_config cfg ip = record {
  server_public_key = cfg.server_public_key;
  server_endpoint = cfg.server_endpoint;
  client_address = ip ++ text "/24";
  dns = cfg.dns;
  allowed_ips = text "0.0.0.0/0, ::/0";
}

new_peer : Text → Text → Time → Duration → Peer
new_peer key ip now ttl = record {
  public_key = key;
  client_ip = ip;
  assigned_at = now;
  expires_at = add now ttl;
}

with_address :
    Manager
    → Text
    → Duration
    → Bool
    → Time
    → IpPool × Option Text
    → Manager × Result PeerError PeerConfig
unfolding peer_config new_peer
with_address m key ttl wg_ok now (pool, none) = (record m { ip_pool = pool }, err no_available_ips)
with_address m key ttl wg_ok now (pool, some ip) =
    let log = m.commands ++ set_peer key ip ∷ [] in
    if wg_ok
    then (
      record m {
        peers = insert key (new_peer key ip now ttl) m.peers;
        ip_pool = pool;
        commands = log;
      },
      ok (peer_config m.cfg ip),
    )
    else (record m { ip_pool = release pool ip; commands = log }, err adding_peer)

-- `AddPeer`; `wg_ok` is whether the `wg set` command succeeds.
unfoldable pub add_peer :
    Manager → Text → Duration → Bool → Time → Manager × Result PeerError PeerConfig
unfolding with_address
add_peer m key ttl wg_ok now = with_address m key ttl wg_ok now (allocate m.ip_pool)

remove_found : Manager → Text → Bool → Option Peer → Manager × Result PeerError (Unit {0})
remove_found m key wg_ok none = (m, err peer_not_found)
remove_found m key wg_ok (some peer) =
    let log = m.commands ++ remove_peer_command key ∷ [] in
    if wg_ok
    then (
      record m {
        peers = delete key m.peers;
        ip_pool = release m.ip_pool peer.client_ip;
        commands = log;
      },
      ok tt,
    )
    else (record m { commands = log }, err removing_peer)

-- `RemovePeer`
unfoldable pub remove_peer : Manager → Text → Bool → Manager × Result PeerError (Unit {0})
unfolding remove_found
remove_peer m key wg_ok = remove_found m key wg_ok (lookup key m.peers)

-- One round of the loop of `CleanExpired`: the command's result is ignored.
clean_peer : Time → Text → Option Peer → Manager × ℕ → Manager × ℕ
clean_peer now key none (m, removed) = (m, removed)
clean_peer now key (some peer) (m, removed) =
    if after now peer.expires_at
    then (
      record m {
        peers = delete key m.peers;
        ip_pool = release m.ip_pool peer.client_ip;
        commands = m.commands ++ remove_peer_command key ∷ [];
      },
      removed + 1,
    )
    else (m, removed)

clean_keys : Time → List Text → Manager × ℕ → Manager × ℕ
unfolding clean_peer
clean_keys now [] s = s
clean_keys now (key ∷ rest) s = clean_keys now rest (clean_peer now key (lookup key s.0.peers) s)

-- `CleanExpired`: the manager and the number of peers that went.
unfoldable pub clean_expired : Manager → Time → Manager × ℕ
unfolding clean_keys
clean_expired m now = clean_keys now (keys m.peers) (m, 0)

-- `GetPeer` and `PeerCount`
unfoldable pub get_peer : Manager → Text → Option Peer
get_peer m key = lookup key m.peers

unfoldable pub peer_count : Manager → ℕ
peer_count m = size m.peers
