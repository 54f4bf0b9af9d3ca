-- ===== src/Wireguard/Manager/Failure.antt =====
-- A failed `AddPeer` of the WireGuard manager.
use sovereign_vpn.Base.{
  ◌≡◌, refl, inl, inr, Bool, Option, none, some, ◌==◌, nat_eq, text_eq, if◌then◌else◌, arith,
  Option-cases, ok, err,
}
use sovereign_vpn.Text.{Text}
use sovereign_vpn.Clock.{Time, Duration}
use sovereign_vpn.Map.{lookup}
use sovereign_vpn.Map.Laws.{lookup-delete}
use sovereign_vpn.Wireguard.Manager.{
  remove_peer, remove_found, Manager, PeerError, add_peer, with_address,
}
use sovereign_vpn.Wireguard.Pool.{IpPool, allocate}

-- A failed `AddPeer` leaves the peers as they were.
pub add_peer-eq_err :
    (m : Manager) (key : Text) (ttl : Duration) (wg_ok : Bool) (now : Time) (e : PeerError)
    → (add_peer m key ttl wg_ok now).1 ≡ err e
    → (add_peer m key ttl wg_ok now).0.peers ≡ m.peers
unfolding add_peer with_address
add_peer-eq_err m key ttl wg_ok now e h = of_pool (allocate m.ip_pool) h
  where
    of_pool :
        (r : IpPool × Option Text)
        → (with_address m key ttl wg_ok now r).1 ≡ err e
        → (with_address m key ttl wg_ok now r).0.peers ≡ m.peers
    of_pool (pool, none) f = refl
    of_pool (pool, some ip) f = ground (arith, f)

-- A removed peer is gone, and the others are as they were; a failed removal changes none.
pub remove_peer-peers :
    (m : Manager) (key k : Text) (wg_ok : Bool)
    → lookup k (remove_peer m key wg_ok).0.peers ≡ (elim (remove_peer m key wg_ok).1 [
      | ok _ ↦ (if key == k then none else lookup k m.peers)
      | err _ ↦ lookup k m.peers
    ])
unfolding remove_peer remove_found
remove_peer-peers m key k wg_ok = elim (Option-cases (lookup key m.peers)) [
  | inl gone ↦ ground (arith, gone)
  | inr (p, found) ↦ ground (arith, found, lookup-delete k key m.peers)
]
