-- ===== src/Wireguard/Manager/Leak.antt =====
-- Adding a peer whose key is in the table already loses its old address for good.
use sovereign_vpn.Base.{
  ℕ, ◌+◌, ◌≡◌, ◌≢◌, inl, inr, Bool, true, false, Option, some, List, [], ◌∷◌, ◌++◌, nat_eq, text_eq,
  arith, Bool-cases, Option-cases, ok,
}
use sovereign_vpn.Text.{Text}
use sovereign_vpn.Clock.{Time, Duration, after}
use sovereign_vpn.Map.{lookup, insert, keys}
use sovereign_vpn.Map.Laws.{lookup-insert, lookup-delete}
use sovereign_vpn.Wireguard.Pool.{IpPool, is_taken, ip_text}
use sovereign_vpn.Wireguard.Pool.Allocation.{Allocates, exhausted, took, allocate-Allocates}
use sovereign_vpn.Wireguard.Manager.{
  remove_peer_command, WgCommand, Manager, Peer, PeerConfig, new_peer, with_address, add_peer,
  remove_peer, clean_peer, clean_keys, clean_expired,
}
use sovereign_vpn.Wireguard.Manager.Addresses.{
  without, Sound, Reach, starts, adds, removes, cleans, taken-insert, taken-delete,
}

-- An address that is taken in the pool and that no peer has.
pub record Leaked (m : Manager) (ip : Text) : Type 0 where
  pub taken : is_taken m.ip_pool ip ≡ true
  pub unused : (k : Text) (p : Peer) → lookup k m.peers ≡ some p → p.client_ip ≢ ip

module _ (m : Manager) (key : Text) (ttl : Duration) (now : Time) where
  with_address-Leaked :
      (wg_ok : Bool) (x : Text) {r : IpPool × Option Text}
      → Leaked m x
      → Allocates m.ip_pool r
      → Leaked (with_address m key ttl wg_ok now r).0 x
  unfolding with_address new_peer
  with_address-Leaked wg_ok x l exhausted = record { taken = l.taken; unused = l.unused }
  with_address-Leaked true x l (took octet lo hi free) =
      let ip = ip_text m.ip_pool octet in
      record {
        taken = ground (arith, taken-insert m.ip_pool ip x, l.taken);
        unused = λ k p h.
            ground
              (arith, lookup-insert k key (new_peer key ip now ttl) m.peers, l.unused k p, l.taken);
      }
  with_address-Leaked false x l (took octet lo hi free) =
      let ip = ip_text m.ip_pool octet in
      let held = record m.ip_pool {
        allocated = insert ip true m.ip_pool.allocated;
        next_octet = octet + 1;
      } in
      record {
        taken = ground (
          arith,
          taken-delete held ip x,
          taken-insert m.ip_pool ip x,
          text_eq.beq_iff ip x,
          l.taken,
        );
        unused = l.unused;
      }

  with_address-loses_old :
      (wg_ok : Bool) (old : Peer) (cfg : PeerConfig) {r : IpPool × Option Text}
      → Sound m
      → lookup key m.peers ≡ some old
      → Allocates m.ip_pool r
      → (with_address m key ttl wg_ok now r).1 ≡ ok cfg
      → Leaked (with_address m key ttl wg_ok now r).0 old.client_ip
  unfolding with_address new_peer
  with_address-loses_old wg_ok old cfg s found exhausted done = cc
  with_address-loses_old false old cfg s found (took octet lo hi free) done = cc
  with_address-loses_old true old cfg s found (took octet lo hi free) done =
      let ip = ip_text m.ip_pool octet in
      let held = s.taken key old found in
      record {
        taken = ground (arith, taken-insert m.ip_pool ip old.client_ip, held);
        unused = λ k p h. ground (
          arith,
          lookup-insert k key (new_peer key ip now ttl) m.peers,
          held,
          s.apart k key p old,
          text_eq.beq_iff key k,
        );
      }

without-Leaked :
    (m : Manager) (key x : Text) (peer : Peer) (log : List WgCommand)
    → Leaked m x
    → lookup key m.peers ≡ some peer
    → Leaked (without m key peer log) x
unfolding without
without-Leaked m key x peer log l found = record {
  taken = ground (
    arith,
    taken-delete m.ip_pool peer.client_ip x,
    text_eq.beq_iff peer.client_ip x,
    l.unused key peer found,
    l.taken,
  );
  unused = λ k p h. ground (arith, lookup-delete k key m.peers, l.unused k p);
}

remove_peer-Leaked :
    (m : Manager) (key x : Text) (wg_ok : Bool) → Leaked m x → Leaked (remove_peer m key wg_ok).0 x
unfolding remove_peer without
remove_peer-Leaked m key x wg_ok l = elim (Option-cases (lookup key m.peers)) [
  | inl gone ↦ rw (gone, remove_peer) l
  | inr (peer, found) ↦
      rw (found, remove_peer)
        (elim (Bool-cases wg_ok) [
          | inl done ↦
              rw done
                (without-Leaked m key x peer (m.commands ++ remove_peer_command key ∷ []) l found)
          | inr failed ↦ rw failed (record { taken = l.taken; unused = l.unused })
        ])
]

clean_peer-Leaked :
    (now : Time) (key x : Text) (m : Manager) (n : ℕ)
    → Leaked m x
    → Leaked (clean_peer now key (lookup key m.peers) (m, n)).0 x
unfolding clean_peer without
clean_peer-Leaked now key x m n l = elim (Option-cases (lookup key m.peers)) [
  | inl gone ↦ rw (gone, clean_peer) l
  | inr (peer, found) ↦
      rw (found, clean_peer)
        (elim (Bool-cases (after now peer.expires_at)) [
          | inl old ↦
              rw old
                (without-Leaked m key x peer (m.commands ++ remove_peer_command key ∷ []) l found)
          | inr young ↦ rw young l
        ])
]

clean_keys-Leaked :
    (now : Time) (ks : List Text) (x : Text) (m : Manager) (n : ℕ)
    → Leaked m x
    → Leaked (clean_keys now ks (m, n)).0 x
unfolding clean_keys
clean_keys-Leaked now [] x m n l = l
clean_keys-Leaked now (key ∷ ks) x m n l =
    let next = clean_peer now key (lookup key m.peers) (m, n) in
    clean_keys-Leaked now ks x next.0 next.1 (clean_peer-Leaked now key x m n l)

Reach-Leaked : {m0 m : Manager} (x : Text) → Leaked m0 x → Reach m0 m → Leaked m x
unfolding add_peer clean_expired
Reach-Leaked x l starts = l
Reach-Leaked x l (adds {m} r key ttl wg_ok now) =
    with_address-Leaked m key ttl now wg_ok x (Reach-Leaked x l r) (allocate-Allocates m.ip_pool)
Reach-Leaked x l (removes {m} r key wg_ok) = remove_peer-Leaked m key x wg_ok (Reach-Leaked x l r)
Reach-Leaked x l (cleans {m} r now) =
    clean_keys-Leaked now (keys m.peers) x m 0 (Reach-Leaked x l r)

-- When a peer is added whose key is in the table of a sound manager already, as on a reconnect,
-- its old address is lost: after any later calls it is still taken in the pool, and no peer has
-- it, so that neither removal nor expiry ever gives it back.
pub add_peer-leaks :
    (m : Manager) (key : Text) (ttl : Duration) (wg_ok : Bool) (now : Time) (old : Peer)
    (cfg : PeerConfig)
    → Sound m
    → lookup key m.peers ≡ some old
    → (add_peer m key ttl wg_ok now).1 ≡ ok cfg
    → {m' : Manager} → Reach (add_peer m key ttl wg_ok now).0 m'
    → Leaked m' old.client_ip
unfolding add_peer
add_peer-leaks m key ttl wg_ok now old cfg s found done r =
    Reach-Leaked old.client_ip
      (with_address-loses_old m key ttl now wg_ok old cfg s found (allocate-Allocates m.ip_pool)
        done)
      r
