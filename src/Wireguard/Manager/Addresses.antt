-- ===== src/Wireguard/Manager/Addresses.antt =====
-- No two peers share an address, and every peer's address is taken in the pool.
use sovereign_vpn.Base.{
  ℕ, ◌+◌, ◌≤◌, ◌≡◌, inl, inr, Bool, true, false, not, ◌&&◌, ◌||◌, Option, some, List, [], ◌∷◌, ◌++◌,
  ◌==◌, nat_eq, text_eq, arith, Bool-cases, Option-cases,
}
use sovereign_vpn.Text.{Text}
use sovereign_vpn.Clock.{Time, Duration, after}
use sovereign_vpn.Map.{lookup, insert, delete, keys}
use sovereign_vpn.Map.Laws.{lookup-insert, lookup-delete}
use sovereign_vpn.Wireguard.Pool.{IpPool, release, is_taken, ip_text, or_false}
use sovereign_vpn.Wireguard.Pool.Allocation.{Allocates, exhausted, took, allocate-Allocates}
use sovereign_vpn.Wireguard.Manager.{
  remove_peer_command, WgCommand, Manager, Peer, Config, new_manager, new_peer, with_address,
  add_peer, remove_peer, clean_peer, clean_keys, clean_expired,
}

pub record Sound (m : Manager) : Type 0 where
  pub taken :
      (k : Text) (p : Peer) → lookup k m.peers ≡ some p → is_taken m.ip_pool p.client_ip ≡ true
  pub apart :
      (j k : Text) (p q : Peer)
      → lookup j m.peers ≡ some p
      → lookup k m.peers ≡ some q
      → p.client_ip ≡ q.client_ip
      → j ≡ k
  -- the search for an address starts in the range
  pub start : 2 ≤ m.ip_pool.next_octet

pub taken-insert :
    (p : IpPool) (ip x : Text)
    → or_false (lookup x (insert ip true p.allocated)) ≡ (ip == x || is_taken p x)
taken-insert p ip x = ground (arith, lookup-insert x ip true p.allocated)

pub taken-delete :
    (p : IpPool) (ip x : Text) → is_taken (release p ip) x ≡ (not (ip == x) && is_taken p x)
unfolding release
taken-delete p ip x = ground (arith, lookup-delete x ip p.allocated)

module _ (m : Manager) (s : Sound m) (key : Text) (ttl : Duration) (now : Time) where
  with_address-Sound :
      (wg_ok : Bool) {r : IpPool × Option Text}
      → Allocates m.ip_pool r
      → Sound (with_address m key ttl wg_ok now r).0
  unfolding with_address
  with_address-Sound wg_ok exhausted = s
  with_address-Sound true (took octet lo hi free) =
      let ip = ip_text m.ip_pool octet in
      record {
        taken = λ k p h. ground (
          arith,
          lookup-insert k key (new_peer key ip now ttl) m.peers,
          taken-insert m.ip_pool ip p.client_ip,
          text_eq.beq_iff ip p.client_ip,
          s.taken k p,
        );
        apart = λ j k p q hj hk e. ground (
          arith,
          lookup-insert j key (new_peer key ip now ttl) m.peers,
          lookup-insert k key (new_peer key ip now ttl) m.peers,
          text_eq.beq_iff key j,
          text_eq.beq_iff key k,
          s.taken j p,
          s.taken k q,
          s.apart j k p q,
        );
        start = omega arith;
      }
  with_address-Sound false (took octet lo hi free) =
      let ip = ip_text m.ip_pool octet in
      let held = record m.ip_pool {
        allocated = insert ip true m.ip_pool.allocated;
        next_octet = octet + 1;
      } in
      record {
        taken = λ k p h. ground (
          arith,
          taken-delete held ip p.client_ip,
          taken-insert m.ip_pool ip p.client_ip,
          text_eq.beq_iff ip p.client_ip,
          s.taken k p h,
        );
        apart = s.apart;
        start = unfold release in omega arith;
      }

  pub add_peer-Sound : (wg_ok : Bool) → Sound (add_peer m key ttl wg_ok now).0
  unfolding add_peer
  add_peer-Sound wg_ok = with_address-Sound wg_ok (allocate-Allocates m.ip_pool)

-- Taking out a peer together with its address.
unfoldable pub without : Manager → Text → Peer → List WgCommand → Manager
without m key peer log = record m {
  peers = delete key m.peers;
  ip_pool = release m.ip_pool peer.client_ip;
  commands = log;
}

without-Sound :
    (m : Manager) (key : Text) (peer : Peer) (log : List WgCommand)
    → Sound m
    → lookup key m.peers ≡ some peer
    → Sound (without m key peer log)
unfolding without
without-Sound m key peer log s found = record {
  taken = λ k p h. ground (
    arith,
    lookup-delete k key m.peers,
    taken-delete m.ip_pool peer.client_ip p.client_ip,
    text_eq.beq_iff peer.client_ip p.client_ip,
    text_eq.beq_iff key k,
    s.taken k p,
    s.apart key k peer p,
  );
  apart = λ j k p q hj hk e.
      ground (arith, lookup-delete j key m.peers, lookup-delete k key m.peers, s.apart j k p q);
  start = unfold release in s.start;
}

pub remove_peer-Sound :
    (m : Manager) (key : Text) (wg_ok : Bool) → Sound m → Sound (remove_peer m key wg_ok).0
unfolding remove_peer without
remove_peer-Sound m key wg_ok s = elim (Option-cases (lookup key m.peers)) [
  | inl gone ↦ rw (gone, remove_peer) s
  | inr (peer, found) ↦
      rw (found, remove_peer)
        (elim (Bool-cases wg_ok) [
          | inl done ↦
              rw done
                (without-Sound m key peer (m.commands ++ remove_peer_command key ∷ []) s found)
          | inr failed ↦ rw failed (record { taken = s.taken; apart = s.apart; start = s.start })
        ])
]

clean_peer-Sound :
    (now : Time) (key : Text) (m : Manager) (n : ℕ)
    → Sound m
    → Sound (clean_peer now key (lookup key m.peers) (m, n)).0
unfolding clean_peer without
clean_peer-Sound now key m n s = elim (Option-cases (lookup key m.peers)) [
  | inl gone ↦ rw (gone, clean_peer) s
  | inr (peer, found) ↦
      rw (found, clean_peer)
        (elim (Bool-cases (after now peer.expires_at)) [
          | inl old ↦
              rw old (without-Sound m key peer (m.commands ++ remove_peer_command key ∷ []) s found)
          | inr young ↦ rw young s
        ])
]

clean_keys-Sound :
    (now : Time) (ks : List Text) (m : Manager) (n : ℕ)
    → Sound m
    → Sound (clean_keys now ks (m, n)).0
unfolding clean_keys
clean_keys-Sound now [] m n s = s
clean_keys-Sound now (key ∷ ks) m n s =
    let next = clean_peer now key (lookup key m.peers) (m, n) in
    clean_keys-Sound now ks next.0 next.1 (clean_peer-Sound now key m n s)

pub clean_expired-Sound : (m : Manager) (now : Time) → Sound m → Sound (clean_expired m now).0
unfolding clean_expired
clean_expired-Sound m now s = clean_keys-Sound now (keys m.peers) m 0 s

pub new_manager-Sound :
    (cfg : Config) (pool : IpPool) → 2 ≤ pool.next_octet → Sound (new_manager cfg pool)
unfolding new_manager lookup
new_manager-Sound cfg pool h = record {
  taken = λ k p e. cc;
  apart = λ j k p q e f g. cc;
  start = h;
}

-- What the methods make of a manager, whatever the `wg` command answers.
pub data Reach (m0 : Manager) : Manager → Type 0 where
  starts : Reach m0 m0
  adds :
      {m : Manager}
      → Reach m0 m
      → (key : Text) (ttl : Duration) (wg_ok : Bool) (now : Time)
      → Reach m0 (add_peer m key ttl wg_ok now).0
  removes :
      {m : Manager}
      → Reach m0 m
      → (key : Text) (wg_ok : Bool) → Reach m0 (remove_peer m key wg_ok).0
  cleans : {m : Manager} → Reach m0 m → (now : Time) → Reach m0 (clean_expired m now).0

pub Reach-Sound : {m0 m : Manager} → Sound m0 → Reach m0 m → Sound m
Reach-Sound h starts = h
Reach-Sound h (adds {m} r key ttl wg_ok now) = add_peer-Sound m (Reach-Sound h r) key ttl now wg_ok
Reach-Sound h (removes {m} r key wg_ok) = remove_peer-Sound m key wg_ok (Reach-Sound h r)
Reach-Sound h (cleans {m} r now) = clean_expired-Sound m now (Reach-Sound h r)

-- In every manager that the methods make out of a new one, whose pool starts its search at .2 or
-- later, whatever the `wg` commands answer, the address of each peer is taken in the pool and no
-- two peers have the same address.
pub Reach-new_manager-Sound :
    (cfg : Config) (pool : IpPool) {m : Manager}
    → 2 ≤ pool.next_octet
    → Reach (new_manager cfg pool) m
    → Sound m
Reach-new_manager-Sound cfg pool h r = Reach-Sound (new_manager-Sound cfg pool h) r
