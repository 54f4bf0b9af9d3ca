-- ===== src/Server/Policy/Freshness.antt =====
-- What a refresh of the cached policy changes.
use sovereign_vpn.Base.{
  ℕ, ◌≡◌, refl, ◌⊎◌, inl, inr, Bool, true, false, not, ◌&&◌, Option, none, some, nat_eq, text_eq,
  arith, Bool-cases,
}
use sovereign_vpn.Text.{Text, text, is_empty}
use sovereign_vpn.Clock.{Time}
use sovereign_vpn.Server.State.{Server, ZkClient, RootData, RootReply}
use sovereign_vpn.Anonauth.Service.{set_policy_epoch}
use sovereign_vpn.Server.Policy.{
  refresh_policy, apply_reply, apply_data, apply_root, mark_fetched, policy_epoch_from_metadata,
  cache_fresh,
}

-- The parts of the state that a refresh never touches are those of before.
pub record Frame (s s' : Server) : Type 0 where
  pub gate : s'.gate ≡ s.gate
  pub wg : s'.wg ≡ s.wg
  pub owners : s'.peer_owners ≡ s.peer_owners
  pub nullifiers : s'.anon_auth.nullifiers ≡ s.anon_auth.nullifiers

Frame-refl : (s : Server) → Frame s s
Frame-refl s = record { gate = refl; wg = refl; owners = refl; nullifiers = refl }

apply_root-Frame :
    (s : Server) (root : Text) (at : Time) (o : Option ℕ) → Frame s (apply_root s root at o).0
unfolding apply_root mark_fetched set_policy_epoch
apply_root-Frame s root at none = Frame-refl s
apply_root-Frame s root at (some epoch) = record {
  gate = ground arith;
  wg = ground arith;
  owners = ground arith;
  nullifiers = ground arith;
}

apply_data-Frame :
    (s : Server) (at : Time) (success : Bool) (o : Option RootData)
    → Frame s (apply_data s at success o).0
unfolding apply_data
apply_data-Frame s at success none = Frame-refl s
apply_data-Frame s at true (some d) =
    apply_root-Frame s d.root at (policy_epoch_from_metadata d.policy_epoch)
apply_data-Frame s at false (some d) = Frame-refl s

apply_reply-Frame :
    (s : Server) (at : Time) (o : Option (Option RootReply)) → Frame s (apply_reply s at o).0
unfolding apply_reply
apply_reply-Frame s at none = Frame-refl s
apply_reply-Frame s at (some none) = Frame-refl s
apply_reply-Frame s at (some (some r)) = apply_data-Frame s at r.success r.root_data

pub refresh_policy-Frame :
    (zk : ZkClient) (s : Server) (force : Bool) (t0 t1 : Time)
    → Frame s (refresh_policy zk s force t0 t1).0
unfolding refresh_policy
refresh_policy-Frame zk s force t0 t1 = elim (Bool-cases (not force && cache_fresh s t0)) [
  | inl fresh ↦ rw fresh (Frame-refl s)
  | inr stale ↦ rw stale (apply_reply-Frame s t1 (zk.get_merkle_root (text "vpn_access_v1")))
]

-- A state that took both the root and the epoch of one reply.
pub record Applied (s s' : Server) (reply : Option (Option RootReply)) (at : Time) : Type 0 where
  pub root_data : RootData
  pub epoch : ℕ
  pub accepted : reply ≡ some (some (record { success = true; root_data = some root_data }))
  pub epoch_read : policy_epoch_from_metadata root_data.policy_epoch ≡ some epoch
  pub rooted : is_empty root_data.root ≡ false
  pub result : s' ≡ record s {
    anon_auth = set_policy_epoch s.anon_auth epoch;
    policy_root = root_data.root;
    policy_fetched_at = at;
  }

-- What a reply does to the state: nothing, or both of its values.
abbrev Taken : Server → Option (Option RootReply) → Time → Server × Bool → Type 0
Taken s reply at r = ((r.1 ≡ false) × (r.0 ≡ s)) ⊎ ((r.1 ≡ true) × Applied s r.0 reply at)

apply_root-Taken :
    (s : Server) (at : Time) (d : RootData) (o : Option ℕ)
    → policy_epoch_from_metadata d.policy_epoch ≡ o
    → Taken s
        (some (some (record { success = true; root_data = some d })))
        at
        (apply_root s d.root at o)
unfolding apply_root mark_fetched
apply_root-Taken s at d none e = inl (refl, refl)
apply_root-Taken s at d (some epoch) e = elim (Bool-cases (is_empty d.root)) [
  | inl missing ↦ rw missing (inl (refl, refl))
  | inr present ↦ rw present (
      inr (
        refl,
        record {
          root_data = d;
          epoch = epoch;
          accepted = refl;
          epoch_read = e;
          rooted = present;
          result = refl;
        },
      ))
]

apply_data-Taken :
    (s : Server) (at : Time) (success : Bool) (o : Option RootData)
    → Taken s
        (some (some (record { success = success; root_data = o })))
        at
        (apply_data s at success o)
unfolding apply_data
apply_data-Taken s at success none = inl (refl, refl)
apply_data-Taken s at true (some d) =
    apply_root-Taken s at d (policy_epoch_from_metadata d.policy_epoch) refl
apply_data-Taken s at false (some d) = inl (refl, refl)

apply_reply-Taken :
    (s : Server) (at : Time) (reply : Option (Option RootReply))
    → Taken s reply at (apply_reply s at reply)
unfolding apply_reply
apply_reply-Taken s at none = inl (refl, refl)
apply_reply-Taken s at (some none) = inl (refl, refl)
apply_reply-Taken s at (some (some r)) = apply_data-Taken s at r.success r.root_data

-- A refresh of the policy does one of three things. Where it is not forced and the cached policy is
-- fresh, it succeeds and changes nothing. Otherwise it fails and changes nothing, or it succeeds
-- and sets the root, the epoch and the time of the fetch together, from one successful reply of the
-- ZK API with a root that is not empty and a policy epoch that can be read.
pub refresh_policy_lem :
    (zk : ZkClient) (s : Server) (force : Bool) (t0 t1 : Time)
    → ((((not force && cache_fresh s t0) ≡ true) × (refresh_policy zk s force t0 t1 ≡ (s, true))))
      ⊎ (((not force && cache_fresh s t0) ≡ false)
          × ((refresh_policy zk s force t0 t1 ≡ (s, false))
              ⊎ (((refresh_policy zk s force t0 t1).1 ≡ true)
                  × Applied s
                      (refresh_policy zk s force t0 t1).0
                      (zk.get_merkle_root (text "vpn_access_v1"))
                      t1)))
unfolding refresh_policy
refresh_policy_lem zk s force t0 t1 = elim (Bool-cases (not force && cache_fresh s t0)) [
  | inl fresh ↦ inl (fresh, rw fresh refl)
  | inr stale ↦ inr (
    stale,
    rw stale (of_reply (apply_reply-Taken s t1 (zk.get_merkle_root (text "vpn_access_v1")))),
  )
]
  where
    of_reply :
        {r : Server × Bool}
        → Taken s (zk.get_merkle_root (text "vpn_access_v1")) t1 r
        → (r ≡ (s, false))
          ⊎ ((r.1 ≡ true) × Applied s r.0 (zk.get_merkle_root (text "vpn_access_v1")) t1)
    of_reply {r = (s', done)} (inl (e, f)) = inl (cc)
    of_reply {r = (s', done)} (inr x) = inr x
