-- ===== src/Server/Auth/Refused.antt =====
-- What a sign-in that is not granted leaves as it was.
use sovereign_vpn.Base.{
  ◌≡◌, refl, ◌∙◌, inl, inr, Bool, true, false, ◌||◌, Option, none, some, ◌==◌, nat_eq, text_eq,
  arith, Bool-cases, Result, ok, err,
}
use sovereign_vpn.Text.{Text, is_empty}
use sovereign_vpn.Clock.{Time}
use sovereign_vpn.External.{Address}
use sovereign_vpn.Siwe.Service as Siwe
use sovereign_vpn.Rep6529
use sovereign_vpn.Nftcheck.Tier.{AccessTier, tier_eq}
use sovereign_vpn.Nftcheck.Checker
use sovereign_vpn.Nftcheck.Checker.{CheckResult}
use sovereign_vpn.Nftgate.Store.{Session}
use sovereign_vpn.Nftgate.Gate.{Gate, create_session}
use sovereign_vpn.Nftgate.Gate.Sessions.{create_session-none}
use sovereign_vpn.Server.State.{Server, ZkClient}
use sovereign_vpn.Server.Tier.{effective_tier}
use sovereign_vpn.Server.Auth.{
  SignInExternals, ZkProof, VerifyRequest, VerifyTimes, AuthReply, granted, Found, unavailable,
  invalid_proof, tier_found, checked_tier, check_chain, find_tier, check_ban, session_created,
  ban_checked, with_tier, with_wallet, handle_verify,
}

abbrev pub is_granted : AuthReply → Bool
is_granted (granted _ _ _ _) = true
is_granted _ = false

-- The sessions, the peers with their owners, and the calls of the session manager.
pub record SameAccess (s s' : Server) : Type 0 where
  pub same_gate : s'.gate ≡ s.gate
  pub same_peers : s'.wg ≡ s.wg
  pub same_owners : s'.peer_owners ≡ s.peer_owners
  pub same_calls : s'.chain_calls ≡ s.chain_calls

SameAccess-refl : (s : Server) → SameAccess s s
SameAccess-refl s = record {
  same_gate = refl;
  same_peers = refl;
  same_owners = refl;
  same_calls = refl;
}

SameAccess-trans : (r s t : Server) → SameAccess r s → SameAccess s t → SameAccess r t
SameAccess-trans r s t h k = record {
  same_gate = k.same_gate ∙ h.same_gate;
  same_peers = k.same_peers ∙ h.same_peers;
  same_owners = k.same_owners ∙ h.same_owners;
  same_calls = k.same_calls ∙ h.same_calls;
}

checked_tier-SameAccess :
    (s : Server) (r : Checker.Checker × Option CheckResult) → SameAccess s (checked_tier s r).0
unfolding checked_tier
checked_tier-SameAccess s (c, none) = record {
  same_gate = refl;
  same_peers = refl;
  same_owners = refl;
  same_calls = refl;
}
checked_tier-SameAccess s (c, some r) = record {
  same_gate = refl;
  same_peers = refl;
  same_owners = refl;
  same_calls = refl;
}

find_tier-SameAccess :
    (ext : SignInExternals) (s : Server) (wallet : Address) (t : VerifyTimes) (zk : Option ZkClient)
    (p : Option ZkProof)
    → SameAccess s (find_tier ext s wallet t zk p).0
unfolding find_tier check_chain
find_tier-SameAccess ext s wallet t (some zk) (some p) = SameAccess-refl s
find_tier-SameAccess ext s wallet t none p = checked_tier-SameAccess s _
find_tier-SameAccess ext s wallet t (some zk) none = checked_tier-SameAccess s _

session_created-SameAccess :
    (ext : SignInExternals) (s : Server) (wallet : Address) (tier : AccessTier)
    (r : Gate × Option Session)
    → (r.1 ≡ none → r.0 ≡ s.gate)
    → is_granted (session_created ext s wallet tier r).1 ≡ false
    → SameAccess s (session_created ext s wallet tier r).0
unfolding session_created
session_created-SameAccess ext s wallet tier (gate, none) k h = record {
  same_gate = k refl;
  same_peers = refl;
  same_owners = refl;
  same_calls = refl;
}
session_created-SameAccess ext s wallet tier (gate, some session) k h = absurd (ground (arith))

ban_checked-SameAccess :
    (sign : Text → Text) (ext : SignInExternals) (s : Server) (wallet : Address) (tier : AccessTier)
    (drawn : Option Text) (now : Time) (b : Option Rep6529.Checker × Bool)
    → is_granted (ban_checked sign ext s wallet tier drawn now b).1 ≡ false
    → SameAccess s (ban_checked sign ext s wallet tier drawn now b).0
unfolding ban_checked
ban_checked-SameAccess sign ext s wallet tier drawn now (rep, true) h = record {
  same_gate = refl;
  same_peers = refl;
  same_owners = refl;
  same_calls = refl;
}
ban_checked-SameAccess sign ext s wallet tier drawn now (rep, false) h =
    let k =
      session_created-SameAccess ext (record s { user_rep = rep }) wallet tier
        (create_session sign s.gate wallet tier drawn now)
        (create_session-none sign s.gate wallet tier drawn now) h in
    record {
      same_gate = k.same_gate;
      same_peers = k.same_peers;
      same_owners = k.same_owners;
      same_calls = k.same_calls;
    }

with_tier-SameAccess :
    (sign : Text → Text) (ext : SignInExternals) (wallet : Address) (drawn : Option Text)
    (t : VerifyTimes) (f : Server × Found)
    → is_granted (with_tier sign ext wallet drawn t f).1 ≡ false
    → SameAccess f.0 (with_tier sign ext wallet drawn t f).0
unfolding with_tier
with_tier-SameAccess sign ext wallet drawn t (s, unavailable code m) h = SameAccess-refl s
with_tier-SameAccess sign ext wallet drawn t (s, invalid_proof) h = SameAccess-refl s
with_tier-SameAccess sign ext wallet drawn t (s, tier_found found) h =
    elim (Bool-cases (effective_tier s.free_tier found == AccessTier.denied)) [
      | inl q ↦ rw q (SameAccess-refl s)
      | inr q ↦ rw q (
          ban_checked-SameAccess sign ext s wallet (effective_tier s.free_tier found) drawn
            t.created_at (check_ban ext t (ext.eth.address_hex wallet) s.user_rep) (ground (arith)))
    ]

with_wallet-SameAccess :
    (sign : Text → Text) (ext : SignInExternals) (s : Server) (proof : Option ZkProof)
    (drawn : Option Text) (t : VerifyTimes) (v : Siwe.Service × Result Siwe.VerifyError Address)
    → is_granted (with_wallet sign ext s proof drawn t v).1 ≡ false
    → SameAccess s (with_wallet sign ext s proof drawn t v).0
unfolding with_wallet
with_wallet-SameAccess sign ext s proof drawn t (siwe, err e) h = record {
  same_gate = refl;
  same_peers = refl;
  same_owners = refl;
  same_calls = refl;
}
with_wallet-SameAccess sign ext s proof drawn t (siwe, ok wallet) h =
    let s1 = record s { siwe = siwe } in
    let f = find_tier ext s1 wallet t ext.others.zk_client proof in
    let a = find_tier-SameAccess ext s1 wallet t ext.others.zk_client proof in
    let b = with_tier-SameAccess sign ext wallet drawn t f h in
    let c = SameAccess-trans s1 f.0 (with_tier sign ext wallet drawn t f).0 a b in
    record {
      same_gate = c.same_gate;
      same_peers = c.same_peers;
      same_owners = c.same_owners;
      same_calls = c.same_calls;
    }

-- A sign-in that is not granted, for whatever reason, leaves the sessions, the peers, the owners
-- of keys and the calls of the session manager as they were.
pub handle_verify-SameAccess :
    (sign : Text → Text) (ext : SignInExternals) (s : Server) (req : Option VerifyRequest)
    (drawn : Option Text) (t : VerifyTimes)
    → is_granted (handle_verify sign ext s req drawn t).1 ≡ false
    → SameAccess s (handle_verify sign ext s req drawn t).0
unfolding handle_verify
handle_verify-SameAccess sign ext s none drawn t h = SameAccess-refl s
handle_verify-SameAccess sign ext s (some req) drawn t h =
    elim (Bool-cases (is_empty req.message || is_empty req.signature)) [
      | inl q ↦ rw q (SameAccess-refl s)
      | inr q ↦ rw q (with_wallet-SameAccess sign ext s req.zk_proof drawn t _ (ground (arith)))
    ]
