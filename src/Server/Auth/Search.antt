-- ===== src/Server/Auth/Search.antt =====
-- Where the tier of a sign-in comes from, and what the search for it leaves as it was.
use sovereign_vpn.Base.{
  ◌≡◌, refl, ◌⊎◌, inl, inr, Bool, true, false, Option, none, some, nat_eq, text_eq, arith,
}
use sovereign_vpn.External.{Address}
use sovereign_vpn.Nftcheck.Tier.{AccessTier, tier_eq}
use sovereign_vpn.Nftcheck.Checker
use sovereign_vpn.Nftcheck.Checker.{CheckResult}
use sovereign_vpn.Server.State.{Server, ZkClient}
use sovereign_vpn.Server.Tier.{tier_from_zk_proof}
use sovereign_vpn.Server.Auth.{
  SignInExternals, ZkProof, VerifyTimes, tier_found, zk_tier, checked_tier, check_chain, find_tier,
}

-- Where a tier comes from: a proof that the ZK API accepts, or the checker's answer.
abbrev pub ByProof : SignInExternals → Server → Option ZkProof → AccessTier → Type 0
ByProof ext s proof tier =
    (zk : ZkClient) × (p : ZkProof) × (ext.others.zk_client ≡ some zk)
    × (proof ≡ some p)
    × (zk.verify_proof p.proof_type p.proof p.public_signals ≡ some true)
    × (tier_from_zk_proof s.this_card_id p.proof_type p.public_signals ≡ tier)

abbrev pub ByChain : SignInExternals → Server → Address → VerifyTimes → AccessTier → Type 0
ByChain ext s wallet t tier =
    (r : CheckResult) × ((Checker.check ext.query (ext.vaults wallet) s.checker wallet t.read_at
        t.checked_at t.cached_at).1
      ≡ some r)
    × (r.tier ≡ tier)

-- What a search of the tier leaves as it was.
pub record Untouched (s s' : Server) : Type 0 where
  pub same_gate : s'.gate ≡ s.gate
  pub same_siwe : s'.siwe ≡ s.siwe
  pub same_rep : s'.user_rep ≡ s.user_rep
  pub same_free_tier : s'.free_tier ≡ s.free_tier

checked_tier-Untouched :
    (s : Server) (r : Checker.Checker × Option CheckResult) → Untouched s (checked_tier s r).0
unfolding checked_tier
checked_tier-Untouched s (c, none) = record {
  same_gate = refl;
  same_siwe = refl;
  same_rep = refl;
  same_free_tier = refl;
}
checked_tier-Untouched s (c, some r) = record {
  same_gate = refl;
  same_siwe = refl;
  same_rep = refl;
  same_free_tier = refl;
}

pub find_tier-Untouched :
    (ext : SignInExternals) (s : Server) (wallet : Address) (t : VerifyTimes) (zk : Option ZkClient)
    (p : Option ZkProof)
    → Untouched s (find_tier ext s wallet t zk p).0
unfolding find_tier check_chain
find_tier-Untouched ext s wallet t (some zk) (some p) = record {
  same_gate = refl;
  same_siwe = refl;
  same_rep = refl;
  same_free_tier = refl;
}
find_tier-Untouched ext s wallet t none p = checked_tier-Untouched s _
find_tier-Untouched ext s wallet t (some zk) none = checked_tier-Untouched s _

checked_tier-found :
    (s : Server) (r : Checker.Checker × Option CheckResult) (tier : AccessTier)
    → (checked_tier s r).1 ≡ tier_found tier
    → (answer : CheckResult) × (r.1 ≡ some answer) × (answer.tier ≡ tier)
unfolding checked_tier
checked_tier-found s (c, none) tier h = absurd (ground (arith))
checked_tier-found s (c, some r) tier h = (r, refl, ground (arith))

zk_tier-found :
    (s : Server) (p : ZkProof) (o : Option Bool) (tier : AccessTier)
    → zk_tier s p o ≡ tier_found tier
    → (o ≡ some true) × (tier_from_zk_proof s.this_card_id p.proof_type p.public_signals ≡ tier)
unfolding zk_tier
zk_tier-found s p none tier h = absurd (ground (arith))
zk_tier-found s p (some false) tier h = absurd (ground (arith))
zk_tier-found s p (some true) tier h = ground (arith)

pub find_tier-found :
    (ext : SignInExternals) (s : Server) (wallet : Address) (t : VerifyTimes) (zk : Option ZkClient)
    (p : Option ZkProof) (tier : AccessTier)
    → ext.others.zk_client ≡ zk
    → (find_tier ext s wallet t zk p).1 ≡ tier_found tier
    → ByProof ext s p tier ⊎ ByChain ext s wallet t tier
unfolding find_tier check_chain
find_tier-found ext s wallet t (some zk) (some p) tier z h =
    let (valid, same) = zk_tier-found s p _ tier h in inl (zk, p, z, refl, valid, same)
find_tier-found ext s wallet t none p tier z h = inr (checked_tier-found s _ tier h)
find_tier-found ext s wallet t (some zk) none tier z h = inr (checked_tier-found s _ tier h)
