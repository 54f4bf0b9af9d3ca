-- ===== src/Server/Auth/Granted.antt =====
-- Whom a sign-in is granted to.
use sovereign_vpn.Base.{
  ◌≡◌, ◌≢◌, refl, sym, subst, ◌∙◌, ◌⊎◌, inl, inr, false, ◌||◌, Option, some, nat_eq, text_eq, arith,
  Bool-cases, Result, ok, err,
}
use sovereign_vpn.Text.{Text, is_empty}
use sovereign_vpn.Clock.{Time}
use sovereign_vpn.Map.{lookup}
use sovereign_vpn.External.{Address}
use sovereign_vpn.Siwe.Service as Siwe
use sovereign_vpn.Siwe.Service.SignIn.{SignedIn, verify-SignedIn}
use sovereign_vpn.Nftcheck.Tier.{AccessTier, tier_string, tier_eq}
use sovereign_vpn.Nftgate.Store.{Session}
use sovereign_vpn.Nftgate.Gate.{create_session}
use sovereign_vpn.Nftgate.Gate.Sessions.{Created, create_session-Created}
use sovereign_vpn.Server.State.{Server}
use sovereign_vpn.Server.Tier.{effective_tier}
use sovereign_vpn.Server.Auth.{
  SignInExternals, VerifyRequest, VerifyTimes, granted, find_tier, check_ban, with_wallet,
  handle_verify,
}
use sovereign_vpn.Server.Auth.Search.{ByProof, ByChain, find_tier-Untouched, find_tier-found}
use sovereign_vpn.Server.Auth.Outcome.{with_tier-granted, Made-stored}

-- What stands behind a granted sign-in.
pub record IsGranted (sign : Text → Text) (ext : SignInExternals) (s s' : Server)
    (req : VerifyRequest) (drawn : Option Text) (t : VerifyTimes) (address token tier : Text)
    (expires_at : Time) : Type 0 where
  pub wallet : Address
  pub found : AccessTier
  pub session : Session
  pub signed :
      SignedIn ext.eth ext.times s.siwe s'.siwe req.message req.signature t.verified_at
        t.consumed_at wallet
  pub entitled : ByProof ext s req.zk_proof found ⊎ ByChain ext s wallet t found
  pub not_denied : effective_tier s.free_tier found ≢ AccessTier.denied
  pub not_banned : (check_ban ext t (ext.eth.address_hex wallet) s.user_rep).1 ≡ false
  pub created :
      Created sign s.gate wallet (effective_tier s.free_tier found) drawn t.created_at session
  pub stored : lookup session.id s'.gate.store.sessions ≡ some session
  pub answered_address : address ≡ ext.eth.address_hex wallet
  pub answered_token : token ≡ session.token
  pub answered_tier : tier ≡ tier_string (effective_tier s.free_tier found)
  pub answered_expiry : expires_at ≡ session.expires_at

with_wallet-granted :
    (sign : Text → Text) (ext : SignInExternals) (s : Server) (req : VerifyRequest)
    (drawn : Option Text) (t : VerifyTimes) (v : Siwe.Service × Result Siwe.VerifyError Address)
    (address token name : Text) (expires_at : Time)
    → Siwe.verify ext.eth ext.times s.siwe req.message req.signature t.verified_at t.consumed_at ≡ v
    → (with_wallet sign ext s req.zk_proof drawn t v).1 ≡ granted address token name expires_at
    → IsGranted sign ext s
        (with_wallet sign ext s req.zk_proof drawn t v).0
        req
        drawn
        t
        address
        token
        name
        expires_at
unfolding with_wallet
with_wallet-granted sign ext s req drawn t (siwe, err e) address token name expires_at v h =
    absurd (ground (arith))
with_wallet-granted sign ext s req drawn t (siwe, ok wallet) address token name expires_at v h =
    let s1 = record s { siwe = siwe } in
    let f = find_tier ext s1 wallet t ext.others.zk_client req.zk_proof in
    let g = with_tier-granted sign ext wallet drawn t f address token name expires_at h in
    let u = find_tier-Untouched ext s1 wallet t ext.others.zk_client req.zk_proof in
    let tier = effective_tier s.free_tier g.tier in
    let m = g.outcome in
    let created = create_session-Created sign s.gate wallet tier drawn t.created_at m.session (
      subst
        (λ b.
          (create_session sign s.gate wallet (effective_tier b g.tier) drawn t.created_at).1
          ≡ some m.session)
        u.same_free_tier
        (subst
          (λ x.
            (create_session sign x wallet (effective_tier f.0.free_tier g.tier) drawn
              t.created_at).1
            ≡ some m.session)
          u.same_gate m.made)) in
    record {
      wallet = wallet;
      found = g.tier;
      session = m.session;
      signed =
          subst
            (λ z.
              SignedIn ext.eth ext.times s.siwe z req.message req.signature t.verified_at
                t.consumed_at wallet)
            (sym (m.siwe_after ∙ u.same_siwe))
            (verify-SignedIn ext.eth ext.times s.siwe siwe req.message req.signature t.verified_at
              t.consumed_at wallet v);
      entitled =
          find_tier-found ext s1 wallet t ext.others.zk_client req.zk_proof g.tier refl g.was_found;
      not_denied =
          subst (λ b. effective_tier b g.tier ≢ AccessTier.denied) u.same_free_tier g.let_in;
      not_banned =
          subst (λ c. (check_ban ext t (ext.eth.address_hex wallet) c).1 ≡ false) u.same_rep
            g.passed;
      created = created;
      stored =
          Made-stored sign ext f.0 _ f.0.gate wallet (effective_tier f.0.free_tier g.tier) drawn
            t.created_at address token name expires_at m;
      answered_address = m.own_address;
      answered_token = m.own_token;
      answered_tier =
          subst (λ b. name ≡ tier_string (effective_tier b g.tier)) u.same_free_tier m.own_tier;
      answered_expiry = m.own_expiry;
    }

-- A sign-in is granted only to the wallet that signed the request's message by all the checks of a
-- sign-in, with a tier that a proof accepted by the ZK API or the checker gives and that is not
-- denied, and with no negative rating found; the reply has that wallet's address, the tier, and
-- the token and expiry of a new session of the wallet, which is stored.
pub handle_verify-IsGranted :
    (sign : Text → Text) (ext : SignInExternals) (s : Server) (req : VerifyRequest)
    (drawn : Option Text) (t : VerifyTimes) (address token name : Text) (expires_at : Time)
    → (handle_verify sign ext s (some req) drawn t).1 ≡ granted address token name expires_at
    → IsGranted sign ext s
        (handle_verify sign ext s (some req) drawn t).0
        req
        drawn
        t
        address
        token
        name
        expires_at
unfolding handle_verify
handle_verify-IsGranted sign ext s req drawn t address token name expires_at h =
    elim (Bool-cases (is_empty req.message || is_empty req.signature)) [
      | inl q ↦ absurd (ground (arith))
      | inr q ↦ rw q (
          with_wallet-granted sign ext s req drawn t _ address token name expires_at refl
            (ground (arith)))
    ]
