-- ===== src/Server/Auth/Outcome.antt =====
-- What a granted reply shows of the steps after the search for the tier.
use sovereign_vpn.Base.{
  ◌≡◌, ◌≢◌, refl, ap, ◌∙◌, inl, inr, Bool, true, false, Option, none, some, ◌==◌, nat_eq, text_eq,
  arith, Bool-cases, beq_refl, ne_of_beq-false,
}
use sovereign_vpn.Text.{Text}
use sovereign_vpn.Clock.{Time}
use sovereign_vpn.Map.{lookup}
use sovereign_vpn.External.{Address}
use sovereign_vpn.Rep6529
use sovereign_vpn.Nftcheck.Tier.{AccessTier, tier_string, tier_eq}
use sovereign_vpn.Nftgate.Store.{Session}
use sovereign_vpn.Nftgate.Store.Laws.{sessions-set}
use sovereign_vpn.Nftgate.Gate.{Gate, create_session}
use sovereign_vpn.Nftgate.Gate.Sessions.{create_session-Created}
use sovereign_vpn.Server.State.{Server, SessionManager}
use sovereign_vpn.Server.Tier.{effective_tier}
use sovereign_vpn.Server.Auth.{
  SignInExternals, VerifyTimes, granted, Found, unavailable, invalid_proof, tier_found, check_ban,
  record_free, session_created, ban_checked, with_tier,
}

record_free-gate :
    (s : Server) (wallet : Address) (tier : AccessTier) (m : Option SessionManager)
    → ((record_free s wallet tier m).gate ≡ s.gate) × ((record_free s wallet tier m).siwe ≡ s.siwe)
unfolding record_free
record_free-gate s wallet tier none = (refl, refl)
record_free-gate s wallet tier (some m) = ground (arith)

-- The session of a granted reply.
pub record Made (ext : SignInExternals) (s s' : Server) (wallet : Address) (tier : AccessTier)
    (r : Gate × Option Session) (address token name : Text) (expires_at : Time) : Type 0 where
  pub session : Session
  pub made : r.1 ≡ some session
  pub gate_after : s'.gate ≡ r.0
  pub siwe_after : s'.siwe ≡ s.siwe
  pub own_address : address ≡ ext.eth.address_hex wallet
  pub own_token : token ≡ session.token
  pub own_tier : name ≡ tier_string tier
  pub own_expiry : expires_at ≡ session.expires_at

session_created-granted :
    (ext : SignInExternals) (s : Server) (wallet : Address) (tier : AccessTier)
    (r : Gate × Option Session) (address token name : Text) (expires_at : Time)
    → (session_created ext s wallet tier r).1 ≡ granted address token name expires_at
    → Made ext s (session_created ext s wallet tier r).0 wallet tier r address token name expires_at
unfolding session_created
session_created-granted ext s wallet tier (gate, none) address token name expires_at h =
    absurd (ground (arith))
session_created-granted ext s wallet tier (gate, some session) address token name expires_at h =
    let same = record_free-gate (record s { gate = gate }) wallet tier ext.others.session_mgr in
    record {
      session = session;
      made = refl;
      gate_after = same.0;
      siwe_after = same.1;
      own_address = ground (arith);
      own_token = ground (arith);
      own_tier = ground (arith);
      own_expiry = ground (arith);
    }

ban_checked-granted :
    (sign : Text → Text) (ext : SignInExternals) (s : Server) (wallet : Address) (tier : AccessTier)
    (drawn : Option Text) (now : Time) (b : Option Rep6529.Checker × Bool)
    (address token name : Text) (expires_at : Time)
    → (ban_checked sign ext s wallet tier drawn now b).1 ≡ granted address token name expires_at
    → (b.1 ≡ false)
      × Made ext s
          (ban_checked sign ext s wallet tier drawn now b).0
          wallet
          tier
          (create_session sign s.gate wallet tier drawn now)
          address
          token
          name
          expires_at
unfolding ban_checked
ban_checked-granted sign ext s wallet tier drawn now (rep, true) address token name expires_at h =
    absurd (ground (arith))
ban_checked-granted sign ext s wallet tier drawn now (rep, false) address token name expires_at h =
    let m =
      session_created-granted ext (record s { user_rep = rep }) wallet tier _ address token name
        expires_at h in
    (
      refl,
      record {
        session = m.session;
        made = m.made;
        gate_after = m.gate_after;
        siwe_after = m.siwe_after;
        own_address = m.own_address;
        own_token = m.own_token;
        own_tier = m.own_tier;
        own_expiry = m.own_expiry;
      },
    )

-- What a grant shows of the step that found the tier.
pub record FromTier (sign : Text → Text) (ext : SignInExternals) (s' : Server) (wallet : Address)
    (drawn : Option Text) (t : VerifyTimes) (f : Server × Found) (address token name : Text)
    (expires_at : Time) : Type 0 where
  pub tier : AccessTier
  pub was_found : f.1 ≡ tier_found tier
  pub let_in : effective_tier f.0.free_tier tier ≢ AccessTier.denied
  pub passed : (check_ban ext t (ext.eth.address_hex wallet) f.0.user_rep).1 ≡ false
  pub outcome :
      Made ext f.0 s' wallet
        (effective_tier f.0.free_tier tier)
        (create_session sign f.0.gate wallet (effective_tier f.0.free_tier tier) drawn t.created_at)
        address
        token
        name
        expires_at

pub with_tier-granted :
    (sign : Text → Text) (ext : SignInExternals) (wallet : Address) (drawn : Option Text)
    (t : VerifyTimes) (f : Server × Found) (address token name : Text) (expires_at : Time)
    → (with_tier sign ext wallet drawn t f).1 ≡ granted address token name expires_at
    → FromTier sign ext
        (with_tier sign ext wallet drawn t f).0
        wallet
        drawn
        t
        f
        address
        token
        name
        expires_at
unfolding with_tier
with_tier-granted sign ext wallet drawn t (s, unavailable code m) address token name expires_at h =
    absurd (ground (arith))
with_tier-granted sign ext wallet drawn t (s, invalid_proof) address token name expires_at h =
    absurd (ground (arith))
with_tier-granted sign ext wallet drawn t (s, tier_found found) address token name expires_at h =
    elim (Bool-cases (effective_tier s.free_tier found == AccessTier.denied)) [
      | inl q ↦ absurd (ground (arith))
      | inr q ↦
          let (clear, m) =
            ban_checked-granted sign ext s wallet (effective_tier s.free_tier found) drawn
              t.created_at (check_ban ext t (ext.eth.address_hex wallet) s.user_rep) address token
              name expires_at (ground (arith)) in
          rw q (record {
            tier = found;
            was_found = refl;
            let_in = ne_of_beq-false (effective_tier s.free_tier found) AccessTier.denied q;
            passed = clear;
            outcome = m;
          })
    ]

pub Made-stored :
    (sign : Text → Text) (ext : SignInExternals) (s s' : Server) (g : Gate) (wallet : Address)
    (tier : AccessTier) (drawn : Option Text) (now : Time) (address token name : Text)
    (expires_at : Time)
    → (m : Made ext s s' wallet tier
        (create_session sign g wallet tier drawn now)
        address
        token
        name
        expires_at)
    → lookup m.session.id s'.gate.store.sessions ≡ some m.session
Made-stored sign ext s s' g wallet tier drawn now address token name expires_at m =
    let c = create_session-Created sign g wallet tier drawn now m.session m.made in
    ap (λ x. lookup m.session.id x.store.sessions) m.gate_after
    ∙ ap (λ x. lookup m.session.id x.sessions) c.stored
    ∙ sessions-set g.store m.session m.session.id c.bound
    ∙ rw (beq_refl m.session.id) refl
