-- ===== src/Nftgate/Gate/Anonymous.antt =====
-- `CreateAnonymousSession`: the session that it makes.
use sovereign_vpn.Base.{◌≡◌, refl, false, Option, none, some, nat_eq, text_eq, arith}
use sovereign_vpn.Text.{Text}
use sovereign_vpn.Clock.{Time, add}
use sovereign_vpn.Nftgate.Store.{Session, set}
use sovereign_vpn.Nftgate.Token.{new_session_token}
use sovereign_vpn.Nftgate.Gate.{
  Gate, AnonymousSessionParams, create_anonymous_session, with_anonymous_token, store_session,
  anonymous_session, capped_expiry,
}

-- The session that an anonymous sign-in makes, and the store with it.
pub record Made (sign : Text → Text) (g : Gate) (params : AnonymousSessionParams)
    (drawn : Option Text) (now : Time) (s : Session) : Type 0 where
  pub stored : (create_anonymous_session sign g params drawn now).0.store ≡ set g.store s
  pub drawn_id : drawn ≡ some s.id
  pub unbound : s.address_bound ≡ false
  pub level : s.tier ≡ params.tier
  pub nullifier : s.nullifier_hash ≡ params.nullifier_hash
  pub key_hash : s.session_key_hash ≡ params.session_key_hash
  pub epoch : s.policy_epoch ≡ params.policy_epoch
  pub expiry : s.expires_at ≡ capped_expiry params.expires_at (add now g.cred_ttl)

module _ (sign : Text → Text) (g : Gate) (params : AnonymousSessionParams) (now : Time) where
  pub create_anonymous_session-Made :
      (drawn : Option Text) (s : Session)
      → (create_anonymous_session sign g params drawn now).1 ≡ some s
      → Made sign g params drawn now s
  unfolding create_anonymous_session with_anonymous_token store_session new_session_token
      anonymous_session
  create_anonymous_session-Made none s h = absurd (ground (arith))
  create_anonymous_session-Made (some id) s h = record {
    stored = ground (arith);
    drawn_id = ground (arith);
    unbound = ground (arith);
    level = ground (arith);
    nullifier = ground (arith);
    key_hash = ground (arith);
    epoch = ground (arith);
    expiry = ground (arith);
  }

  pub create_anonymous_session-eq_none :
      (drawn : Option Text)
      → (create_anonymous_session sign g params drawn now).1 ≡ none
      → (create_anonymous_session sign g params drawn now).0 ≡ g
  unfolding create_anonymous_session with_anonymous_token store_session new_session_token
  create_anonymous_session-eq_none none h = refl
  create_anonymous_session-eq_none (some id) h = absurd (ground (arith))
