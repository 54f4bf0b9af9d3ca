-- ===== src/Nftgate/Gate.antt =====
-- The gate of gateway/pkg/nftgate/middleware.go over the session store. The cached access checker
-- is a component of its own; the clock readings of an operation are arguments, in their order.
pub mod Anonymous
pub mod Sessions
use sovereign_vpn.Base.{
  ℕ, Bool, true, false, not, ◌&&◌, ◌||◌, Option, none, some, ◌==◌, nat_beq, if◌then◌else◌, List, [],
  ◌∷◌,
}
use sovereign_vpn.Text.{Text}
use sovereign_vpn.Clock.{Time, Duration, add, after, before}
use sovereign_vpn.Nftcheck.Tier.{AccessTier}
use sovereign_vpn.Nftgate.Token.{new_session_token, parse_and_verify_token}
use sovereign_vpn.Nftgate.Store.{
  Address, Session, SessionStore, set, get_by_id, get_by_address, delete_by_id, delete_by_address,
}

pub record Gate : Type 0 where
  pub cred_ttl : Duration
  pub store : SessionStore

pub record AnonymousSessionParams : Type 0 where
  pub tier : AccessTier
  pub policy_epoch : ℕ
  pub nullifier_hash : Text
  pub session_key_hash : Text
  pub expires_at : Time

-- A requested expiry that is set (not the zero time) and earlier than the default.
unfoldable pub capped_expiry : Time → Time → Time
capped_expiry requested default =
    if not (nat_beq requested 0) && before requested default then requested else default

store_session : Gate → Session → Gate × Option Session
store_session g s = (record g { store = set g.store s }, some s)

wallet_session : Address → AccessTier → Time → Time → Text × Text → Session
wallet_session wallet tier now expires_at (id, token) = record {
  address = wallet;
  address_bound = true;
  nullifier_hash = [];
  session_key_hash = [];
  policy_epoch = 0;
  id = id;
  token = token;
  tier = tier;
  created_at = now;
  expires_at = expires_at;
}

anonymous_session : AnonymousSessionParams → Time → Time → Text × Text → Session
anonymous_session params now expires_at (id, token) = record {
  address = 0;
  address_bound = false;
  nullifier_hash = params.nullifier_hash;
  session_key_hash = params.session_key_hash;
  policy_epoch = params.policy_epoch;
  id = id;
  token = token;
  tier = params.tier;
  created_at = now;
  expires_at = expires_at;
}

module _ (sign : Text → Text) where
  with_wallet_token :
      Gate → Address → AccessTier → Time → Option (Text × Text) → Gate × Option Session
  unfolding store_session wallet_session
  with_wallet_token g wallet tier now none = (g, none)
  with_wallet_token g wallet tier now (some minted) =
      store_session g (wallet_session wallet tier now (add now g.cred_ttl) minted)

  -- `CreateSession`; `drawn` is the random id.
  unfoldable pub create_session :
      Gate → Address → AccessTier → Option Text → Time → Gate × Option Session
  unfolding with_wallet_token
  create_session g wallet tier drawn now =
      with_wallet_token g wallet tier now (new_session_token sign drawn (add now g.cred_ttl))

  with_anonymous_token :
      Gate → AnonymousSessionParams → Time → Time → Option (Text × Text) → Gate × Option Session
  unfolding store_session anonymous_session
  with_anonymous_token g params now expires_at none = (g, none)
  with_anonymous_token g params now expires_at (some minted) =
      store_session g (anonymous_session params now expires_at minted)

  -- `CreateAnonymousSession`
  unfoldable pub create_anonymous_session :
      Gate → AnonymousSessionParams → Option Text → Time → Gate × Option Session
  unfolding with_anonymous_token capped_expiry
  create_anonymous_session g params drawn now =
      let expires_at = capped_expiry params.expires_at (add now g.cred_ttl) in
      with_anonymous_token g params now expires_at (new_session_token sign drawn expires_at)

  by_token : Gate → Text → Time → Time → Option Session → Gate × Option Session
  by_token g id expires_at now none = (g, none)
  by_token g id expires_at now (some s) =
      if after now s.expires_at || after now expires_at
      then (record g { store = delete_by_id g.store id }, none)
      else (g, some s)

  at_parsed : Gate → Time → Option (Text × Time) → Gate × Option Session
  unfolding by_token
  at_parsed g now none = (g, none)
  at_parsed g now (some (id, expires_at)) = by_token g id expires_at now (get_by_id g.store id)

  -- `GetSessionByToken`
  unfoldable pub get_session_by_token : Gate → Text → Time → Gate × Option Session
  unfolding at_parsed
  get_session_by_token g token now = at_parsed g now (parse_and_verify_token sign token)

at_address : Gate → Address → Time → Option Session → Gate × Option Session
at_address g wallet now none = (g, none)
at_address g wallet now (some s) =
    if after now s.expires_at
    then (record g { store = delete_by_address g.store wallet }, none)
    else (g, some s)

-- `GetSession`
unfoldable pub get_session : Gate → Address → Time → Gate × Option Session
unfolding at_address
get_session g wallet now = at_address g wallet now (get_by_address g.store wallet)

-- `RevokeSession` and `DeleteSessionByID`
unfoldable pub revoke_session : Gate → Address → Gate
revoke_session g wallet = record g { store = delete_by_address g.store wallet }

unfoldable pub delete_session_by_id : Gate → Text → Gate
delete_session_by_id g id = record g { store = delete_by_id g.store id }
