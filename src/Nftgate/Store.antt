-- ===== src/Nftgate/Store.antt =====
-- gateway/pkg/nftgate/sessions.go, and `Session` of middleware.go. Sessions are not changed once
-- they are stored, so a stored pointer is the session. Each method holds the store's mutex.
pub mod Laws
pub mod Invariant
pub mod Effects
use sovereign_vpn.Base.{
  ℕ, Bool, true, false, not, ◌&&◌, Option, none, some, ◌==◌, nat_eq, text_eq, if◌then◌else◌,
}
use sovereign_vpn.Text.{Text}
use sovereign_vpn.Clock.{Time, after}
use sovereign_vpn.Nftcheck.Tier.{AccessTier}
use sovereign_vpn.Map.{Map, keys, size, lookup, insert, delete}
use sovereign_vpn.Base.{List, [], ◌∷◌}

-- `common.Address`: 20 bytes read as a number, the zero address 0.
abbrev pub Address : Type 0
Address = ℕ

pub record Session : Type 0 where
  pub address : Address
  pub address_bound : Bool
  pub nullifier_hash : Text
  pub session_key_hash : Text
  pub policy_epoch : ℕ
  pub id : Text
  pub token : Text
  pub tier : AccessTier
  pub created_at : Time
  pub expires_at : Time

pub record SessionStore : Type 0 where
  pub sessions : Map Text Session
  pub address_to_id : Map Address Text

unfoldable pub new_session_store : SessionStore
new_session_store = record { sessions = []; address_to_id = [] }

-- The old session of an address that gets a new one goes.
drop_old : Map Text Session → Text → Option Text → Map Text Session
drop_old m id none = m
drop_old m id (some old) = if not (old == id) then delete old m else m

unfoldable pub set : SessionStore → Session → SessionStore
unfolding drop_old
set ss s =
    if s.address_bound
    then record {
      sessions = insert s.id s (drop_old ss.sessions s.id (lookup s.address ss.address_to_id));
      address_to_id = insert s.address s.id ss.address_to_id;
    }
    else record ss { sessions = insert s.id s ss.sessions }

unfoldable pub get_by_id : SessionStore → Text → Option Session
get_by_id ss id = lookup id ss.sessions

by_id : SessionStore → Option Text → Option Session
by_id ss none = none
by_id ss (some id) = lookup id ss.sessions

unfoldable pub get_by_address : SessionStore → Address → Option Session
unfolding by_id
get_by_address ss addr = by_id ss (lookup addr ss.address_to_id)

unbind : Option Session → Map Address Text → Map Address Text
unbind none m = m
unbind (some s) m = if s.address_bound then delete s.address m else m

unfoldable pub delete_by_id : SessionStore → Text → SessionStore
unfolding unbind
delete_by_id ss id = record {
  sessions = delete id ss.sessions;
  address_to_id = unbind (lookup id ss.sessions) ss.address_to_id;
}

drop_address : SessionStore → Address → Option Text → SessionStore
drop_address ss addr none = ss
drop_address ss addr (some id) = record {
  sessions = delete id ss.sessions;
  address_to_id = delete addr ss.address_to_id;
}

unfoldable pub delete_by_address : SessionStore → Address → SessionStore
unfolding drop_address
delete_by_address ss addr = drop_address ss addr (lookup addr ss.address_to_id)

unfoldable pub store_len : SessionStore → ℕ
store_len ss = size ss.sessions

abbrev pub is_expired : Time → Option Session → Bool
is_expired now none = false
is_expired now (some s) = after now s.expires_at

-- One tick of the cleanup routine: the range loop over the sessions, by their keys.
cleanup_keys : Time → List Text → SessionStore → SessionStore
cleanup_keys now [] ss = ss
cleanup_keys now (id ∷ ids) ss =
    cleanup_keys now ids (if is_expired now (lookup id ss.sessions) then delete_by_id ss id else ss)

unfoldable pub cleanup : SessionStore → Time → SessionStore
unfolding cleanup_keys
cleanup ss now = cleanup_keys now (keys ss.sessions) ss
