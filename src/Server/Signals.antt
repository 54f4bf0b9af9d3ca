-- ===== src/Server/Signals.antt =====
-- gateway/pkg/server/vpn_access.go: the public signals of a vpn_access_v1 proof. `sha256` is the
-- hash of crypto/sha256, from bytes to bytes.
pub mod Binding
use sovereign_vpn.Base.{
  ℕ, ◌+◌, ◌*◌, ◌%◌, Bool, true, false, not, ◌&&◌, ◌||◌, Option, none, some, List, [], ◌∷◌, ◌==◌,
  nat_eq, text_eq, if◌then◌else◌, ℤ, is_positive, Result, ok, err,
}
use sovereign_vpn.Text.{Text, text, is_empty, join, trim_space, format_uint, parse_uint, parse_int}
use sovereign_vpn.Clock.{Time, unix, to_unix, after}
use sovereign_vpn.Anonauth.Challenges.{Challenge}
use sovereign_vpn.Server.State.{AnonymousConnectRequest}

abbrev pub bn254_field_modulus : ℕ
bn254_field_modulus = 21888242871839275222246405745257275088548364400416034343698204186575808495617

pub record VpnAccessV1Signals : Type 0 where
  pub root : Text
  pub policy_epoch : ℕ
  pub entitlement_class : ℕ
  pub expiry_bucket : Time
  pub nullifier_hash : Text
  pub challenge_hash : Text
  pub session_key_hash : Text

-- `SetBytes`: the big-endian value of the bytes
unfoldable pub bytes_value : ℕ → Text → ℕ
bytes_value acc [] = acc
bytes_value acc (b ∷ bs) = bytes_value (acc * 256 + b) bs

unfoldable pub hash_bytes_to_field_string : Text → Text
hash_bytes_to_field_string input = format_uint (bytes_value 0 input % bn254_field_modulus)

pub data SignalError : Type 0 where
  wrong_count bad_policy_epoch bad_entitlement_class bad_expiry_bucket empty_signal : SignalError
  policy_epoch_mismatch already_expired nullifier_mismatch challenge_mismatch : SignalError
  request_key_mismatch signal_key_mismatch : SignalError

unfoldable pub signal_message : SignalError → Text
signal_message wrong_count = text "vpn_access_v1 requires exactly 7 public signals"
signal_message bad_policy_epoch = text "vpn_access_v1 policy_epoch must be an unsigned integer"
signal_message bad_entitlement_class =
    text "vpn_access_v1 entitlement_class must be a positive integer"
signal_message bad_expiry_bucket =
    text "vpn_access_v1 expiry_bucket must be a positive unix timestamp"
signal_message empty_signal = text "vpn_access_v1 public signals must all be non-empty"
signal_message policy_epoch_mismatch = text "vpn_access_v1 policy_epoch does not match challenge"
signal_message already_expired = text "vpn_access_v1 entitlement is already expired"
signal_message nullifier_mismatch = text "vpn_access_v1 nullifier_hash does not match request"
signal_message challenge_mismatch = text "vpn_access_v1 challenge_hash does not match challenge"
signal_message request_key_mismatch =
    text "vpn_access_v1 session_key_hash does not match public_key"
signal_message signal_key_mismatch = text "vpn_access_v1 session_key_hash does not match request"

-- The numbers among the signals, read in the code's order.
parse_class : Option ℕ → Option ℕ
parse_class none = none
parse_class (some n) = if n == 0 then none else some n

parse_expiry : Option ℤ → Option ℤ
parse_expiry none = none
parse_expiry (some n) = if is_positive n then some n else none

module _ (sha256 : Text → Text) where
  unfoldable pub derive_challenge_hash : Challenge → Text
  derive_challenge_hash c = hash_bytes_to_field_string (
      sha256 (
        join b'|' (
          text "vpn_access_v1"
          ∷ c.id
          ∷ c.nonce
          ∷ format_uint c.policy_epoch
          ∷ format_uint (to_unix c.expires_at)
          ∷ [])))

  unfoldable pub derive_session_key_hash : Text → Text
  derive_session_key_hash public_key = hash_bytes_to_field_string (sha256 (trim_space public_key))

  -- The checks on the assembled signals.
  check_signals :
      Challenge
      → AnonymousConnectRequest
      → Time
      → Text
      → VpnAccessV1Signals
      → Result SignalError VpnAccessV1Signals
  check_signals challenge req now expiry s =
      if is_empty s.root
        || is_empty expiry
        || is_empty s.nullifier_hash
        || is_empty s.challenge_hash
        || is_empty s.session_key_hash
      then err empty_signal
      else if not (s.policy_epoch == challenge.policy_epoch)
      then err policy_epoch_mismatch
      else if not (after s.expiry_bucket now)
      then err already_expired
      else if not (s.nullifier_hash == req.nullifier_hash)
      then err nullifier_mismatch
      else if not (s.challenge_hash == derive_challenge_hash challenge)
      then err challenge_mismatch
      else if not (req.session_key_hash == derive_session_key_hash req.public_key)
      then err request_key_mismatch
      else if not (s.session_key_hash == derive_session_key_hash req.public_key)
      then err signal_key_mismatch
      else ok s

  with_numbers :
      Challenge
      → AnonymousConnectRequest
      → Time
      → Text
      → Text
      → Text
      → Text
      → Text
      → Option ℕ
      → Option ℕ
      → Option ℤ
      → Result SignalError VpnAccessV1Signals
  unfolding check_signals
  with_numbers challenge req now root expiry nullifier hash key none _ _ = err bad_policy_epoch
  with_numbers challenge req now root expiry nullifier hash key (some epoch) none _ =
      err bad_entitlement_class
  with_numbers challenge req now root expiry nullifier hash key (some epoch) (some class) none =
      err bad_expiry_bucket
  with_numbers challenge req now root expiry nullifier hash key (some epoch) (some class)
        (some bucket) =
      check_signals challenge req now expiry (record {
        root = root;
        policy_epoch = epoch;
        entitlement_class = class;
        expiry_bucket = unix bucket;
        nullifier_hash = nullifier;
        challenge_hash = hash;
        session_key_hash = key;
      })

  validate_list :
      Challenge → AnonymousConnectRequest → Time → List Text → Result SignalError VpnAccessV1Signals
  unfolding with_numbers parse_class parse_expiry
  validate_list challenge req now (root ∷ epoch ∷ class ∷ expiry ∷ nullifier ∷ hash ∷ key ∷ []) =
      with_numbers challenge req now root expiry nullifier hash key (parse_uint epoch)
        (parse_class (parse_uint class)) (parse_expiry (parse_int expiry))
  validate_list challenge req now _ = err wrong_count

  -- `validateVPNAccessV1Signals` on a challenge that is not nil
  unfoldable pub validate_signals :
      Challenge → AnonymousConnectRequest → Time → Result SignalError VpnAccessV1Signals
  unfolding validate_list
  validate_signals challenge req now = validate_list challenge req now req.public_signals
