-- ===== src/Siwe/Service.antt =====
-- The SIWE service of gateway/pkg/siwe/siwe.go: challenges and the verification of signed messages.
pub mod Completeness
pub mod SignIn
use sovereign_vpn.Base.{
  ◌*◌, ℕ, zero, suc, ◌+◌, ◌-◌, Bool, true, false, not, Option, none, some, List, [], ◌∷◌, ◌++◌,
  ◌==◌, text_eq, int_eq, nat_eq, if◌then◌else◌, leb, ℤ, length, Result, ok, err,
}
use sovereign_vpn.Text.{Text, text, format_uint}
use sovereign_vpn.Strings.{equal_fold}
use sovereign_vpn.Clock.{Time, Duration, add, after, minute}
use sovereign_vpn.External.{Address, Ethereum, TimeText}
use sovereign_vpn.Siwe.NonceStore
use sovereign_vpn.Siwe.NonceStore.{NonceStore}
use sovereign_vpn.Siwe.Message.{Challenge, ParsedMessage, ParseError, parse_message}

pub record Service : Type 0 where
  pub domain : Text
  pub uri : Text
  pub nonce_store : NonceStore
  pub chain_id : ℤ
  pub challenge_ttl : Duration

unfoldable pub new_service : Text → Text → Duration → Service
unfolding NonceStore.new_nonce_store
new_service domain uri challenge_ttl = record {
  domain = domain;
  uri = uri;
  nonce_store = NonceStore.new_nonce_store challenge_ttl;
  chain_id = ℤ.pos 1;
  challenge_ttl = challenge_ttl;
}

unfoldable pub set_chain_id : Service → ℤ → Service
set_chain_id s chain_id = record s { chain_id = chain_id }

challenge_of : Service → Text → Time → Challenge
challenge_of s nonce issued_at = record {
  domain = s.domain;
  uri = s.uri;
  version = text "1";
  chain_id = s.chain_id;
  nonce = nonce;
  issued_at = issued_at;
  expiration_time = add issued_at s.challenge_ttl;
  statement = text "Sign in to Sovereign VPN with your Ethereum account.";
}

with_nonce : Service → Time → NonceStore × Option Text → Service × Option Challenge
unfolding challenge_of
with_nonce s issued_at (store, none) = (record s { nonce_store = store }, none)
with_nonce s issued_at (store, some nonce) =
    (record s { nonce_store = store }, some (challenge_of s nonce issued_at))

-- `NewChallenge`: the drawn nonce, and the clock at the nonce's storing and at the challenge.
unfoldable pub new_challenge : Service → Option Text → Time → Time → Service × Option Challenge
unfolding with_nonce
new_challenge s drawn stored_at issued_at =
    with_nonce s issued_at (NonceStore.generate s.nonce_store drawn stored_at)

-- The recovery id, the byte at 64, without the 27 that wallets add.
abbrev pub fix_recovery_id : ℕ → List ℕ → List ℕ
fix_recovery_id n [] = []
fix_recovery_id zero (v ∷ sig) = (if leb 27 v then v - 27 else v) ∷ sig
fix_recovery_id (suc n) (b ∷ sig) = b ∷ fix_recovery_id n sig

pub data VerifyError : Type 0 where
  bad_signature_text bad_signature_length not_recovered : VerifyError
  unparsed : ParseError → VerifyError
  address_mismatch domain_mismatch uri_mismatch chain_mismatch : VerifyError
  issued_in_future expired bad_nonce : VerifyError

module _ (eth : Ethereum) (times : TimeText) where
  -- ERC-191; the byte 25 stands first.
  unfoldable pub sign_hash : Text → Text
  sign_hash message =
      eth.keccak256
        (25 ∷ (text "Ethereum Signed Message:" ++ (10 ∷ (format_uint (length message) ++ message))))

  recover_address : Text → Option Text → Result VerifyError Address
  recover_address message none = err bad_signature_text
  recover_address message (some sig) =
      if not (length sig == 65)
      then err bad_signature_length
      else elim (eth.recover (sign_hash message) (fix_recovery_id 64 sig)) [
        | none ↦ err not_recovered
        | some address ↦ ok address
      ]

  use_nonce : Service → Address → NonceStore × Bool → Service × Result VerifyError Address
  use_nonce s address (store, false) = (record s { nonce_store = store }, err bad_nonce)
  use_nonce s address (store, true) = (record s { nonce_store = store }, ok address)

  check_parsed :
      Service
      → Time
      → Time
      → Address
      → Result ParseError ParsedMessage
      → Service × Result VerifyError Address
  unfolding use_nonce
  check_parsed s now consumed_at address (err e) = (s, err (unparsed e))
  check_parsed s now consumed_at address (ok p) =
      if not (equal_fold (eth.address_hex address) p.address)
      then (s, err address_mismatch)
      else if not (p.domain == s.domain)
      then (s, err domain_mismatch)
      else if not (p.uri == s.uri)
      then (s, err uri_mismatch)
      else if not (p.chain_id == s.chain_id)
      then (s, err chain_mismatch)
      else if p.issued_at == 0
      then (s, err (unparsed ParseError.no_issued_at))
      else if p.expiration_time == 0
      then (s, err (unparsed ParseError.no_expiration))
      else if after p.issued_at (add now (ℤ.pos (5 * minute)))
      then (s, err issued_in_future)
      else if after now p.expiration_time
      then (s, err expired)
      else use_nonce s address (NonceStore.consume s.nonce_store p.nonce consumed_at)

  check_recovered :
      Service
      → Text
      → Time
      → Time
      → Result VerifyError Address
      → Service × Result VerifyError Address
  unfolding check_parsed
  check_recovered s message now consumed_at (err e) = (s, err e)
  check_recovered s message now consumed_at (ok address) =
      check_parsed s now consumed_at address (parse_message eth.is_hex_address times message)

  -- `Verify`: the message, its signature, and the clock at the checks of time and of the nonce
  unfoldable pub verify : Service → Text → Text → Time → Time → Service × Result VerifyError Address
  unfolding recover_address check_recovered
  verify s message signature now consumed_at =
      check_recovered s message now consumed_at (recover_address message (eth.decode_hex signature))
