-- ===== src/Tests/Wallets.antt =====
-- Runs of sign-ins, and the witnesses for them.
use sovereign_vpn.Base.{
  ◌+◌, ◌*◌, ◌/◌, ◌≡◌, ◌≢◌, refl, ◌⊎◌, none, some, [], ◌∷◌, ◌==◌, nat_eq, text_eq, if◌then◌else◌,
  arith, ℤ, ok, err,
}
use sovereign_vpn.Text.{parse_int, format_uint, Text, text, is_empty}
use mathlib.Core.Option
use sovereign_vpn.Text.{read_digits, format_uint}
use sovereign_vpn.Text.Laws.{read_digits-format_uint, format_uint-one_line}
use sovereign_vpn.Clock.{second}
use sovereign_vpn.External.{Ethereum, TimeText, IsTimeText}
use sovereign_vpn.Tests.Fixtures.{noon, hour}
use sovereign_vpn.Siwe.NonceStore.{NonceStore}
use sovereign_vpn.Siwe.Message.{Challenge, parse_message, format_message}
use sovereign_vpn.Siwe.Message.RoundTrip.{IsPrintable, parsed_of, parse_message-format_message}
use sovereign_vpn.Siwe.Service.{Service, new_challenge, verify, VerifyError}
use sovereign_vpn.Siwe.Service.SignIn.{
  SignedIn, Recovers, verify-SignedIn, verify_twice, verify-err_unchanged,
}
use sovereign_vpn.Siwe.Service.Completeness.{verify-new_challenge}

-- A text of 65 bytes.
abbrev pub signature_bytes : Text
signature_bytes = text "0123456789012345678901234567890123456789012345678901234567890123a"

-- Every signature that decodes is the wallet 7's.
abbrev pub eth : Ethereum
eth = record {
  decode_hex = λ s. if s == text "0xbad" then none else some signature_bytes;
  keccak256 = λ m. m;
  recover = λ h s. some 7;
  address_hex = λ a. text "0x7";
  is_hex_address = λ t. t == text "0x7";
  hex_to_address = λ t. 7;
}

-- A time as its seconds.
abbrev pub times : TimeText
times = record {
  format = λ t. format_uint (t / second);
  parse = λ v. Option.map (λ n. n * second) (read_digits 0 v);
}

abbrev pub siwe : Service
siwe = record {
  domain = text "vpn";
  uri = text "u";
  nonce_store = record { nonces = (text "n", noon + hour) ∷ []; ttl = ℤ.pos hour };
  chain_id = ℤ.pos 1;
  challenge_ttl = ℤ.pos hour;
}

abbrev pub challenge : Challenge
challenge = record {
  domain = text "vpn";
  uri = text "u";
  version = text "1";
  chain_id = ℤ.pos 1;
  nonce = text "n";
  issued_at = noon;
  expiration_time = noon + hour;
  statement = text "Sign in to Sovereign VPN with your Ethereum account.";
}

abbrev pub message : Text
message =
    text
      "vpn wants you to sign in\n0x7\n\nURI: u\nChain ID: 1\nNonce: n\nIssued At: 63835596800\nExpiration Time: 63835600400"

verify_example :
    (verify eth times siwe message (text "0x0") noon noon)
    ≡ (record siwe { nonce_store = record siwe.nonce_store { nonces = [] } }, ok 7)
unfolding verify parse_message sovereign_vpn.Text.split sovereign_vpn.Strings.before_text
    sovereign_vpn.Strings.cut_prefix sovereign_vpn.Text.trim_space parse_int
    sovereign_vpn.Siwe.NonceStore.consume sovereign_vpn.Map.lookup sovereign_vpn.Map.delete
verify_example = refl

verify_bad_example :
    (verify eth times siwe message (text "0xbad") noon noon)
    ≡ (siwe, err VerifyError.bad_signature_text)
unfolding verify
verify_bad_example = refl

times-IsTimeText : IsTimeText times
times-IsTimeText = record {
  read_back = λ t. rw (read_digits-format_uint (t / second)) refl;
  one_line = λ t. format_uint-one_line (t / second);
}

challenge-IsPrintable : IsPrintable eth.is_hex_address challenge (text "0x7") 1
unfolding sovereign_vpn.Strings.cut_prefix sovereign_vpn.Text.trim_space
challenge-IsPrintable = record {
  domain_plain = ground arith;
  domain_one_line = ground arith;
  domain_unmarked = record {
    not_uri = refl;
    not_chain = refl;
    not_nonce = refl;
    not_issued = refl;
    not_expiration = refl;
  };
  address_one_line = ground arith;
  address_unmarked = record {
    not_uri = refl;
    not_chain = refl;
    not_nonce = refl;
    not_issued = refl;
    not_expiration = refl;
  };
  address_hex = refl;
  statement_one_line = ground arith;
  statement_unmarked = record {
    not_uri = refl;
    not_chain = refl;
    not_nonce = refl;
    not_issued = refl;
    not_expiration = refl;
  };
  uri_one_line = ground arith;
  uri_set = refl;
  version_one_line = ground arith;
  nonce_one_line = ground arith;
  nonce_set = refl;
  id_of_chain = refl;
  id_set = omega arith;
  id_fits = omega arith;
  issued_set = omega arith;
  expiration_set = omega arith;
}

parse_message-format_message_example :
    parse_message eth.is_hex_address times (format_message times challenge (text "0x7"))
    ≡ ok (parsed_of challenge (text "0x7") 1)
parse_message-format_message_example =
    parse_message-format_message eth.is_hex_address times times-IsTimeText challenge (text "0x7") 1
      challenge-IsPrintable

verify-SignedIn_example :
    SignedIn eth times siwe
      (record siwe { nonce_store = record siwe.nonce_store { nonces = [] } })
      message
      (text "0x0")
      noon
      noon
      7
verify-SignedIn_example =
    verify-SignedIn eth times siwe
      (record siwe { nonce_store = record siwe.nonce_store { nonces = [] } }) message (text "0x0")
      noon noon 7 verify_example

abbrev spent : Service
spent = record siwe { nonce_store = record siwe.nonce_store { nonces = [] } }

verify_twice_example :
    verify eth times spent message (text "0x1") (noon + 1) (noon + 1) ≢ (spent, ok 7)
verify_twice_example =
    verify_twice eth times siwe spent spent message (text "0x0") (text "0x1") noon noon (noon + 1)
      (noon + 1) 7 7 verify_example

verify-err_unchanged_example :
    (VerifyError.bad_signature_text ≡ VerifyError.bad_nonce) ⊎ (siwe ≡ siwe)
verify-err_unchanged_example =
    verify-err_unchanged eth times siwe siwe message (text "0xbad") noon noon
      VerifyError.bad_signature_text verify_bad_example

given : (new_challenge spent (some (text "n")) noon noon).1 ≡ some challenge
unfolding new_challenge sovereign_vpn.Siwe.NonceStore.generate
given = refl

signed : Recovers eth times (format_message times challenge (text "0x7")) (text "0x0") 7
signed = record { sig = signature_bytes; decoded = refl; sig_length = refl; recovered = refl }

verify-new_challenge_example :
    (verify eth times
      (new_challenge spent (some (text "n")) noon noon).0
      (format_message times challenge (text "0x7"))
      (text "0x0")
      noon
      noon).1
    ≡ ok 7
unfolding sovereign_vpn.Text.trim_space
verify-new_challenge_example =
    verify-new_challenge eth times spent challenge (text "n") (text "0x0") noon noon noon noon 7 1
      times-IsTimeText given challenge-IsPrintable refl signed (omega arith) (omega arith)
      (omega arith)
