-- ===== src/Siwe/Message.antt =====
-- EIP-4361 messages of gateway/pkg/siwe/siwe.go: `FormatMessage` and `parseMessage`. The address
-- test of go-ethereum and the texts of times are parameters.
pub mod RoundTrip
use sovereign_vpn.Base.{
  ℕ, Bool, true, false, not, ◌&&◌, ◌||◌, Option, none, some, List, [], ◌∷◌, ◌++◌, ◌==◌, nat_eq,
  text_eq, int_eq, if◌then◌else◌, ℤ, Result, ok, err,
}
use sovereign_vpn.Text.{Text, text, is_empty, split, join, parse_int, trim_space}
use sovereign_vpn.Strings.{cut_prefix, before_text, format_int}
use sovereign_vpn.Clock.{Time}
use sovereign_vpn.External.{TimeText}

-- Its `Address` is left to the client, and never set.
pub record Challenge : Type 0 where
  pub domain : Text
  pub uri : Text
  pub version : Text
  pub chain_id : ℤ
  pub nonce : Text
  pub issued_at : Time
  pub expiration_time : Time
  pub statement : Text

statement_lines : Text → List Text
statement_lines statement = if is_empty statement then [] else statement ∷ [] ∷ []

abbrev pub domain_line : Text → Text
domain_line domain = domain ++ text " wants you to sign in with your Ethereum account:"

field_lines : TimeText → Challenge → List Text
field_lines times c =
    (text "URI: " ++ c.uri)
    ∷ (text "Version: " ++ c.version)
    ∷ (text "Chain ID: " ++ format_int c.chain_id)
    ∷ (text "Nonce: " ++ c.nonce)
    ∷ (text "Issued At: " ++ times.format c.issued_at)
    ∷ (text "Expiration Time: " ++ times.format c.expiration_time)
    ∷ []

-- `FormatMessage`: its lines, with a line feed between each two.
unfoldable pub format_message : TimeText → Challenge → Text → Text
unfolding statement_lines field_lines
format_message times c address =
    join b'\n'
      (domain_line c.domain ∷ address ∷ [] ∷ (statement_lines c.statement ++ field_lines times c))

pub record ParsedMessage : Type 0 where
  pub domain : Text
  pub address : Text
  pub uri : Text
  pub nonce : Text
  pub chain_id : ℤ
  pub issued_at : Time
  pub expiration_time : Time

pub data ParseError : Type 0 where
  too_short bad_domain_line bad_address bad_chain_id bad_issued_at bad_expiration : ParseError
  no_uri no_chain_id no_nonce no_issued_at no_expiration : ParseError

set_chain_id : ParsedMessage → Option ℤ → Result ParseError ParsedMessage
set_chain_id p none = err bad_chain_id
set_chain_id p (some n) = ok (record p { chain_id = n })

set_issued_at : ParsedMessage → Option Time → Result ParseError ParsedMessage
set_issued_at p none = err bad_issued_at
set_issued_at p (some t) = ok (record p { issued_at = t })

set_expiration : ParsedMessage → Option Time → Result ParseError ParsedMessage
set_expiration p none = err bad_expiration
set_expiration p (some t) = ok (record p { expiration_time = t })

-- The switch on one line.
read_line : TimeText → ParsedMessage → Text → Result ParseError ParsedMessage
unfolding set_chain_id set_issued_at set_expiration
read_line times p line = elim (cut_prefix (text "URI: ") line) [
  | some v ↦ ok (record p { uri = v })
  | none ↦ elim (cut_prefix (text "Chain ID: ") line) [
    | some v ↦ set_chain_id p (parse_int v)
    | none ↦ elim (cut_prefix (text "Nonce: ") line) [
      | some v ↦ ok (record p { nonce = v })
      | none ↦ elim (cut_prefix (text "Issued At: ") line) [
        | some v ↦ set_issued_at p (times.parse v)
        | none ↦ elim (cut_prefix (text "Expiration Time: ") line) [
          | some v ↦ set_expiration p (times.parse v)
          | none ↦ ok p
        ]
      ]
    ]
  ]
]

read_lines : TimeText → ParsedMessage → List Text → Result ParseError ParsedMessage
unfolding read_line
read_lines times p [] = ok p
read_lines times p (line ∷ lines) = elim (read_line times p line) [
  | ok p' ↦ read_lines times p' lines
  | err e ↦ err e
]

-- The fields that must have been found.
require_fields : Result ParseError ParsedMessage → Result ParseError ParsedMessage
require_fields (err e) = err e
require_fields (ok p) =
    if is_empty p.uri
    then err no_uri
    else if p.chain_id == ℤ.pos 0
    then err no_chain_id
    else if is_empty p.nonce
    then err no_nonce
    else if p.issued_at == 0
    then err no_issued_at
    else if p.expiration_time == 0
    then err no_expiration
    else ok p

module _ (is_hex_address : Text → Bool) (times : TimeText) where
  parse_from : List Text → Text → Option Text → Result ParseError ParsedMessage
  unfolding read_lines require_fields
  parse_from lines second none = err bad_domain_line
  parse_from lines second (some domain) =
      let address = trim_space second in
      let start : ParsedMessage = record {
        domain = domain;
        address = address;
        uri = [];
        nonce = [];
        chain_id = ℤ.pos 0;
        issued_at = 0;
        expiration_time = 0;
      } in
      if not (is_hex_address address)
      then err bad_address
      else require_fields (read_lines times start lines)

  parse_lines : List Text → Result ParseError ParsedMessage
  unfolding parse_from
  parse_lines (first ∷ second ∷ rest) =
      parse_from (first ∷ second ∷ rest) second (before_text (text " wants you to sign in") first)
  parse_lines _ = err too_short

  -- `parseMessage`
  unfoldable pub parse_message : Text → Result ParseError ParsedMessage
  unfolding parse_lines
  parse_message msg = parse_lines (split b'\n' msg)
