-- ===== src/Siwe/Message/RoundTrip.antt =====
-- `parseMessage` reads what `FormatMessage` writes.
use sovereign_vpn.Base.{
  ℕ, ◌*◌, ◌/◌, ◌^◌, ◌≤◌, ◌<◌, ◌≡◌, ◌≢◌, refl, ap, ◌∙◌, Bool, true, false, none, some, List, [], ◌∷◌,
  ◌++◌, nat_eq, text_eq, arith, ℤ, All, ok,
}
use sovereign_vpn.Text.{Text, text, is_empty}
use sovereign_vpn.Clock.{second}
use sovereign_vpn.Text.{split, parse_int, trim_space}
use sovereign_vpn.Text.Laws.{format_uint-one_line, split-join, parse_int-format_uint}
use sovereign_vpn.Strings.{cut_prefix, before_text, format_int}
use sovereign_vpn.Strings.Laws.{before_text-append}
use sovereign_vpn.External.{TimeText, IsTimeText}
use sovereign_vpn.Siwe.Message.{
  Challenge, ParsedMessage, statement_lines, domain_line, field_lines, format_message, set_chain_id,
  set_issued_at, set_expiration, read_line, read_lines, require_fields, parse_from, parse_lines,
  parse_message,
}

-- A text of one line.
abbrev pub IsLine : Text → Type 0
IsLine = All (λ x. x ≢ b'\n')

-- A line that is none of those that the parser reads.
pub record IsUnmarked (line : Text) : Type 0 where
  pub not_uri : cut_prefix (text "URI: ") line ≡ none
  pub not_chain : cut_prefix (text "Chain ID: ") line ≡ none
  pub not_nonce : cut_prefix (text "Nonce: ") line ≡ none
  pub not_issued : cut_prefix (text "Issued At: ") line ≡ none
  pub not_expiration : cut_prefix (text "Expiration Time: ") line ≡ none

-- A challenge and an address that a message can carry: fields of one line, a domain without a
-- space, and values that are set.
pub record IsPrintable (is_hex_address : Text → Bool) (c : Challenge) (address : Text) (id : ℕ)
    : Type 0 where
  pub domain_plain : All (λ x. x ≢ 32) c.domain
  pub domain_one_line : IsLine c.domain
  pub domain_unmarked : IsUnmarked (domain_line c.domain)
  pub address_one_line : IsLine address
  pub address_unmarked : IsUnmarked address
  pub address_hex : is_hex_address (trim_space address) ≡ true
  pub statement_one_line : IsLine c.statement
  pub statement_unmarked : IsUnmarked c.statement
  pub uri_one_line : IsLine c.uri
  pub uri_set : is_empty c.uri ≡ false
  pub version_one_line : IsLine c.version
  pub nonce_one_line : IsLine c.nonce
  pub nonce_set : is_empty c.nonce ≡ false
  pub id_of_chain : c.chain_id ≡ ℤ.pos id
  pub id_set : 0 < id
  pub id_fits : id < 2 ^ 63
  pub issued_set : second ≤ c.issued_at
  pub expiration_set : second ≤ c.expiration_time

IsLine-append : (a b : Text) → IsLine a → IsLine b → IsLine (a ++ b)
IsLine-append [] b h k = k
IsLine-append (x ∷ a) b h k = (h.0, IsLine-append a b h.1 k)

read_line_unmarked :
    (times : TimeText) (p : ParsedMessage) (line : Text)
    → IsUnmarked line
    → read_line times p line ≡ ok p
unfolding read_line
read_line_unmarked times p line u = ground (arith)

-- The parser on the last six lines.
read_field_lines :
    (times : TimeText) (p : ParsedMessage) (c : Challenge) (id : ℕ)
    → IsTimeText times
    → c.chain_id ≡ ℤ.pos id
    → id < 2 ^ 63
    → read_lines times p (field_lines times c)
      ≡ ok (record p {
        uri = c.uri;
        nonce = c.nonce;
        chain_id = ℤ.pos id;
        issued_at = c.issued_at / second * second;
        expiration_time = c.expiration_time / second * second;
      })
unfolding read_lines read_line field_lines cut_prefix format_int set_chain_id set_issued_at
    set_expiration
read_field_lines times p c id laws e fits = ground (
  arith,
  ap (λ z. parse_int (format_int z)) e ∙ parse_int-format_uint id fits,
  laws.read_back c.issued_at,
  laws.read_back c.expiration_time,
)

read_lines_unmarked :
    (times : TimeText) (p : ParsedMessage) (line : Text) (lines : List Text)
    → IsUnmarked line
    → read_lines times p (line ∷ lines) ≡ read_lines times p lines
unfolding read_lines
read_lines_unmarked times p line lines u = rw (read_line_unmarked times p line u, read_lines) refl

empty_IsUnmarked : IsUnmarked []
unfolding cut_prefix
empty_IsUnmarked = record {
  not_uri = refl;
  not_chain = refl;
  not_nonce = refl;
  not_issued = refl;
  not_expiration = refl;
}

read_lines-statement_lines :
    (times : TimeText) (p : ParsedMessage) (statement : Text) (lines : List Text)
    → IsUnmarked statement
    → read_lines times p (statement_lines statement ++ lines) ≡ read_lines times p lines
unfolding statement_lines
read_lines-statement_lines times p [] lines u = refl
read_lines-statement_lines times p (x ∷ s) lines u =
    read_lines_unmarked times p (x ∷ s) ([] ∷ lines) u
    ∙ read_lines_unmarked times p [] lines empty_IsUnmarked

All-append {ℓ κ} :
    {A : Type ℓ} (P : A → Type κ) (xs ys : List A) → All P xs → All P ys → All P (xs ++ ys)
All-append P [] ys h k = k
All-append P (x ∷ xs) ys h k = (h.0, All-append P xs ys h.1 k)

-- What the parser finds in the message.
unfoldable pub parsed_of : Challenge → Text → ℕ → ParsedMessage
parsed_of c address id = record {
  domain = c.domain;
  address = trim_space address;
  uri = c.uri;
  nonce = c.nonce;
  chain_id = ℤ.pos id;
  issued_at = c.issued_at / second * second;
  expiration_time = c.expiration_time / second * second;
}

module _ (is_hex_address : Text → Bool) (times : TimeText) (laws : IsTimeText times) (c : Challenge)
    (address : Text) (id : ℕ) (h : IsPrintable is_hex_address c address id) where
  format_int-IsLine : IsLine (format_int c.chain_id)
  unfolding format_int
  format_int-IsLine = rw h.id_of_chain (format_uint-one_line id)

  field_lines-IsLine : All IsLine (field_lines times c)
  unfolding field_lines
  field_lines-IsLine = (
    IsLine-append (text "URI: ") c.uri (ground arith) h.uri_one_line,
    (
      IsLine-append (text "Version: ") c.version (ground arith) h.version_one_line,
      (
        IsLine-append (text "Chain ID: ") (format_int c.chain_id) (ground arith) format_int-IsLine,
        (
          IsLine-append (text "Nonce: ") c.nonce (ground arith) h.nonce_one_line,
          (
            IsLine-append (text "Issued At: ") (times.format c.issued_at) (ground arith)
                (laws.one_line c.issued_at),
            (
              IsLine-append (text "Expiration Time: ") (times.format c.expiration_time)
                  (ground arith) (laws.one_line c.expiration_time),
              tt,
            ),
          ),
        ),
      ),
    ),
  )

  statement_lines-IsLine : (s : Text) → IsLine s → All IsLine (statement_lines s)
  unfolding statement_lines
  statement_lines-IsLine [] k = tt
  statement_lines-IsLine (x ∷ s) k = (k, (tt, tt))

  -- The lines of the message.
  split-format_message :
      split b'\n' (format_message times c address)
      ≡ domain_line c.domain ∷ address ∷ [] ∷ (statement_lines c.statement ++ field_lines times c)
  unfolding format_message
  split-format_message =
      split-join b'\n' (domain_line c.domain)
        (address ∷ [] ∷ (statement_lines c.statement ++ field_lines times c))
        (
          IsLine-append c.domain (text " wants you to sign in with your Ethereum account:")
              h.domain_one_line (ground arith),
          (
            h.address_one_line,
            (
              tt,
              All-append IsLine (statement_lines c.statement) (field_lines times c)
                  (statement_lines-IsLine c.statement h.statement_one_line) field_lines-IsLine,
            ),
          ),
        )

  require_fields-parsed_of :
      require_fields (ok (parsed_of c address id)) ≡ ok (parsed_of c address id)
  unfolding require_fields parsed_of
  require_fields-parsed_of =
      ground (arith, h.uri_set, h.nonce_set, h.id_set, h.issued_set, h.expiration_set)

  read_lines-format_message :
      (p : ParsedMessage)
      → read_lines times p (
          domain_line c.domain
          ∷ address
          ∷ []
          ∷ (statement_lines c.statement ++ field_lines times c))
        ≡ read_lines times p (field_lines times c)
  read_lines-format_message p =
      read_lines_unmarked times p _ _ h.domain_unmarked
      ∙ read_lines_unmarked times p _ _ h.address_unmarked
      ∙ read_lines_unmarked times p _ _ empty_IsUnmarked
      ∙ read_lines-statement_lines times p c.statement _ h.statement_unmarked

  before_text-domain_line :
      before_text (text " wants you to sign in") (domain_line c.domain) ≡ some c.domain
  before_text-domain_line =
      before_text-append 32 (text "wants you to sign in") c.domain
        (text " with your Ethereum account:") h.domain_plain

  -- A message that is formatted from a printable challenge and address parses to their fields,
  -- the times cut to whole seconds, where the text of a time is one line and reads back to the
  -- second.
  pub parse_message-format_message :
      parse_message is_hex_address times (format_message times c address)
      ≡ ok (parsed_of c address id)
  unfolding parse_message parse_lines parse_from parsed_of
  parse_message-format_message =
      rw
        (
          split-format_message,
          before_text-domain_line,
          h.address_hex,
          read_lines-format_message,
          read_field_lines times _ c id laws h.id_of_chain h.id_fits,
        )
        require_fields-parsed_of
