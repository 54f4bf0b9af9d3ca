-- ===== src/Operators/Handlers.antt =====
-- The handlers of operator enrollments. A request is `none` where its body does not decode; the
-- nonces of sign-ins and the enrollments are the part of the server's state that they use.
pub mod Authorized
use sovereign_vpn.Base.{
  ℕ, Bool, true, false, not, ◌||◌, Option, none, some, List, [], ◌∷◌, if◌then◌else◌, Result, ok,
  err,
}
use sovereign_vpn.Text.{Text, text, is_empty}
use sovereign_vpn.Strings.{trim_byte, trim_prefix, cut_suffix, trim_suffix, equal_fold}
use sovereign_vpn.Clock.{Time}
use sovereign_vpn.External.{Address, Ethereum, TimeText}
use sovereign_vpn.Siwe.Service
use sovereign_vpn.Siwe.Service.{VerifyError, verify}
use sovereign_vpn.Operators.Fields.{
  ValidationError, validation_message, Report, Enrollment, normalize_operator,
}
use sovereign_vpn.Operators.Store
use sovereign_vpn.Operators.Store.{Store, CreateError, ReportError}

pub record State : Type 0 where
  pub siwe : Option Service.Service
  pub enrollments : Store

pub record CreateRequest : Type 0 where
  pub operator : Text
  pub region : Text
  pub message : Text
  pub signature : Text

pub data Reply : Type 0 where
  refused : ℕ → Text → Reply
  -- 401 with the message of the error
  unauthorized : VerifyError → Reply
  answered : ℕ → Enrollment → Reply

-- The random token, and the readings of the clock.
pub record CreateInputs : Type 0 where
  pub drawn : Option Text
  pub verified_at : Time
  pub consumed_at : Time
  pub created_at : Time

create_reply : Store × Result CreateError Enrollment → Store × Reply
create_reply (enrollments, ok e) = (enrollments, answered 201 e)
create_reply (enrollments, err (CreateError.invalid v)) =
    (enrollments, refused 400 (validation_message v))
create_reply (enrollments, err CreateError.no_token) =
    (enrollments, refused 500 (text "failed to create enrollment"))

with_store : State → Store × Reply → State × Reply
with_store s (enrollments, reply) = (record s { enrollments = enrollments }, reply)

create_signed :
    Ethereum
    → State
    → CreateRequest
    → CreateInputs
    → Text
    → Service.Service × Result VerifyError Address
    → State × Reply
unfolding create_reply with_store Store.create
create_signed eth s req inputs operator (siwe, err e) =
    (record s { siwe = some siwe }, unauthorized e)
create_signed eth s req inputs operator (siwe, ok address) =
    if not (equal_fold (eth.address_hex address) operator)
    then (
      record s { siwe = some siwe },
      refused 401 (text "signed operator does not match request"),
    )
    else with_store (record s { siwe = some siwe })
        (create_reply
          (Store.create eth s.enrollments operator req.region inputs.drawn inputs.created_at))

create_verified :
    Ethereum
    → TimeText
    → State
    → CreateRequest
    → CreateInputs
    → Text
    → Option Service.Service
    → State × Reply
unfolding create_signed verify
create_verified eth times s req inputs operator none =
    (s, refused 503 (text "operator authentication not configured"))
create_verified eth times s req inputs operator (some siwe) =
    create_signed eth s req inputs operator
      (verify eth times siwe req.message req.signature inputs.verified_at inputs.consumed_at)

create_for :
    Ethereum
    → TimeText
    → State
    → CreateRequest
    → CreateInputs
    → Result ValidationError Text
    → State × Reply
unfolding create_verified
create_for eth times s req inputs (err v) = (s, refused 400 (validation_message v))
create_for eth times s req inputs (ok operator) =
    if is_empty req.message || is_empty req.signature
    then (s, refused 400 (text "message and signature are required"))
    else create_verified eth times s req inputs operator s.siwe

unfoldable pub handle_create :
    Ethereum → TimeText → State → Option CreateRequest → CreateInputs → State × Reply
unfolding create_for
handle_create eth times s none inputs = (s, refused 400 (text "invalid request body"))
handle_create eth times s (some req) inputs =
    create_for eth times s req inputs (normalize_operator eth req.operator)

unfoldable pub token_from_path : Text → Text
token_from_path path = trim_byte b'/' (trim_prefix (text "/operator/enrollments/") path)

get_reply : Store × Option Enrollment → Store × Reply
get_reply (enrollments, none) = (enrollments, refused 404 (text "enrollment not found"))
get_reply (enrollments, some e) = (enrollments, answered 200 e)

unfoldable pub handle_get : State → Text → Time → State × Reply
unfolding get_reply with_store token_from_path Store.get
handle_get s path now =
    if is_empty (token_from_path path)
    then (s, refused 400 (text "enrollment token is required"))
    else with_store s (get_reply (Store.get s.enrollments (token_from_path path) now))

report_reply : Store × Result ReportError Enrollment → Store × Reply
report_reply (enrollments, ok e) = (enrollments, answered 200 e)
report_reply (enrollments, err ReportError.not_found) =
    (enrollments, refused 404 (text "enrollment not found"))
report_reply (enrollments, err (ReportError.invalid_report v)) =
    (enrollments, refused 400 (validation_message v))

report_at : Ethereum → State → Text → Option Report → Time → State × Reply
unfolding report_reply with_store Store.report
report_at eth s token none now = (s, refused 400 (text "invalid request body"))
report_at eth s token (some r) now =
    with_store s (report_reply (Store.report eth s.enrollments token r now))

abbrev pub is_report_path : Text → Bool
is_report_path path = elim (cut_suffix (text "/report") (trim_byte b'/' path)) [
  | some _ ↦ true
  | none ↦ false
]

abbrev pub report_token : Text → Text
report_token path = trim_suffix (text "/report") (token_from_path path)

unfoldable pub handle_report : Ethereum → State → Text → Option Report → Time → State × Reply
unfolding report_at token_from_path
handle_report eth s path body now =
    if not (is_report_path path)
    then (s, refused 404 (text "enrollment report endpoint not found"))
    else if is_empty (report_token path)
    then (s, refused 400 (text "enrollment token is required"))
    else report_at eth s (report_token path) body now
