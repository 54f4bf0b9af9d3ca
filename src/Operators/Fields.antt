-- ===== src/Operators/Fields.antt =====
-- The data of an enrollment and the normal forms of its fields.
pub mod Normal
use sovereign_vpn.Base.{
  ℕ, Bool, true, false, not, ◌&&◌, ◌||◌, Option, none, some, List, [], ◌∷◌, ◌++◌, ◌==◌, nat_eq,
  text_eq, if◌then◌else◌, leb, length, Result, ok, err,
}
use sovereign_vpn.Text.{Text, text, is_empty, trim_space}
use sovereign_vpn.Strings.{to_lower, equal_fold, take_bytes}
use sovereign_vpn.Clock.{Time}
use sovereign_vpn.External.{Ethereum}

pub data ValidationError : Type 0 where
  bad_operator no_region bad_region operator_mismatch : ValidationError

abbrev pub validation_message : ValidationError → Text
validation_message bad_operator = text "operator must be a valid Ethereum address"
validation_message no_region = text "region is required"
validation_message bad_region = text "region must use lowercase letters, numbers, and dashes"
validation_message operator_mismatch = text "operator does not match enrollment"

pub record Report : Type 0 where
  pub operator : Text
  pub region : Text
  pub endpoint : Text
  pub gateway_url : Text
  pub public_ip : Text
  pub gateway_port : Text
  pub wireguard_port : Text
  pub wireguard_pub_key : Text
  pub health_ok : Bool
  pub health_status : Text
  pub installer_version : Text
  pub reported_at : Time

pub data Status : Type 0 where
  created reported healthy : Status

pub record Enrollment : Type 0 where
  pub token : Text
  pub operator : Text
  pub region : Text
  pub status : Status
  pub created_at : Time
  pub expires_at : Time
  pub last_report_at : Option Time
  pub report : Option Report

unfoldable pub normalize_operator : Ethereum → Text → Result ValidationError Text
normalize_operator eth operator =
    if eth.is_hex_address (trim_space operator)
    then ok (eth.address_hex (eth.hex_to_address (trim_space operator)))
    else err bad_operator

-- The classes of the pattern `^[a-z0-9][a-z0-9-]{0,31}$`.
abbrev pub is_name_byte : ℕ → Bool
is_name_byte c = (leb b'a' c && leb c b'z') || (leb b'0' c && leb c b'9')

abbrev pub all_name_bytes : Text → Bool
all_name_bytes [] = true
all_name_bytes (c ∷ s) = (is_name_byte c || c == b'-') && all_name_bytes s

abbrev pub is_region : Text → Bool
is_region [] = false
is_region (c ∷ s) = is_name_byte c && all_name_bytes s && leb (length s) 31

check_region : Text → Result ValidationError Text
check_region region =
    if is_empty region
    then err no_region
    else if is_region region
    then ok region
    else err bad_region

unfoldable pub normalize_region : Text → Result ValidationError Text
unfolding check_region
normalize_region region = check_region (to_lower (trim_space region))

unfoldable pub truncate_field : Text → ℕ → Text
truncate_field value max_len =
    if leb (length (trim_space value)) max_len
    then trim_space value
    else take_bytes max_len (trim_space value)

-- The operator of a report, which may be left out.
report_operator : Ethereum → Enrollment → Text → Result ValidationError Text
unfolding normalize_operator
report_operator eth record' operator =
    if is_empty operator then ok operator else elim (normalize_operator eth operator) [
      | err e ↦ err e
      | ok normal ↦ if equal_fold normal record'.operator then ok normal else err operator_mismatch
    ]

report_region : Enrollment → Text → Result ValidationError Text
unfolding normalize_region
report_region record' region =
    if is_empty region then ok record'.region else normalize_region region

-- The other fields, cut to their lengths.
truncated : Report → Text → Text → Time → Report
unfolding truncate_field
truncated r operator region now = record {
  operator = operator;
  region = region;
  endpoint = truncate_field r.endpoint 256;
  gateway_url = truncate_field r.gateway_url 256;
  public_ip = truncate_field r.public_ip 128;
  gateway_port = truncate_field r.gateway_port 16;
  wireguard_port = truncate_field r.wireguard_port 16;
  wireguard_pub_key = truncate_field r.wireguard_pub_key 128;
  health_ok = r.health_ok;
  health_status = truncate_field r.health_status 64;
  installer_version = truncate_field r.installer_version 64;
  reported_at = now;
}

unfoldable pub normalize_report :
    Ethereum → Enrollment → Report → Time → Result ValidationError Report
unfolding report_operator report_region truncated
normalize_report eth record' r now = elim (report_operator eth record' r.operator) [
  | err e ↦ err e
  | ok operator ↦ elim (report_region record' r.region) [
    | err e ↦ err e
    | ok region ↦ ok (truncated r operator region now)
  ]
]
