-- ===== src/Operators/Store.antt =====
-- The enrollment store in memory. Each operation holds the mutex after its reading of the clock.
pub mod Creation
pub mod Refinement
pub mod Sound
use sovereign_vpn.Base.{
  ℕ, Bool, true, false, not, Option, none, some, List, [], ◌∷◌, if◌then◌else◌, text_eq, Result, ok,
  err,
}
use sovereign_vpn.Text.{Text, text, trim_space}
use sovereign_vpn.Clock.{Time, Duration, add, after}
use sovereign_vpn.Map.{Map, lookup, insert, delete, sweep}
use sovereign_vpn.External.{Ethereum}
use sovereign_vpn.Operators.Fields.{
  ValidationError, Report, Status, Enrollment, normalize_operator, normalize_region,
  normalize_report,
}

pub record Store : Type 0 where
  pub ttl : Duration
  pub records : Map Text Enrollment

unfoldable pub new_store : Duration → Store
new_store ttl = record { ttl = ttl; records = [] }

abbrev pub is_over : Time → Enrollment → Bool
is_over now e = not (after e.expires_at now)

unfoldable pub cleanup_locked : Store → Time → Store
cleanup_locked s now = record s { records = sweep (is_over now) s.records }

-- `no_token` is an error of the random source.
pub data CreateError : Type 0 where
  invalid : ValidationError → CreateError
  no_token : CreateError

store_new : Store → Text → Text → Option Text → Time → Store × Result CreateError Enrollment
unfolding cleanup_locked
store_new s operator region none now = (s, err no_token)
store_new s operator region (some token) now =
    let e : Enrollment = record {
      token = token;
      operator = operator;
      region = region;
      status = Status.created;
      created_at = now;
      expires_at = add now s.ttl;
      last_report_at = none;
      report = none;
    } in
    (record s { records = insert token e (cleanup_locked s now).records }, ok e)

create_with :
    Store
    → Option Text
    → Time
    → Result ValidationError Text
    → Result ValidationError Text
    → Store × Result CreateError Enrollment
unfolding store_new
create_with s drawn now (err e) region = (s, err (invalid e))
create_with s drawn now (ok operator) (err e) = (s, err (invalid e))
create_with s drawn now (ok operator) (ok region) = store_new s operator region drawn now

unfoldable pub create :
    Ethereum → Store → Text → Text → Option Text → Time → Store × Result CreateError Enrollment
unfolding create_with
create eth s operator region drawn now =
    create_with s drawn now (normalize_operator eth operator) (normalize_region region)

got : Store → Text → Time → Option Enrollment → Store × Option Enrollment
got s token now none = (s, none)
got s token now (some e) =
    if is_over now e then (record s { records = delete token s.records }, none) else (s, some e)

unfoldable pub get : Store → Text → Time → Store × Option Enrollment
unfolding got cleanup_locked
get s token now =
    got (cleanup_locked s now) (trim_space token) now
      (lookup (trim_space token) (cleanup_locked s now).records)

pub data ReportError : Type 0 where
  not_found : ReportError
  invalid_report : ValidationError → ReportError

-- The record after a normalized report.
unfoldable pub with_report : Enrollment → Report → Time → Enrollment
with_report e r now = record e {
  report = some r;
  last_report_at = some now;
  status = if r.health_ok then Status.healthy else Status.reported;
}

store_report :
    Store
    → Text
    → Time
    → Enrollment
    → Result ValidationError Report
    → Store × Result ReportError Enrollment
unfolding with_report
store_report s token now e (err v) = (s, err (invalid_report v))
store_report s token now e (ok r) =
    (record s { records = insert token (with_report e r now) s.records }, ok (with_report e r now))

report_on :
    Ethereum
    → Store
    → Text
    → Report
    → Time
    → Option Enrollment
    → Store × Result ReportError Enrollment
unfolding store_report
report_on eth s token r now none = (s, err not_found)
report_on eth s token r now (some e) =
    if is_over now e
    then (s, err not_found)
    else store_report s token now e (normalize_report eth e r now)

unfoldable pub report :
    Ethereum → Store → Text → Report → Time → Store × Result ReportError Enrollment
unfolding report_on cleanup_locked
report eth s token r now =
    report_on eth (cleanup_locked s now) (trim_space token) r now
      (lookup (trim_space token) (cleanup_locked s now).records)
