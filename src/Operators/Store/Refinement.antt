-- ===== src/Operators/Store/Refinement.antt =====
-- The enrollment store as what a client sees of it: the enrollments that are not over, by token.
use sovereign_vpn.Base.{
  ◌≤◌, ◌≡◌, refl, ap, subst, ◌∙◌, inl, inr, true, false, Option, none, some, ◌==◌, nat_eq, text_eq,
  if◌then◌else◌, arith, Bool-cases, Option-cases, Result, ok, err,
}
use sovereign_vpn.Text.{Text}
use sovereign_vpn.Clock.{Time, after}
use sovereign_vpn.Base.{Result-cases}
use sovereign_vpn.Text.{trim_space}
use sovereign_vpn.External.{Ethereum}
use sovereign_vpn.Map.{lookup, insert, kept}
use sovereign_vpn.Map.Laws.{lookup-insert, lookup-sweep}
use sovereign_vpn.Operators.Fields.{Report, Enrollment, normalize_report}
use sovereign_vpn.Operators.Store.{
  Store, is_over, cleanup_locked, got, get, ReportError, with_report, store_report, report_on,
  report,
}

-- The enrollments that are not over, by token.
abbrev pub View : Type 0
View = Text → Option Enrollment

unfoldable pub view : Store → Time → View
view s now token = kept (is_over now) (lookup token s.records)

-- The abstract store: reading does not change it, and a report replaces one enrollment.
abbrev pub update : Text → Enrollment → View → View
update token e v other = if token == other then some e else v other

unfoldable pub report_view :
    Ethereum → View → Text → Report → Time → View × Result ReportError Enrollment
report_view eth v token r now = elim (v token) [
  | none ↦ (v, err ReportError.not_found)
  | some e ↦ elim (normalize_report eth e r now) [
    | err x ↦ (v, err (ReportError.invalid_report x))
    | ok r' ↦ (update token (with_report e r' now) v, ok (with_report e r' now))
  ]
]

-- That a store shows a view at a time.
abbrev pub Shows : Store → Time → View → Type 0
Shows s now v = (token : Text) → view s now token ≡ v token

kept_twice :
    (now : Time) (o : Option Enrollment)
    → kept (is_over now) (kept (is_over now) o) ≡ kept (is_over now) o
kept_twice now none = refl
kept_twice now (some e) = ground (arith)

cleanup_locked-Shows : (s : Store) (now : Time) → Shows (cleanup_locked s now) now (view s now)
unfolding view cleanup_locked
cleanup_locked-Shows s now token =
    ap (kept (is_over now)) (lookup-sweep (is_over now) token s.records)
    ∙ kept_twice now (lookup token s.records)

lookup-cleanup_locked :
    (s : Store) (now : Time) (token : Text)
    → lookup token (cleanup_locked s now).records ≡ view s now token
unfolding view cleanup_locked
lookup-cleanup_locked s now token = lookup-sweep (is_over now) token s.records

view-live :
    (s : Store) (now : Time) (token : Text) (e : Enrollment)
    → view s now token ≡ some e
    → is_over now e ≡ false
unfolding view
view-live s now token e h = elim (Option-cases (lookup token s.records)) [
  | inl k ↦ absurd (ground (arith))
  | inr (d, k) ↦ elim (Bool-cases (is_over now d)) [
    | inl q ↦ absurd (ground (arith))
    | inr q ↦ let same : d ≡ e = ground (arith) in subst (λ x. is_over now x ≡ false) same q
  ]
]

get-view :
    (s : Store) (token : Text) (now : Time)
    → ((get s token now).1 ≡ view s now (trim_space token))
      × Shows (get s token now).0 now (view s now)
unfolding get got
get-view s token now = elim (Option-cases (view s now (trim_space token))) [
  | inl e ↦
      rw (lookup-cleanup_locked s now (trim_space token), e) (refl, cleanup_locked-Shows s now)
  | inr (d, e) ↦
      rw (lookup-cleanup_locked s now (trim_space token), e, view-live s now (trim_space token) d e)
        (refl, cleanup_locked-Shows s now)
]

with_report-live :
    (now : Time) (e : Enrollment) (r : Report) → is_over now (with_report e r now) ≡ is_over now e
unfolding with_report
with_report-live now e r = refl

insert-Shows :
    (s : Store) (now : Time) (v : View) (token : Text) (e : Enrollment)
    → is_over now e ≡ false
    → Shows s now v
    → Shows (record s { records = insert token e s.records }) now (update token e v)
unfolding view
insert-Shows s now v token e live h other =
    rw (lookup-insert other token e s.records)
      (elim (Bool-cases (token == other)) [ inl q ↦ rw (q, live) refl | inr q ↦ rw q (h other) ])

report-view :
    (eth : Ethereum) (s : Store) (token : Text) (r : Report) (now : Time)
    → ((report eth s token r now).1 ≡ (report_view eth (view s now) (trim_space token) r now).1)
      × Shows
          (report eth s token r now).0
          now
          (report_view eth (view s now) (trim_space token) r now).0
unfolding report report_on store_report report_view
report-view eth s token r now = elim (Option-cases (view s now (trim_space token))) [
  | inl e ↦
      rw (report_view, lookup-cleanup_locked s now (trim_space token), e)
        (refl, cleanup_locked-Shows s now)
  | inr (d, e) ↦ elim (Result-cases (normalize_report eth d r now)) [
    | inl (x, f) ↦
        rw
          (
            report_view,
            lookup-cleanup_locked s now (trim_space token),
            e,
            view-live s now (trim_space token) d e,
            f,
          )
          (refl, cleanup_locked-Shows s now)
    | inr (r', f) ↦
        rw
          (
            report_view,
            lookup-cleanup_locked s now (trim_space token),
            e,
            view-live s now (trim_space token) d e,
            f,
          )
          (
            refl,
            insert-Shows (cleanup_locked s now) now (view s now) (trim_space token)
                (with_report d r' now)
                (with_report-live now d r' ∙ view-live s now (trim_space token) d e)
                (cleanup_locked-Shows s now),
          )
  ]
]

-- The store implements its view, the enrollments that are not over: a lookup answers with the
-- view at the trimmed token and leaves the view as it is, and a report answers and changes the
-- view as the abstract report does: not found, refused, or one enrollment replaced.
pub calls-Refine :
    (eth : Ethereum) (s : Store) (token : Text) (r : Report) (now : Time)
    → ((get s token now).1 ≡ view s now (trim_space token))
      × Shows (get s token now).0 now (view s now)
      × ((report eth s token r now).1 ≡ (report_view eth (view s now) (trim_space token) r now).1)
      × Shows
          (report eth s token r now).0
          now
          (report_view eth (view s now) (trim_space token) r now).0
calls-Refine eth s token r now = (
  (get-view s token now).0,
  (get-view s token now).1,
  (report-view eth s token r now).0,
  (report-view eth s token r now).1,
)

view-later :
    (s : Store) (now later : Time) (token : Text) (e : Enrollment)
    → now ≤ later
    → after e.expires_at later ≡ true
    → view s now token ≡ some e
    → view s later token ≡ some e
unfolding view
view-later s now later token e le live h = elim (Option-cases (lookup token s.records)) [
  | inl k ↦ absurd (ground (arith))
  | inr (d, k) ↦ ground (arith)
]
