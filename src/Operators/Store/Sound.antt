-- ===== src/Operators/Store/Sound.antt =====
-- What every reachable enrollment store holds.
use sovereign_vpn.Base.{
  ◌≡◌, refl, sym, ap, subst, ◌∙◌, inl, inr, Bool, true, Option, none, some, ◌==◌, nat_eq, text_eq,
  if◌then◌else◌, arith, Bool-cases, ok,
}
use sovereign_vpn.Text.{Text}
use sovereign_vpn.Clock.{Time, Duration, add, sub}
use sovereign_vpn.Base.{Result-cases}
use sovereign_vpn.Text.{trim_space}
use sovereign_vpn.External.{Ethereum}
use sovereign_vpn.Map.{Map, lookup, insert, delete, kept}
use sovereign_vpn.Map.Laws.{lookup-insert, lookup-delete, lookup-sweep}
use sovereign_vpn.Operators.Fields.{
  Report, Status, Enrollment, normalize_operator, is_region, normalize_region, normalize_report,
}
use sovereign_vpn.Operators.Fields.Normal.{
  normalize_region-is_region, IsReport, normalize_report-IsReport,
}
use sovereign_vpn.Operators.Store.{
  Store, new_store, is_over, cleanup_locked, store_new, create_with, create, got, get, with_report,
  store_report, report_on, report,
}

-- The status of an enrollment follows from its last report.
abbrev pub FollowsReport : Enrollment → Option Report → Type 0
FollowsReport e none = (e.status ≡ Status.created) × (e.last_report_at ≡ none)
FollowsReport e (some r) =
    (e.status ≡ (if r.health_ok then Status.healthy else Status.reported))
    × (e.last_report_at ≡ some r.reported_at)
    × IsReport e.operator e.region r r.reported_at

pub record IsKept (eth : Ethereum) (ttl : Duration) (token : Text) (e : Enrollment) : Type 0 where
  pub under_its_token : e.token ≡ token
  pub operator_normal : (raw : Text) × (normalize_operator eth raw ≡ ok e.operator)
  pub region_valid : is_region e.region ≡ true
  pub lifetime : e.expires_at ≡ add e.created_at ttl
  pub status_follows : FollowsReport e e.report

abbrev pub AllKept : Ethereum → Store → Type 0
AllKept eth s =
    (token : Text) (e : Enrollment) → lookup token s.records ≡ some e → IsKept eth s.ttl token e

-- The stores that the operations make.
pub data Reach (eth : Ethereum) : Store → Type 0 where
  starts : (ttl : Duration) → Reach eth (new_store ttl)
  creates :
      {s : Store} (operator region : Text) (drawn : Option Text) (now : Time)
      → Reach eth s
      → Reach eth (create eth s operator region drawn now).0
  gets : {s : Store} (token : Text) (now : Time) → Reach eth s → Reach eth (get s token now).0
  reports :
      {s : Store} (token : Text) (r : Report) (now : Time)
      → Reach eth s
      → Reach eth (report eth s token r now).0

kept-some :
    (bad : Enrollment → Bool) (o : Option Enrollment) (e : Enrollment)
    → kept bad o ≡ some e
    → o ≡ some e
kept-some bad none e h = absurd (ground (arith))
kept-some bad (some d) e h = ground (arith)

module _ (eth : Ethereum) where
  AllKept-shrink :
      (ttl : Duration) (m m' : Map Text Enrollment)
      → ((token : Text) (e : Enrollment) → lookup token m' ≡ some e → lookup token m ≡ some e)
      → AllKept eth (record { ttl = ttl; records = m })
      → AllKept eth (record { ttl = ttl; records = m' })
  AllKept-shrink ttl m m' sub h token e k = h token e (sub token e k)

  AllKept-cleanup_locked :
      (s : Store) (now : Time) → AllKept eth s → AllKept eth (cleanup_locked s now)
  unfolding cleanup_locked
  AllKept-cleanup_locked s now h =
      AllKept-shrink s.ttl s.records _
        (λ token e k.
          kept-some (is_over now) _ e (sym (lookup-sweep (is_over now) token s.records) ∙ k))
        h

  AllKept-delete :
      (s : Store) (token : Text)
      → AllKept eth s
      → AllKept eth (record s { records = delete token s.records })
  AllKept-delete s token h =
      AllKept-shrink s.ttl s.records _
        (λ other e k.
          ground (arith, lookup-delete other token s.records, text_eq.beq_iff token other))
        h

  AllKept-insert :
      (s : Store) (token : Text) (e : Enrollment)
      → IsKept eth s.ttl token e
      → AllKept eth s
      → AllKept eth (record s { records = insert token e s.records })
  AllKept-insert s token e new h other d k = elim (Bool-cases (token == other)) [
    | inl q ↦
        let same : token ≡ other = (text_eq.beq_iff token other).0 q in
        let value : e ≡ d = ground (arith, lookup-insert other token e s.records) in
        subst (λ t. IsKept eth s.ttl t d) same (subst (λ x. IsKept eth s.ttl token x) value new)
    | inr q ↦ h other d (ground (arith, lookup-insert other token e s.records))
  ]

  AllKept-store_new :
      (s : Store) (raw operator region : Text) (drawn : Option Text) (now : Time)
      → normalize_operator eth raw ≡ ok operator
      → is_region region ≡ true
      → AllKept eth s
      → AllKept eth (store_new s operator region drawn now).0
  unfolding store_new
  AllKept-store_new s raw operator region none now o g h = h
  AllKept-store_new s raw operator region (some token) now o g h =
      AllKept-insert (cleanup_locked s now) token _
        (record {
          under_its_token = refl;
          operator_normal = (raw, o);
          region_valid = g;
          lifetime = refl;
          status_follows = (refl, refl);
        })
        (AllKept-cleanup_locked s now h)

  AllKept-create :
      (s : Store) (operator region : Text) (drawn : Option Text) (now : Time)
      → AllKept eth s
      → AllKept eth (create eth s operator region drawn now).0
  unfolding create create_with
  AllKept-create s operator region drawn now h =
      elim (Result-cases (normalize_operator eth operator)) [
        | inl (v, e) ↦ rw e h
        | inr (o, e) ↦ elim (Result-cases (normalize_region region)) [
          | inl (v, f) ↦ rw (e, f) h
          | inr (g, f) ↦
              rw (e, f)
                (AllKept-store_new s operator o g drawn now e
                  (normalize_region-is_region region g f) h)
        ]
      ]

  AllKept-got :
      (s : Store) (token : Text) (now : Time) (o : Option Enrollment)
      → AllKept eth s
      → AllKept eth (got s token now o).0
  unfolding got
  AllKept-got s token now none h = h
  AllKept-got s token now (some e) h = elim (Bool-cases (is_over now e)) [
    | inl q ↦ rw q (AllKept-delete s token h)
    | inr q ↦ rw q h
  ]

  AllKept-get :
      (s : Store) (token : Text) (now : Time) → AllKept eth s → AllKept eth (get s token now).0
  unfolding get
  AllKept-get s token now h = AllKept-got _ _ now _ (AllKept-cleanup_locked s now h)

  IsKept-with_report :
      (ttl : Duration) (token : Text) (e : Enrollment) (r : Report) (now : Time)
      → IsReport e.operator e.region r now
      → IsKept eth ttl token e
      → IsKept eth ttl token (with_report e r now)
  unfolding with_report
  IsKept-with_report ttl token e r now q k = record {
    under_its_token = k.under_its_token;
    operator_normal = k.operator_normal;
    region_valid = k.region_valid;
    lifetime = k.lifetime;
    status_follows = (
      refl,
      ap some (sym q.at_now),
      subst (λ t. IsReport e.operator e.region r t) (sym q.at_now) q,
    );
  }

  AllKept-report_on :
      (s : Store) (token : Text) (r : Report) (now : Time) (o : Option Enrollment)
      → lookup token s.records ≡ o
      → AllKept eth s
      → AllKept eth (report_on eth s token r now o).0
  unfolding report_on store_report
  AllKept-report_on s token r now none k h = h
  AllKept-report_on s token r now (some e) k h = elim (Bool-cases (is_over now e)) [
    | inl q ↦ rw q h
    | inr q ↦ elim (Result-cases (normalize_report eth e r now)) [
      | inl (v, f) ↦ rw (q, f) h
      | inr (r', f) ↦
          rw (q, f)
            (AllKept-insert s token (with_report e r' now)
              (IsKept-with_report s.ttl token e r' now (normalize_report-IsReport eth e r r' now f)
                (h token e k))
              h)
    ]
  ]

  AllKept-report :
      (s : Store) (token : Text) (r : Report) (now : Time)
      → AllKept eth s
      → AllKept eth (report eth s token r now).0
  unfolding report
  AllKept-report s token r now h =
      AllKept-report_on _ (trim_space token) r now _ refl (AllKept-cleanup_locked s now h)

  -- In every store that the operations make from an empty one, each enrollment stands under its
  -- own token, its operator is the checksum form of an accepted address, its region fits the
  -- pattern, it ends a lifetime after its creation, and its status follows from its last report:
  -- created without one, then healthy or reported as the report says, whose operator is the
  -- enrollment's or left out, whose region is the enrollment's or fits the pattern, and whose
  -- texts keep to their lengths.
  pub Reach-AllKept : {s : Store} → Reach eth s → AllKept eth s
  unfolding new_store lookup
  Reach-AllKept (starts ttl) = λ token e k. absurd (ground (arith))
  Reach-AllKept (creates {s} operator region drawn now p) =
      AllKept-create s operator region drawn now (Reach-AllKept p)
  Reach-AllKept (gets {s} token now p) = AllKept-get s token now (Reach-AllKept p)
  Reach-AllKept (reports {s} token r now p) = AllKept-report s token r now (Reach-AllKept p)
