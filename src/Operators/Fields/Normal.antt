-- ===== src/Operators/Fields/Normal.antt =====
-- What the normal forms of an enrollment's fields guarantee.
use sovereign_vpn.Base.{
  ℕ, zero, suc, ◌≤◌, ◌≡◌, refl, subst, ◌⊎◌, inl, inr, true, [], ◌∷◌, nat_eq, text_eq, arith,
  Bool-cases, length, ok,
}
use sovereign_vpn.Text.{Text, is_empty}
use sovereign_vpn.Clock.{Time}
use sovereign_vpn.Base.{Result-cases}
use sovereign_vpn.Text.{trim_space}
use sovereign_vpn.Strings.{to_lower, equal_fold, take_bytes}
use sovereign_vpn.External.{Ethereum}
use sovereign_vpn.Operators.Fields.{
  Report, Enrollment, normalize_operator, is_region, check_region, normalize_region, truncate_field,
  report_operator, report_region, truncated, normalize_report,
}

length-take_bytes-le : (n : ℕ) (s : Text) → length (take_bytes n s) ≤ n
unfolding take_bytes
length-take_bytes-le zero s = omega arith
length-take_bytes-le (suc n) [] = omega arith
length-take_bytes-le (suc n) (c ∷ s) = omega (arith, length-take_bytes-le n s)

pub length-truncate_field-le : (s : Text) (n : ℕ) → length (truncate_field s n) ≤ n
unfolding truncate_field
length-truncate_field-le s n = ground (arith, length-take_bytes-le n (trim_space s))

pub normalize_region-is_region :
    (s region : Text) → normalize_region s ≡ ok region → is_region region ≡ true
unfolding normalize_region check_region
normalize_region-is_region s region h = elim (Bool-cases (is_region (to_lower (trim_space s)))) [
  | inl e ↦ ground (arith)
  | inr e ↦ absurd (ground (arith))
]

-- What a stored report satisfies.
pub record IsReport (operator region : Text) (r : Report) (now : Time) : Type 0 where
  pub same_operator : (r.operator ≡ []) ⊎ (equal_fold r.operator operator ≡ true)
  pub region_valid : (r.region ≡ region) ⊎ (is_region r.region ≡ true)
  pub endpoint_fits : length r.endpoint ≤ 256
  pub gateway_url_fits : length r.gateway_url ≤ 256
  pub public_ip_fits : length r.public_ip ≤ 128
  pub gateway_port_fits : length r.gateway_port ≤ 16
  pub wireguard_port_fits : length r.wireguard_port ≤ 16
  pub key_fits : length r.wireguard_pub_key ≤ 128
  pub health_status_fits : length r.health_status ≤ 64
  pub version_fits : length r.installer_version ≤ 64
  pub at_now : r.reported_at ≡ now

truncated-IsReport :
    (record' : Enrollment) (r : Report) (operator region : Text) (now : Time)
    → (operator ≡ []) ⊎ (equal_fold operator record'.operator ≡ true)
    → (region ≡ record'.region) ⊎ (is_region region ≡ true)
    → IsReport record'.operator record'.region (truncated r operator region now) now
unfolding truncated
truncated-IsReport record' r operator region now o g = record {
  same_operator = o;
  region_valid = g;
  endpoint_fits = length-truncate_field-le r.endpoint 256;
  gateway_url_fits = length-truncate_field-le r.gateway_url 256;
  public_ip_fits = length-truncate_field-le r.public_ip 128;
  gateway_port_fits = length-truncate_field-le r.gateway_port 16;
  wireguard_port_fits = length-truncate_field-le r.wireguard_port 16;
  key_fits = length-truncate_field-le r.wireguard_pub_key 128;
  health_status_fits = length-truncate_field-le r.health_status 64;
  version_fits = length-truncate_field-le r.installer_version 64;
  at_now = refl;
}

is_empty-nil : (s : Text) → is_empty s ≡ true → s ≡ []
is_empty-nil [] h = refl
is_empty-nil (c ∷ s) h = absurd (ground (arith))

report_operator-ok :
    (eth : Ethereum) (record' : Enrollment) (operator operator' : Text)
    → report_operator eth record' operator ≡ ok operator'
    → (operator' ≡ []) ⊎ (equal_fold operator' record'.operator ≡ true)
unfolding report_operator
report_operator-ok eth record' operator operator' h = elim (Bool-cases (is_empty operator)) [
  | inl e ↦ let nil = is_empty-nil operator e in ground (arith)
  | inr e ↦ elim (Result-cases (normalize_operator eth operator)) [
    | inl (v, f) ↦ absurd (ground (arith))
    | inr (normal, f) ↦ elim (Bool-cases (equal_fold normal record'.operator)) [
      | inl g ↦
          let same : normal ≡ operator' = ground (arith) in
          inr (subst (λ o. equal_fold o record'.operator ≡ true) same g)
      | inr g ↦ absurd (ground (arith))
    ]
  ]
]

report_region-ok :
    (record' : Enrollment) (region region' : Text)
    → report_region record' region ≡ ok region'
    → (region' ≡ record'.region) ⊎ (is_region region' ≡ true)
unfolding report_region
report_region-ok record' region region' h = elim (Bool-cases (is_empty region)) [
  | inl e ↦ ground (arith)
  | inr e ↦ inr (normalize_region-is_region region region' (ground (arith)))
]

pub normalize_report-IsReport :
    (eth : Ethereum) (record' : Enrollment) (r r' : Report) (now : Time)
    → normalize_report eth record' r now ≡ ok r'
    → IsReport record'.operator record'.region r' now
unfolding normalize_report
normalize_report-IsReport eth record' r r' now h =
    elim (Result-cases (report_operator eth record' r.operator)) [
      | inl (v, e) ↦ absurd (ground (arith))
      | inr (operator, e) ↦ elim (Result-cases (report_region record' r.region)) [
        | inl (v, f) ↦ absurd (ground (arith))
        | inr (region, f) ↦
            let same : truncated r operator region now ≡ r' = ground (arith) in
            subst (λ q. IsReport record'.operator record'.region q now) same
              (truncated-IsReport record' r operator region now
                (report_operator-ok eth record' r.operator operator e)
                (report_region-ok record' r.region region f))
      ]
    ]
