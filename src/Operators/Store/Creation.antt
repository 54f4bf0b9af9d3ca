-- ===== src/Operators/Store/Creation.antt =====
-- What a creation answers and stores.
use sovereign_vpn.Base.{◌≡◌, inl, inr, Option, none, some, nat_eq, text_eq, arith, beq_refl, ok}
use sovereign_vpn.Text.{Text}
use sovereign_vpn.Clock.{Time}
use sovereign_vpn.Base.{Result-cases}
use sovereign_vpn.External.{Ethereum}
use sovereign_vpn.Map.{lookup}
use sovereign_vpn.Map.Laws.{lookup-insert}
use sovereign_vpn.Operators.Fields.{Enrollment, normalize_operator, normalize_region}
use sovereign_vpn.Operators.Store.{Store, store_new, create_with, create, cleanup_locked}

-- What a created enrollment is.
pub record IsCreated (eth : Ethereum) (operator : Text) (s' : Store) (e : Enrollment) : Type 0 where
  pub enrolled : normalize_operator eth operator ≡ ok e.operator
  pub stored : lookup e.token s'.records ≡ some e

module _ (eth : Ethereum) where
  store_new-ok :
      (s s' : Store) (raw operator region : Text) (drawn : Option Text) (now : Time)
      (e : Enrollment)
      → normalize_operator eth raw ≡ ok operator
      → store_new s operator region drawn now ≡ (s', ok e)
      → IsCreated eth raw s' e
  unfolding store_new
  store_new-ok s s' raw operator region none now e o h = absurd (ground (arith))
  store_new-ok s s' raw operator region (some token) now e o h = record {
    enrolled = ground (arith);
    stored =
        ground (arith, lookup-insert token token e (cleanup_locked s now).records, beq_refl token);
  }

  pub create-ok :
      (s s' : Store) (operator region : Text) (drawn : Option Text) (now : Time) (e : Enrollment)
      → create eth s operator region drawn now ≡ (s', ok e)
      → IsCreated eth operator s' e
  unfolding create create_with
  create-ok s s' operator region drawn now e h =
      elim (Result-cases (normalize_operator eth operator)) [
        | inl (v, k) ↦ absurd (ground (arith))
        | inr (o, k) ↦ elim (Result-cases (normalize_region region)) [
          | inl (v, f) ↦ absurd (ground (arith))
          | inr (g, f) ↦ store_new-ok s s' operator o g drawn now e k (ground (arith))
        ]
      ]
