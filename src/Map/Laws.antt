-- ===== src/Map/Laws.antt =====
-- The laws of maps, each an equation for every key with no side condition.
use sovereign_vpn.Base.{
  ◌≡◌, refl, inl, inr, Bool, false, Option, none, some, List, [], ◌∷◌, Eq, ◌==◌, if◌then◌else◌,
  arith, Bool-cases, beq_refl,
}
use sovereign_vpn.Map.{Map, keys, lookup, insert, delete, sweep_keys, sweep, contains, is_bad, kept}

pub kept_idem {κ} :
    {V : Type κ} (bad : V → Bool) (o : Option V) → kept bad (kept bad o) ≡ kept bad o
kept_idem bad none = refl
kept_idem bad (some v) = ground arith

module _ {ℓ κ} {K : Type ℓ} {V : Type κ} ⦃e : Eq K⦄ where
  pub lookup-insert :
      (j k : K) (v : V) (m : Map K V)
      → lookup j (insert k v m) ≡ (if k == j then some v else lookup j m)
  unfolding lookup insert
  lookup-insert j k v [] = refl
  lookup-insert j k v ((i, w) ∷ m) =
      ground (arith, e.beq_iff k j, e.beq_iff i k, e.beq_iff i j, lookup-insert j k v m)

  pub lookup-delete :
      (j k : K) (m : Map K V) → lookup j (delete k m) ≡ (if k == j then none else lookup j m)
  unfolding lookup delete
  lookup-delete j k [] = ground arith
  lookup-delete j k ((i, w) ∷ m) =
      ground (arith, e.beq_iff k j, e.beq_iff i k, e.beq_iff i j, lookup-delete j k m)

  -- A key that a lookup finds is among the keys.
  pub lookup_of_contains-false :
      (j : K) (m : Map K V) → contains j (keys m) ≡ false → lookup j m ≡ none
  unfolding lookup contains
  lookup_of_contains-false j [] h = refl
  lookup_of_contains-false j ((k, v) ∷ m) h = ground (arith, lookup_of_contains-false j m)

  sweep_step :
      (bad : V → Bool) (j k : K) (m : Map K V)
      → lookup j (if is_bad bad (lookup k m) then delete k m else m)
        ≡ (if k == j then kept bad (lookup j m) else lookup j m)
  sweep_step bad j k m = elim (Bool-cases (k == j)) [
    | inl same ↦ ground (arith, (e.beq_iff k j).0 same, lookup-delete j k m)
    | inr other ↦ ground (arith, lookup-delete j k m)
  ]

  lookup-sweep_keys :
      (bad : V → Bool) (j : K) (ks : List K) (m : Map K V)
      → lookup j (sweep_keys bad ks m)
        ≡ (if contains j ks then kept bad (lookup j m) else lookup j m)
  unfolding sweep_keys contains
  lookup-sweep_keys bad j [] m = refl
  lookup-sweep_keys bad j (k ∷ ks) m = ground (
    arith,
    lookup-sweep_keys bad j ks (if is_bad bad (lookup k m) then delete k m else m),
    sweep_step bad j k m,
    kept_idem bad (lookup j m),
  )

  pub lookup-sweep :
      (bad : V → Bool) (j : K) (m : Map K V) → lookup j (sweep bad m) ≡ kept bad (lookup j m)
  unfolding sweep
  lookup-sweep bad j m =
      ground (arith, lookup-sweep_keys bad j (keys m) m, lookup_of_contains-false j m)

  pub lookup-insert_self : (k : K) (v : V) (m : Map K V) → lookup k (insert k v m) ≡ some v
  lookup-insert_self k v m = ground (arith, lookup-insert k k v m, beq_refl k)

  pub lookup-delete_self : (k : K) (m : Map K V) → lookup k (delete k m) ≡ none
  lookup-delete_self k m = ground (arith, lookup-delete k k m, beq_refl k)

pub ruleset map_laws = (lookup-insert, lookup-delete, lookup-sweep)
