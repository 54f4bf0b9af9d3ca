-- ===== src/Map.antt =====
-- Go's `map[K]V` as an association list: read, write, `delete`, `len`, and the loop
-- `for k, v := range m { if cond { delete(m, k) } }` that the stores' cleanup routines run.
-- Go leaves the order of a range open; the laws of `sweep` in Map/Laws do not depend on it.
pub mod Laws
use sovereign_vpn.Base.{
  ℕ, Bool, true, false, ◌||◌, Option, none, some, List, [], ◌∷◌, Eq, ◌==◌, if◌then◌else◌, length,
}

abbrev pub Map {ℓ κ} : Type ℓ → Type κ → Type (ℓ ⊔ κ)
Map K V = List (K × V)

module _ {ℓ κ} {K : Type ℓ} {V : Type κ} where
  abbrev pub keys : Map K V → List K
  keys [] = []
  keys ((k, v) ∷ m) = k ∷ keys m

  abbrev pub size : Map K V → ℕ
  size m = length m

module _ {ℓ κ} {K : Type ℓ} {V : Type κ} ⦃e : Eq K⦄ where
  unfoldable pub lookup : K → Map K V → Option V
  lookup j [] = none
  lookup j ((k, v) ∷ m) = if k == j then some v else lookup j m

  unfoldable pub insert : K → V → Map K V → Map K V
  insert j w [] = (j, w) ∷ []
  insert j w ((k, v) ∷ m) = if k == j then (k, w) ∷ m else (k, v) ∷ insert j w m

  unfoldable pub delete : K → Map K V → Map K V
  delete j [] = []
  delete j ((k, v) ∷ m) = let rest = delete j m in if k == j then rest else (k, v) ∷ rest

-- The test of a range loop on an entry that may be gone.
abbrev pub is_bad {κ} : {V : Type κ} → (V → Bool) → Option V → Bool
is_bad bad none = false
is_bad bad (some v) = bad v

-- What a sweep leaves of an entry.
abbrev pub kept {κ} : {V : Type κ} → (V → Bool) → Option V → Option V
kept bad none = none
kept bad (some v) = if bad v then none else some v

module _ {ℓ κ} {K : Type ℓ} {V : Type κ} ⦃e : Eq K⦄ where
  unfoldable pub sweep_keys : (V → Bool) → List K → Map K V → Map K V
  sweep_keys bad [] m = m
  sweep_keys bad (k ∷ ks) m = sweep_keys bad ks (if is_bad bad (lookup k m) then delete k m else m)

  unfoldable pub sweep : (V → Bool) → Map K V → Map K V
  unfolding sweep_keys
  sweep bad m = sweep_keys bad (keys m) m

module _ {ℓ} {K : Type ℓ} ⦃e : Eq K⦄ where
  unfoldable pub contains : K → List K → Bool
  contains j [] = false
  contains j (k ∷ ks) = k == j || contains j ks
