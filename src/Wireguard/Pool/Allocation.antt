-- ===== src/Wireguard/Pool/Allocation.antt =====
-- What the address pool hands out.
use sovereign_vpn.Map.{insert}
use sovereign_vpn.Text.{Text}
use sovereign_vpn.Base.{
  ◌↔◌, zero, text_eq, ◌%◌, ◌-◌, arith, inr, inl, Bool-cases, suc, ◌<◌, some, ◌+◌, true, false, ◌≡◌,
  ◌≤◌, ℕ, none, Option, refl,
}
use sovereign_vpn.Wireguard.Pool.{IpPool, try_from, allocate, is_taken, octet_at, ip_text}

-- What a call of `allocate` does: it takes a free address of the range and changes no other, or
-- it fails and changes nothing.
pub data Allocates (p : IpPool) : IpPool × Option Text → Type 0 where
  exhausted : Allocates p (p, none)
  took :
      (octet : ℕ)
      → 2 ≤ octet
      → octet ≤ 254
      → is_taken p (ip_text p octet) ≡ false
      → Allocates p (
        record p { allocated = insert (ip_text p octet) true p.allocated; next_octet = octet + 1 },
        some (ip_text p octet),
      )

try_from-Allocates : (rounds i : ℕ) (p : IpPool) → Allocates p (try_from rounds i p)
unfolding try_from
try_from-Allocates zero i p = exhausted
try_from-Allocates (suc rounds) i p = elim (Bool-cases (is_taken p (ip_text p (octet_at p i)))) [
  | inl full ↦ rw (full, try_from) (try_from-Allocates rounds (i + 1) p)
  | inr free ↦ rw (free, try_from) (took (octet_at p i) (omega arith) (omega arith) free)
]

pub allocate-Allocates : (p : IpPool) → Allocates p (allocate p)
unfolding allocate
allocate-Allocates p = try_from-Allocates 253 0 p

-- A failed search has seen every address that it tried taken.
try_from-none :
    (rounds i : ℕ) (p : IpPool)
    → (try_from rounds i p).1 ≡ none
    → (k : ℕ) → k < rounds
    → is_taken p (ip_text p (octet_at p (i + k))) ≡ true
unfolding try_from
try_from-none zero i p h k lt = elim lt [ ]
try_from-none (suc rounds) i p h zero lt = let e : i + 0 ≡ i = omega arith in rw e (ground arith)
try_from-none (suc rounds) i p h (suc k) lt =
    let e : i + suc k ≡ i + 1 + k = omega arith in
    rw e (try_from-none rounds (i + 1) p (ground arith) k (omega arith))

-- The pool is exhausted only when all of .2 to .254 are taken, wherever the search starts.
pub allocate-eq_none :
    (p : IpPool)
    → 2 ≤ p.next_octet
    → (allocate p).1 ≡ none
    → (octet : ℕ) → 2 ≤ octet
    → octet ≤ 254
    → is_taken p (ip_text p octet) ≡ true
unfolding allocate
allocate-eq_none p start h octet lo hi =
    let k = (octet - 2 + 253 - (p.next_octet - 2) % 253) % 253 in
    let e : octet_at p (0 + k) ≡ octet = omega arith in
    rw e at (try_from-none 253 0 p h k (omega arith))

-- Allocation fails exactly when all of .2 to .254 are taken, wherever from .2 on the search
-- starts.
pub allocate_iff_exhausted :
    (p : IpPool)
    → 2 ≤ p.next_octet
    → ((allocate p).1 ≡ none)
      ↔ ((octet : ℕ) → 2 ≤ octet → octet ≤ 254 → is_taken p (ip_text p octet) ≡ true)
allocate_iff_exhausted p start = (allocate-eq_none p start, all_taken (allocate-Allocates p))
  where
    all_taken :
        {r : IpPool × Option Text}
        → Allocates p r
        → ((octet : ℕ) → 2 ≤ octet → octet ≤ 254 → is_taken p (ip_text p octet) ≡ true)
        → r.1 ≡ none
    all_taken exhausted h = refl
    all_taken (took octet lo hi free) h = cc (h octet lo hi)
