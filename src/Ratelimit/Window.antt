-- ===== src/Ratelimit/Window.antt =====
-- How many requests of one client pass in a window.
use sovereign_vpn.Base.{
  ℕ, zero, suc, ◌+◌, ◌≤◌, ◌≡◌, inl, inr, true, false, ◌&&◌, none, some, List, [], ◌∷◌, ◌==◌, nat_eq,
  text_eq, if◌then◌else◌, arith, Bool-cases, Option-cases, beq_refl, ℤ, All,
}
use Prim.Native.Nat.{min}
use sovereign_vpn.Text.{Text}
use sovereign_vpn.Clock.{Time, add, after}
use sovereign_vpn.Map.{lookup, kept}
use sovereign_vpn.Map.Laws.{lookup-insert, lookup-sweep}
use sovereign_vpn.Ratelimit.{
  new_visitor, Visitor, Limiter, allow, cleanup, Call, requests, cleans, step, minus_one,
}

-- How many requests a client makes in a history, and how many are allowed.
pub requested : Text → List Call → ℕ
requested ip [] = 0
requested ip (requests j t ∷ cs) = (if j == ip then 1 else 0) + requested ip cs
requested ip (cleans t ∷ cs) = requested ip cs

pub allowed : Limiter → Text → List Call → ℕ
allowed l ip [] = 0
allowed l ip (requests j t ∷ cs) =
    (if j == ip && (allow l j t).1 then 1 else 0) + allowed (step l (requests j t)) ip cs
allowed l ip (cleans t ∷ cs) = allowed (step l (cleans t)) ip cs

abbrev pub NotAfter : Time → Call → Type 0
NotAfter end (requests j t) = t ≤ end
NotAfter end (cleans t) = t ≤ end

-- The client's window, with the tokens that are left.
abbrev Open : Limiter → Text → ℕ → Time → Type 0
Open l ip tokens end =
    lookup ip l.visitors ≡ some (record { tokens = ℤ.pos tokens; reset_at = end })

module _ (l : Limiter) (ip : Text) (end : Time) where
  other-Open :
      (tokens : ℕ) (j : Text) (t : Time)
      → Open l ip tokens end
      → (j == ip) ≡ false
      → Open (allow l j t).0 ip tokens end
  unfolding allow
  other-Open tokens j t h other = elim (Option-cases (lookup j l.visitors)) [
    | inl new ↦ ground (arith, new, lookup-insert ip j (new_visitor l t) l.visitors)
    | inr (v, old) ↦ ground (
      arith,
      old,
      lookup-insert ip j (new_visitor l t) l.visitors,
      lookup-insert ip j (record v { tokens = minus_one v.tokens }) l.visitors,
    )
  ]

  own-Open :
      (tokens : ℕ) (t : Time)
      → Open l ip (suc tokens) end
      → t ≤ end
      → ((allow l ip t).1 ≡ true) × Open (allow l ip t).0 ip tokens end
  unfolding allow
  own-Open tokens t h le = (
    ground arith,
    ground (
      arith,
      lookup-insert ip ip (record { tokens = ℤ.pos tokens; reset_at = end }) l.visitors,
      beq_refl ip,
    ),
  )

  own_empty :
      (t : Time)
      → Open l ip 0 end
      → t ≤ end
      → ((allow l ip t).1 ≡ false) × Open (allow l ip t).0 ip 0 end
  unfolding allow
  own_empty t h le = (ground arith, ground arith)

  cleanup-Open :
      (tokens : ℕ) (t : Time) → Open l ip tokens end → t ≤ end → Open (cleanup l t) ip tokens end
  unfolding cleanup
  cleanup-Open tokens t h le =
      ground (arith, lookup-sweep (λ (v : Visitor). after t v.reset_at) ip l.visitors)

  opens :
      (t : Time) (n : ℕ)
      → l.limit ≡ ℤ.pos (suc n)
      → kept (λ v. after t v.reset_at) (lookup ip l.visitors) ≡ none
      → ((allow l ip t).1 ≡ true) × Open (allow l ip t).0 ip n (add t l.window)
  unfolding allow
  opens t n limit over = elim (Option-cases (lookup ip l.visitors)) [
    | inl new ↦ (
      ground (arith, new),
      ground (arith, new, lookup-insert ip ip (new_visitor l t) l.visitors, beq_refl ip),
    )
    | inr (v, old) ↦ (
      ground (arith, old),
      ground (arith, old, lookup-insert ip ip (new_visitor l t) l.visitors, beq_refl ip),
    )
  ]

allowed-Open :
    (l : Limiter) (ip : Text) (end : Time) (tokens : ℕ) (cs : List Call)
    → Open l ip tokens end
    → All (NotAfter end) cs
    → allowed l ip cs ≡ min (requested ip cs) tokens
unfolding allowed requested step
allowed-Open l ip end tokens [] h k = omega arith
allowed-Open l ip end tokens (cleans t ∷ cs) h k =
    allowed-Open (cleanup l t) ip end tokens cs (cleanup-Open l ip end tokens t h k.0) k.1
allowed-Open l ip end zero (requests j t ∷ cs) h k = elim (Bool-cases (j == ip)) [
  | inl own ↦
      let (no_more, rest) = own_empty l ip end t h k.0 in
      rw ((text_eq.beq_iff j ip).0 own)
        (ground (arith, no_more, beq_refl ip, allowed-Open (allow l ip t).0 ip end 0 cs rest k.1))
  | inr other ↦
      ground
        (arith, allowed-Open (allow l j t).0 ip end 0 cs (other-Open l ip end 0 j t h other) k.1)
]
allowed-Open l ip end (suc tokens) (requests j t ∷ cs) h k = elim (Bool-cases (j == ip)) [
  | inl own ↦
      let (passes, rest) = own-Open l ip end tokens t h k.0 in
      rw ((text_eq.beq_iff j ip).0 own) (
        ground
          (arith, passes, beq_refl ip, allowed-Open (allow l ip t).0 ip end tokens cs rest k.1))
  | inr other ↦ ground (
    arith,
    allowed-Open (allow l j t).0 ip end (suc tokens) cs
        (other-Open l ip end (suc tokens) j t h other) k.1,
  )
]

-- In the window that a client's request at `t` opens, the client having no window then, exactly
-- the first `limit` of its requests pass, that one included: whatever other clients request and
-- whenever the cleanup runs, up to the end of the window, and for every positive limit.
pub allowed-min :
    (l : Limiter) (ip : Text) (t : Time) (n : ℕ) (cs : List Call)
    → l.limit ≡ ℤ.pos (suc n)
    → kept (λ v. after t v.reset_at) (lookup ip l.visitors) ≡ none
    → All (NotAfter (add t l.window)) cs
    → allowed l ip (requests ip t ∷ cs) ≡ min (requested ip (requests ip t ∷ cs)) (suc n)
unfolding allowed requested step
allowed-min l ip t n cs limit over h =
    let (passes, rest) = opens l ip (add t l.window) t n limit over in
    ground
      (arith, passes, beq_refl ip, allowed-Open (allow l ip t).0 ip (add t l.window) n cs rest h)
