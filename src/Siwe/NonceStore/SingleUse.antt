-- ===== src/Siwe/NonceStore/SingleUse.antt =====
-- A nonce is good for one sign-in, within its lifetime.
use sovereign_vpn.Base.{
  ℕ, ◌+◌, ◌≤◌, Bool, ◌&&◌, Option, none, some, List, [], ◌∷◌, arith, ◌==◌, if◌then◌else◌, text_eq,
}
use sovereign_vpn.Map.{lookup, kept}
use sovereign_vpn.Clock.{Time, Duration, after}
use sovereign_vpn.Siwe.NonceStore.{
  Nonce, NonceStore, new_nonce_store, Call, generates, consumes, cleans, generate, consume, cleanup,
  step,
}
use sovereign_vpn.Siwe.NonceStore.Laws.{
  is_live, consume-is_live, lookup-consume, lookup-generate, lookup-cleanup, generate-none,
}

-- How often a history issues a nonce, and how often it accepts one.
pub issued : Nonce → List Call → ℕ
issued j [] = 0
issued j (generates none now ∷ cs) = issued j cs
issued j (generates (some n) now ∷ cs) = (if n == j then 1 else 0) + issued j cs
issued j (consumes n now ∷ cs) = issued j cs
issued j (cleans now ∷ cs) = issued j cs

pub accepted : NonceStore → Nonce → List Call → ℕ
accepted ns j [] = 0
accepted ns j (generates drawn now ∷ cs) = accepted (step ns (generates drawn now)) j cs
accepted ns j (consumes n now ∷ cs) =
    (if n == j && (consume ns n now).1 then 1 else 0) + accepted (step ns (consumes n now)) j cs
accepted ns j (cleans now ∷ cs) = accepted (step ns (cleans now)) j cs

abbrev held : Option Time → ℕ
held none = 0
held (some _) = 1

held-kept : (bad : Time → Bool) (o : Option Time) → held (kept bad o) ≤ held o
held-kept bad none = omega arith
held-kept bad (some t) = ground arith

held-is_live : (now : Time) (o : Option Time) → (if is_live now o then 1 else 0) ≤ held o
held-is_live now none = omega arith
held-is_live now (some t) = ground arith

accepted-le :
    (ns : NonceStore) (j : Nonce) (cs : List Call)
    → accepted ns j cs ≤ held (lookup j ns.nonces) + issued j cs
unfolding accepted issued step
accepted-le ns j [] = omega arith
accepted-le ns j (generates none now ∷ cs) = rw (generate-none ns now) (accepted-le ns j cs)
accepted-le ns j (generates (some n) now ∷ cs) =
    ground (arith, accepted-le (generate ns (some n) now).0 j cs, lookup-generate ns n j now)
accepted-le ns j (consumes n now ∷ cs) = ground (
  arith,
  accepted-le (consume ns n now).0 j cs,
  lookup-consume ns n j now,
  consume-is_live ns n now,
  text_eq.beq_iff n j,
  held-is_live now (lookup j ns.nonces),
)
accepted-le ns j (cleans now ∷ cs) = ground (
  arith,
  accepted-le (cleanup ns now) j cs,
  lookup-cleanup ns j now,
  held-kept (after now) (lookup j ns.nonces),
)

-- From the empty store no history of calls, with any clock readings and any draws, accepts a
-- nonce more often than the store issued it.
pub accepted-le-issued :
    (ttl : Duration) (j : Nonce) (cs : List Call)
    → accepted (new_nonce_store ttl) j cs ≤ issued j cs
unfolding new_nonce_store lookup
accepted-le-issued ttl j cs = omega (arith, accepted-le (record { nonces = []; ttl = ttl }) j cs)
