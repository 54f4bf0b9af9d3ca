-- ===== src/Siwe/NonceStore/Lifetime.antt =====
-- How long an issued nonce is accepted.
use sovereign_vpn.Base.{
  ◌≤◌, ◌≡◌, refl, ◌∙◌, ◌≢◌, Option, none, some, List, [], ◌∷◌, arith, All, text_eq, beq_refl,
}
use sovereign_vpn.Map.{lookup, kept}
use sovereign_vpn.Clock.{Time, after, before, add}
use sovereign_vpn.Siwe.NonceStore.{
  Nonce, NonceStore, Call, generates, consumes, cleans, generate, consume, step, run,
}
use sovereign_vpn.Siwe.NonceStore.Laws.{
  is_live, consume-is_live, lookup-consume, lookup-generate, lookup-cleanup, generate-none,
}

-- A call up to `now` that neither draws nor presents the nonce.
abbrev pub LeavesAlone : Nonce → Time → Call → Type 0
LeavesAlone j now (generates none t) = Unit
LeavesAlone j now (generates (some n) t) = n ≢ j
LeavesAlone j now (consumes n t) = n ≢ j
LeavesAlone j now (cleans t) = t ≤ now

is_live-kept :
    (t now : Time) (o : Option Time) → t ≤ now → is_live now (kept (after t) o) ≡ is_live now o
is_live-kept t now none h = refl
is_live-kept t now (some e) h = ground arith

is_live-step :
    (ns : NonceStore) (j : Nonce) (now : Time) (c : Call)
    → LeavesAlone j now c
    → is_live now (lookup j (step ns c).nonces) ≡ is_live now (lookup j ns.nonces)
unfolding step
is_live-step ns j now (generates none t) h = rw (generate-none ns t)
is_live-step ns j now (generates (some n) t) h =
    ground (arith, lookup-generate ns n j t, text_eq.beq_iff n j)
is_live-step ns j now (consumes n t) h =
    ground (arith, lookup-consume ns n j t, text_eq.beq_iff n j)
is_live-step ns j now (cleans t) h =
    rw (lookup-cleanup ns j t) (is_live-kept t now (lookup j ns.nonces) h)

is_live-run :
    (ns : NonceStore) (j : Nonce) (now : Time) (cs : List Call)
    → All (LeavesAlone j now) cs
    → is_live now (lookup j (run ns cs).nonces) ≡ is_live now (lookup j ns.nonces)
unfolding run
is_live-run ns j now [] h = refl
is_live-run ns j now (c ∷ cs) h = is_live-run (step ns c) j now cs h.1 ∙ is_live-step ns j now c h.0

-- A nonce issued at `t` is accepted at `now`, after any calls in between that neither draw nor
-- present it and clean up no later than `now`, exactly when `now` is before `t` plus the
-- lifetime; cleanups in between make no difference.
pub consume-run-generate :
    (ns : NonceStore) (j : Nonce) (t now : Time) (cs : List Call)
    → All (LeavesAlone j now) cs
    → (consume (run (generate ns (some j) t).0 cs) j now).1 ≡ before now (add t ns.ttl)
consume-run-generate ns j t now cs h = ground (
  arith,
  consume-is_live (run (generate ns (some j) t).0 cs) j now,
  is_live-run (generate ns (some j) t).0 j now cs h,
  lookup-generate ns j j t,
  beq_refl j,
)
