-- ===== src/Nftcheck/Checker/Cache.antt =====
-- How long the cache of a checker keeps an answer, and what a check answers without it.
use sovereign_vpn.Base.{
  All, sym, ◌∙◌, false, ◌≢◌, subst, lt→ltb, ◌≤◌, ◌<◌, ◌≡◌, refl, ap, inl, inr, Option, none, some,
  List, [], ◌∷◌, ◌==◌, nat_eq, text_eq, if◌then◌else◌, arith, Bool-cases, Option-cases, beq_refl,
}
use sovereign_vpn.Clock.{Time, add, before, after}
use sovereign_vpn.Map.Laws.{lookup-insert, lookup-delete, lookup-sweep, lookup-insert_self}
use sovereign_vpn.Nftcheck.Tier.{AccessTier, tier_eq}
use sovereign_vpn.Map.{lookup}
use sovereign_vpn.Nftcheck.Checker.{
  CacheEntry, Call, checks, invalidates, cleans, step, run, cleanup, Address, Query, Checker,
  CheckResult, cached, fresh_entry, check, check_miss, checked, query_tier, store_result,
  invalidate,
}

-- An answer that a query for the chain's tier gives.
abbrev pub answer : Time → Option AccessTier → Option CheckResult
answer checked_at none = none
answer checked_at (some tier) = some (record { tier = tier; checked_at = checked_at })

-- The answer of the chain and of the delegated vaults, without a cache.
abbrev pub chain_answer : Query → Option (List Address) → Address → Time → Option CheckResult
chain_answer query vaults wallet checked_at = answer checked_at (query_tier query vaults wallet)

-- The calls that leave a wallet's entry in the cache until its end: the checks of other wallets, its
-- own before the end, the invalidations of others, and cleanups that are not after the end.
abbrev pub Keeps : Address → Time → Call → Type 0
Keeps wallet end (checks query vaults a read_at checked_at stored_at) = a ≡ wallet → read_at < end
Keeps wallet end (invalidates a) = a ≢ wallet
Keeps wallet end (cleans now) = now ≤ end

pub checked-answer :
    (c : Checker) (wallet : Address) (checked_at stored_at : Time) (o : Option AccessTier)
    → (checked c wallet checked_at stored_at o).1 ≡ answer checked_at o
unfolding checked
checked-answer c wallet checked_at stored_at none = refl
checked-answer c wallet checked_at stored_at (some tier) = refl

check_uncached :
    (query : Query) (vaults : Option (List Address)) (c : Checker) (wallet : Address)
    (t0 t1 t2 : Time)
    → cached c wallet t0 ≡ none
    → check query vaults c wallet t0 t1 t2 ≡ checked c wallet t1 t2 (query_tier query vaults wallet)
unfolding check check_miss
check_uncached query vaults c wallet t0 t1 t2 miss = rw miss refl

pub check-answer :
    (query : Query) (vaults : Option (List Address)) (c : Checker) (wallet : Address)
    (t0 t1 t2 : Time)
    → cached c wallet t0 ≡ none
    → (check query vaults c wallet t0 t1 t2).1 ≡ chain_answer query vaults wallet t1
check-answer query vaults c wallet t0 t1 t2 miss =
    ap (λ x. x.1) (check_uncached query vaults c wallet t0 t1 t2 miss)
    ∙ checked-answer c wallet t1 t2 (query_tier query vaults wallet)

checked-stores :
    (c : Checker) (wallet : Address) (t1 t2 : Time) (o : Option AccessTier) (r : CheckResult)
    → (checked c wallet t1 t2 o).1 ≡ some r
    → lookup wallet (checked c wallet t1 t2 o).0.cache
      ≡ some (record { result = r; expires_at = add t2 c.cache_ttl })
unfolding checked store_result
checked-stores c wallet t1 t2 none r h = absurd (ground (arith))
checked-stores c wallet t1 t2 (some tier) r h =
    let same : record { tier = tier; checked_at = t1 } ≡ r = ground (arith) in
    lookup-insert_self wallet
      (record { result = record { tier = tier; checked_at = t1 }; expires_at = add t2 c.cache_ttl })
      c.cache
    ∙ ap (λ x. some (record { result = x; expires_at = add t2 c.cache_ttl })) same

-- The entry that a check stores.
pub check-stores :
    (query : Query) (vaults : Option (List Address)) (c : Checker) (wallet : Address)
    (t0 t1 t2 : Time) (r : CheckResult)
    → cached c wallet t0 ≡ none
    → (check query vaults c wallet t0 t1 t2).1 ≡ some r
    → lookup wallet (check query vaults c wallet t0 t1 t2).0.cache
      ≡ some (record { result = r; expires_at = add t2 c.cache_ttl })
check-stores query vaults c wallet t0 t1 t2 r miss found =
    let uncached = check_uncached query vaults c wallet t0 t1 t2 miss in
    ap (λ x. lookup wallet x.0.cache) uncached
    ∙ checked-stores c wallet t1 t2 (query_tier query vaults wallet) r
        (ap (λ x. x.1) (sym uncached) ∙ found)

pub cached-invalidate :
    (c : Checker) (wallet : Address) (now : Time) → cached (invalidate c wallet) wallet now ≡ none
unfolding cached invalidate fresh_entry
cached-invalidate c wallet now =
    ground (arith, lookup-delete wallet wallet c.cache, beq_refl wallet)

-- A check with an entry in the cache.
pub check-hit :
    (query : Query) (vaults : Option (List Address)) (c : Checker) (wallet : Address)
    (t0 t1 t2 : Time) (e : CacheEntry)
    → lookup wallet c.cache ≡ some e
    → check query vaults c wallet t0 t1 t2 ≡ (
        if before t0 e.expires_at
        then (c, some e.result)
        else checked c wallet t1 t2 (query_tier query vaults wallet))
unfolding check check_miss cached fresh_entry
check-hit query vaults c wallet t0 t1 t2 e h = elim (Bool-cases (before t0 e.expires_at)) [
  | inl live ↦ rw (h, live) refl
  | inr over ↦ rw (h, over) refl
]

checked-keeps :
    (c : Checker) (wallet a : Address) (t1 t2 : Time) (o : Option AccessTier) (e : CacheEntry)
    → (a == wallet) ≡ false
    → lookup wallet c.cache ≡ some e
    → lookup wallet (checked c a t1 t2 o).0.cache ≡ some e
unfolding checked store_result
checked-keeps c wallet a t1 t2 none e other h = h
checked-keeps c wallet a t1 t2 (some tier) e other h = ground (
  arith,
  lookup-insert wallet a
      (record { result = record { tier = tier; checked_at = t1 }; expires_at = add t2 c.cache_ttl })
      c.cache,
)

check-keeps :
    (query : Query) (vaults : Option (List Address)) (c : Checker) (wallet a : Address)
    (t0 t1 t2 : Time) (e : CacheEntry)
    → lookup wallet c.cache ≡ some e
    → (a ≡ wallet → t0 < e.expires_at)
    → lookup wallet (check query vaults c a t0 t1 t2).0.cache ≡ some e
unfolding check check_miss
check-keeps query vaults c wallet a t0 t1 t2 e h k = elim (Bool-cases (a == wallet)) [
  | inl same ↦
      (let own = (nat_eq.beq_iff a wallet).0 same in
        let live : check query vaults c wallet t0 t1 t2 ≡ (c, some e.result) =
          check-hit query vaults c wallet t0 t1 t2 e h
          ∙ (rw (lt→ltb t0 e.expires_at (k own)) refl) in
        subst (λ b. lookup wallet (check query vaults c b t0 t1 t2).0.cache ≡ some e) (sym own)
          (ap (λ x. lookup wallet x.0.cache) live ∙ h))
  | inr other ↦ elim (Option-cases (cached c a t0)) [
    | inl f ↦ rw f (checked-keeps c wallet a t1 t2 (query_tier query vaults a) e other h)
    | inr (result, f) ↦ rw f h
  ]
]

step-Keeps :
    (c : Checker) (wallet : Address) (e : CacheEntry) (call : Call)
    → lookup wallet c.cache ≡ some e
    → Keeps wallet e.expires_at call
    → lookup wallet (step c call).cache ≡ some e
unfolding step invalidate cleanup
step-Keeps c wallet e (checks query vaults a t0 t1 t2) h k =
    check-keeps query vaults c wallet a t0 t1 t2 e h k
step-Keeps c wallet e (invalidates a) h k =
    ground (arith, h, lookup-delete wallet a c.cache, nat_eq.beq_iff a wallet)
step-Keeps c wallet e (cleans now) h k =
    ground (arith, h, lookup-sweep (λ x. after now x.expires_at) wallet c.cache)

pub run-Keeps :
    (c : Checker) (wallet : Address) (e : CacheEntry) (calls : List Call)
    → lookup wallet c.cache ≡ some e
    → All (Keeps wallet e.expires_at) calls
    → lookup wallet (run c calls).cache ≡ some e
unfolding run
run-Keeps c wallet e [] h k = h
run-Keeps c wallet e (call ∷ calls) h k =
    run-Keeps (step c call) wallet e calls (step-Keeps c wallet e call h k.0) k.1
