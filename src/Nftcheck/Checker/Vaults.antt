-- ===== src/Nftcheck/Checker/Vaults.antt =====
-- The vault loop of `checkVaults` against the best tier of all vaults, and the cache.
use sovereign_vpn.Base.{
  All, Bool, sym, ◌∙◌, false, ℕ, ◌≤◌, ◌≡◌, refl, ap, inl, inr, true, Option, none, some, List, [],
  ◌∷◌, ◌==◌, nat_eq, text_eq, if◌then◌else◌, arith, Bool-cases, Option-cases, ltb,
}
use sovereign_vpn.Clock.{Time, add, before}
use sovereign_vpn.Nftcheck.Tier.{AccessTier, rank, tier_eq}
use sovereign_vpn.Nftcheck.Checker.Cache.{
  Keeps, run-Keeps, check-stores, check-hit, check-answer, cached-invalidate, chain_answer,
  checked-answer,
}
use sovereign_vpn.Nftcheck.Checker.{
  CacheEntry, Call, run, Address, Query, Checker, CheckResult, better, check_vaults, cached, check,
  checked, query_tier, invalidate,
}

-- The rank of an answer: a failed query counts as none.
answer_rank : Option AccessTier → ℕ
answer_rank none = 0
answer_rank (some t) = rank t

-- The highest rank of all vaults' answers, and of the tier to begin with.
pub best_rank : Query → ℕ → List Address → ℕ
unfolding answer_rank
best_rank query r [] = r
best_rank query r (v ∷ vs) =
    let rest = best_rank query r vs in
    if ltb rest (answer_rank (query v)) then answer_rank (query v) else rest

rank-le : (t : AccessTier) → rank t ≤ 2
rank-le AccessTier.denied = ground (arith)
rank-le AccessTier.paid = ground (arith)
rank-le AccessTier.free = ground (arith)

rank-better :
    (t : AccessTier) (o : Option AccessTier)
    → rank (better t o) ≡ (if ltb (rank t) (answer_rank o) then answer_rank o else rank t)
unfolding better answer_rank
rank-better t none = ground (arith)
rank-better t (some v) = ground (arith)

best_rank-from :
    (query : Query) (r q : ℕ) (vs : List Address)
    → best_rank query (if ltb r q then q else r) vs
      ≡ (if ltb (best_rank query r vs) q then q else best_rank query r vs)
unfolding best_rank
best_rank-from query r q [] = refl
best_rank-from query r q (v ∷ vs) = ground (arith, best_rank-from query r q vs)

best_rank-bounds :
    (query : Query) (t : AccessTier) (vs : List Address)
    → (rank t ≤ best_rank query (rank t) vs) × (best_rank query (rank t) vs ≤ 2)
unfolding best_rank answer_rank
best_rank-bounds query t [] = (ground (arith), rank-le t)
best_rank-bounds query t (v ∷ vs) =
    let (lo, hi) = best_rank-bounds query t vs in of_answer (query v) lo hi
  where
    of_answer :
        (o : Option AccessTier)
        → rank t ≤ best_rank query (rank t) vs
        → best_rank query (rank t) vs ≤ 2
        → (rank t ≤ (
            if ltb (best_rank query (rank t) vs) (answer_rank o)
            then answer_rank o
            else best_rank query (rank t) vs))
          × ((if ltb (best_rank query (rank t) vs) (answer_rank o)
                then answer_rank o
                else best_rank query (rank t) vs)
              ≤ 2)
    of_answer none lo hi = (ground (arith), ground (arith))
    of_answer (some a) lo hi = (ground (arith), ground (arith, rank-le a))

rank-free : (t : AccessTier) → (t == AccessTier.free) ≡ true → rank t ≡ 2
rank-free AccessTier.free h = refl
rank-free AccessTier.denied h = absurd (ground (arith))
rank-free AccessTier.paid h = absurd (ground (arith))

-- The vault loop, which stops at a free tier and passes over failed queries, finds the best of the
-- starting tier and the tiers of all the vaults that answer.
pub rank-check_vaults :
    (query : Query) (t : AccessTier) (vs : List Address)
    → rank (check_vaults query t vs) ≡ best_rank query (rank t) vs
unfolding check_vaults best_rank
rank-check_vaults query t [] = refl
rank-check_vaults query t (v ∷ vs) = elim (Option-cases (query v)) [
  | inl e ↦ ground (arith, e, rank-check_vaults query t vs)
  | inr (a, e) ↦ elim (Bool-cases (better t (query v) == AccessTier.free)) [
    | inl free ↦ ground (
      arith,
      e,
      free,
      rank-free (better t (query v)) free,
      rank-better t (query v),
      best_rank-bounds query t vs,
      rank-le a,
    )
    | inr worse ↦ ground (
      arith,
      e,
      worse,
      rank-check_vaults query (better t (query v)) vs,
      rank-better t (query v),
      best_rank-from query (rank t) (answer_rank (query v)) vs,
    )
  ]
]

-- Where a check found nothing in the cache and succeeded, its answer is the tier that the chain and
-- the delegations gave; the next check gives the same answer and changes nothing, whatever they say
-- by then, until the cache's lifetime is over, and from then on asks them again, as it does at once
-- after an invalidation. In between there may be any calls that check other wallets, or this one
-- before the end, that invalidate others, or that clean up not after the end.
pub check-cached :
    (query query' : Query) (vaults vaults' : Option (List Address)) (c : Checker) (wallet : Address)
    (t0 t1 t2 : Time) (calls : List Call) (t3 t4 t5 : Time) (r : CheckResult)
    → cached c wallet t0 ≡ none
    → (check query vaults c wallet t0 t1 t2).1 ≡ some r
    → All (Keeps wallet (add t2 c.cache_ttl)) calls
    → let c' = run (check query vaults c wallet t0 t1 t2).0 calls in
      (some r ≡ chain_answer query vaults wallet t1)
      × (check query' vaults' c' wallet t3 t4 t5 ≡ (
          if before t3 (add t2 c.cache_ttl)
          then (c', some r)
          else checked c' wallet t4 t5 (query_tier query' vaults' wallet)))
      × ((check query' vaults' c' wallet t3 t4 t5).1 ≡ (
          if before t3 (add t2 c.cache_ttl) then some r else chain_answer query' vaults' wallet t4))
      × ((check query' vaults' (invalidate c' wallet) wallet t3 t4 t5).1
          ≡ chain_answer query' vaults' wallet t4)
check-cached query query' vaults vaults' c wallet t0 t1 t2 calls t3 t4 t5 r miss found keeps =
    let c1 = (check query vaults c wallet t0 t1 t2).0 in
    let c' = run c1 calls in
    let e : CacheEntry = record { result = r; expires_at = add t2 c.cache_ttl } in
    let stored = check-stores query vaults c wallet t0 t1 t2 r miss found in
    let again =
      check-hit query' vaults' c' wallet t3 t4 t5 e (run-Keeps c1 wallet e calls stored keeps) in
    (
      sym found ∙ check-answer query vaults c wallet t0 t1 t2 miss,
      again,
      ap (λ x. x.1) again ∙ answer_if (before t3 (add t2 c.cache_ttl)) c',
      check-answer query' vaults' (invalidate c' wallet) wallet t3 t4 t5
          (cached-invalidate c' wallet t3),
    )
  where
    answer_if :
        (b : Bool) (c' : Checker)
        → (if b then (c', some r) else checked c' wallet t4 t5 (query_tier query' vaults' wallet)).1
          ≡ (if b then some r else chain_answer query' vaults' wallet t4)
    answer_if true c' = refl
    answer_if false c' = checked-answer c' wallet t4 t5 (query_tier query' vaults' wallet)
