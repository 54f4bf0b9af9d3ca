-- ===== src/Delegation/Cache.antt =====
-- How long the cache of the delegations keeps what a lookup found.
use sovereign_vpn.Base.{
  ◌≡◌, refl, inl, inr, Option, none, some, List, [], ◌∷◌, ◌==◌, nat_eq, text_eq, if◌then◌else◌,
  arith, Option-cases, Bool-cases, All, ◌<◌, ◌≤◌, ◌≢◌, sym, subst, ◌∙◌, lt→ltb,
}
use sovereign_vpn.Clock.{Time, add, before, after}
use sovereign_vpn.Map.{lookup}
use sovereign_vpn.Map.Laws.{lookup-insert, lookup-delete, lookup-sweep}
use sovereign_vpn.External.{Address}
use sovereign_vpn.Delegation.{
  find_uncached, Checker, Registries, find_delegate_xyz_vaults, find_6529_vaults, all_vaults,
  store_vaults, find_vaults, invalidate, cleanup, CacheEntry, Call, finds, invalidates, cleans,
  step, run, fresh_vaults,
}

-- The calls that leave a wallet's entry in the cache until its end: the lookups of other wallets, its
-- own before the end, the invalidations of others, and cleanups that are not after the end.
abbrev pub Keeps : Address → Time → Call → Type 0
Keeps hot end (finds r a read_at stored_at) = a ≡ hot → read_at < end
Keeps hot end (invalidates a) = a ≢ hot
Keeps hot end (cleans now) = now ≤ end

find_vaults-keeps :
    (r : Registries) (c : Checker) (hot a : Address) (read_at stored_at : Time) (e : CacheEntry)
    → lookup hot c.cache ≡ some e
    → (a ≡ hot → read_at < e.expires_at)
    → lookup hot (find_vaults r c a read_at stored_at).0.cache ≡ some e
unfolding find_vaults find_uncached fresh_vaults store_vaults
find_vaults-keeps r c hot a read_at stored_at e h k = elim (Bool-cases (a == hot)) [
  | inl same ↦
      (let own = (nat_eq.beq_iff a hot).0 same in
        let live = lt→ltb read_at e.expires_at (k own) in
        subst (λ b. lookup hot (find_vaults r c b read_at stored_at).0.cache ≡ some e) (sym own)
          (rw (h, live) h))
  | inr other ↦ elim (Option-cases (fresh_vaults read_at (lookup a c.cache))) [
    | inl f ↦ rw f (
        ground (
          arith,
          other,
          h,
          lookup-insert hot a
              (record { vaults = all_vaults r c a; expires_at = add stored_at c.cache_ttl })
              c.cache,
        ))
    | inr (vaults, f) ↦ rw f h
  ]
]

step-Keeps :
    (c : Checker) (hot : Address) (e : CacheEntry) (call : Call)
    → lookup hot c.cache ≡ some e
    → Keeps hot e.expires_at call
    → lookup hot (step c call).cache ≡ some e
unfolding step invalidate cleanup
step-Keeps c hot e (finds r a read_at stored_at) h k =
    find_vaults-keeps r c hot a read_at stored_at e h k
step-Keeps c hot e (invalidates a) h k =
    ground (arith, h, lookup-delete hot a c.cache, nat_eq.beq_iff a hot)
step-Keeps c hot e (cleans now) h k =
    ground (arith, h, lookup-sweep (λ x. after now x.expires_at) hot c.cache)

-- No call changes the configuration.
all_vaults-step :
    (r : Registries) (c : Checker) (hot : Address) (call : Call)
    → all_vaults r (step c call) hot ≡ all_vaults r c hot
unfolding step invalidate cleanup all_vaults find_vaults find_uncached store_vaults find_6529_vaults
    find_delegate_xyz_vaults
all_vaults-step r c hot (finds r' a read_at stored_at) =
    of_entry (fresh_vaults read_at (lookup a c.cache))
  where
    of_entry :
        (o : Option (List Address))
        → all_vaults r (find_uncached r' c a stored_at o).0 hot ≡ all_vaults r c hot
    of_entry none = refl
    of_entry (some vaults) = refl
all_vaults-step r c hot (invalidates a) = refl
all_vaults-step r c hot (cleans now) = refl

pub run-Keeps :
    (r : Registries) (c : Checker) (hot : Address) (e : CacheEntry) (calls : List Call)
    → lookup hot c.cache ≡ some e
    → All (Keeps hot e.expires_at) calls
    → (lookup hot (run c calls).cache ≡ some e)
      × (all_vaults r (run c calls) hot ≡ all_vaults r c hot)
unfolding run
run-Keeps r c hot e [] h k = (h, refl)
run-Keeps r c hot e (call ∷ calls) h k =
    let (kept, same) = run-Keeps r (step c call) hot e calls (step-Keeps c hot e call h k.0) k.1 in
    (kept, same ∙ all_vaults-step r c hot call)

pub find_vaults-hit :
    (r : Registries) (c : Checker) (hot : Address) (now later : Time) (e : CacheEntry)
    → lookup hot c.cache ≡ some e
    → find_vaults r c hot now later ≡ (
        if before now e.expires_at
        then (c, e.vaults)
        else (store_vaults c hot (all_vaults r c hot) later, all_vaults r c hot))
unfolding find_vaults fresh_vaults
find_vaults-hit r c hot now later e h = elim (Bool-cases (before now e.expires_at)) [
  | inl live ↦ rw (h, live) refl
  | inr over ↦ rw (h, over) refl
]

pub find_vaults-miss :
    (r : Registries) (c : Checker) (hot : Address) (read_at stored_at : Time)
    → lookup hot c.cache ≡ none
    → find_vaults r c hot read_at stored_at
      ≡ (store_vaults c hot (all_vaults r c hot) stored_at, all_vaults r c hot)
unfolding find_vaults fresh_vaults
find_vaults-miss r c hot read_at stored_at h = rw h refl
