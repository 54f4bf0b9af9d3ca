-- ===== src/Delegation/Vaults.antt =====
-- Which wallets a lookup of delegations finds.
use sovereign_vpn.Base.{
  ℕ, ◌+◌, ◌≡◌, refl, inl, inr, Bool, true, false, not, ◌&&◌, ◌||◌, Option, none, some, List, [],
  ◌∷◌, ◌++◌, ◌==◌, nat_eq, text_eq, if◌then◌else◌, arith, Option-cases, All, ap, ◌∙◌,
}
use sovereign_vpn.Clock.{Time, add, before}
use sovereign_vpn.Map.{Map, lookup, insert, contains}
use sovereign_vpn.Map.Laws.{lookup-insert, lookup-insert_self, lookup-delete_self}
use sovereign_vpn.Delegation.Cache.{Keeps, run-Keeps, find_vaults-hit, find_vaults-miss}
use sovereign_vpn.External.{Address}
use sovereign_vpn.Delegation.{
  Checker, Registries, Delegation, applies, vaults_of, find_delegate_xyz_vaults, find_6529_vaults,
  found, dedupe_from, dedupe, all_vaults, store_vaults, find_vaults, invalidate, CacheEntry, Call,
  run,
}

-- How often a wallet stands in a list.
unfoldable pub count : Address → List Address → ℕ
count a [] = 0
count a (b ∷ bs) = (if b == a then 1 else 0) + count a bs

abbrev was_seen : Option Bool → Bool
was_seen none = false
was_seen (some b) = b

count-dedupe_from :
    (seen : Map Address Bool) (a : Address) (addrs : List Address)
    → count a (dedupe_from seen addrs)
      ≡ (if contains a addrs && not (was_seen (lookup a seen)) then 1 else 0)
unfolding count dedupe_from contains
count-dedupe_from seen a [] = refl
count-dedupe_from seen a (b ∷ addrs) = ground (
  arith,
  count-dedupe_from seen a addrs,
  count-dedupe_from (insert b true seen) a addrs,
  lookup-insert a b true seen,
  nat_eq.beq_iff b a,
)

count-dedupe :
    (a : Address) (addrs : List Address)
    → count a (dedupe addrs) ≡ (if contains a addrs then 1 else 0)
unfolding dedupe lookup
count-dedupe a addrs = ground (arith, count-dedupe_from [] a addrs)

contains-append :
    (a : Address) (xs ys : List Address) → contains a (xs ++ ys) ≡ contains a xs || contains a ys
unfolding contains
contains-append a [] ys = refl
contains-append a (x ∷ xs) ys = ground (arith, contains-append a xs ys)

-- Whether a wallet gave one of the delegations that count.
unfoldable pub has_delegation : Address → Address → List Delegation → Bool
has_delegation memes a [] = false
has_delegation memes a (d ∷ ds) = (applies memes d && d.from == a) || has_delegation memes a ds

contains-vaults_of :
    (memes a : Address) (ds : List Delegation)
    → contains a (vaults_of memes ds) ≡ not (a == 0) && has_delegation memes a ds
unfolding vaults_of contains has_delegation
contains-vaults_of memes a [] = ground arith
contains-vaults_of memes a (d ∷ ds) = ground (
  arith,
  contains-vaults_of memes a ds,
  nat_eq.beq_iff d.from a,
  nat_eq.beq_iff a 0,
  nat_eq.beq_iff d.from 0,
)

-- Whether a registry names a wallet; one that fails names none.
abbrev pub in_6529 : Address → Option (List Address) → Bool
in_6529 a none = false
in_6529 a (some vaults) = contains a vaults

abbrev pub in_dxyz : Address → Address → Option (List Delegation) → Bool
in_dxyz memes a none = false
in_dxyz memes a (some ds) = not (a == 0) && has_delegation memes a ds

contains-found_6529 :
    (a : Address) (enabled : Bool) (o : Option (List Address))
    → contains a (found enabled o) ≡ enabled && in_6529 a o
unfolding found contains
contains-found_6529 a enabled none = ground arith
contains-found_6529 a enabled (some vaults) = ground arith

contains-found_dxyz :
    (r : Registries) (c : Checker) (hot a : Address) (enabled : Bool)
    → contains a (found enabled (find_delegate_xyz_vaults r c hot))
      ≡ enabled && in_dxyz c.memes_contract a (r.incoming hot)
unfolding found contains find_delegate_xyz_vaults
contains-found_dxyz r c hot a enabled = elim (Option-cases (r.incoming hot)) [
  | inl e ↦ rw e (ground arith)
  | inr (ds, e) ↦ rw e (ground (arith, contains-vaults_of c.memes_contract a ds))
]

-- Without an entry in the cache, a lookup finds a wallet once exactly if an enabled registry
-- that answers names it: the 6529 registry in its list, or delegate.xyz by a delegation of
-- everything or of the Memes contract from it, when it is not the zero address. No wallet is
-- found twice.
pub count-find_vaults :
    (r : Registries) (c : Checker) (hot a : Address) (read_at stored_at : Time)
    → lookup hot c.cache ≡ none
    → count a (find_vaults r c hot read_at stored_at).1 ≡ (
        if (c.enable_6529 && in_6529 a (r.retrieve_6529 hot c.memes_contract))
          || (c.enable_dxyz && in_dxyz c.memes_contract a (r.incoming hot))
        then 1
        else 0)
unfolding find_vaults all_vaults find_6529_vaults
count-find_vaults r c hot a read_at stored_at h =
    rw
      (
        h,
        count-dedupe,
        contains-append,
        contains-found_6529 a c.enable_6529 (r.retrieve_6529 hot c.memes_contract),
        contains-found_dxyz r c hot a c.enable_dxyz,
      )
      refl

-- What a lookup without a cache entry found is found again at any time before the cache's lifetime
-- is over, whatever the registries answer by then, and the lookup changes nothing; from then on the
-- registries are asked again, and what they say is stored. In between there may be any calls that
-- look up other wallets, or this one before the end, that invalidate others, or that clean up not
-- after the end. After an invalidation the registries are asked again at once.
pub find_vaults-cached :
    (r r' : Registries) (c : Checker) (hot : Address) (read_at stored_at : Time) (calls : List Call)
    (now later : Time)
    → lookup hot c.cache ≡ none
    → All (Keeps hot (add stored_at c.cache_ttl)) calls
    → let c' = run (find_vaults r c hot read_at stored_at).0 calls in
      (find_vaults r' c' hot now later ≡ (
        if before now (add stored_at c.cache_ttl)
        then (c', all_vaults r c hot)
        else (store_vaults c' hot (all_vaults r' c hot) later, all_vaults r' c hot)))
      × ((find_vaults r' (invalidate c' hot) hot now later).1 ≡ all_vaults r' c hot)
unfolding invalidate store_vaults all_vaults find_6529_vaults find_delegate_xyz_vaults
find_vaults-cached r r' c hot read_at stored_at calls now later h keeps =
    let first = find_vaults-miss r c hot read_at stored_at h in
    let e : CacheEntry = record {
      vaults = all_vaults r c hot;
      expires_at = add stored_at c.cache_ttl;
    } in
    let stored : lookup hot (find_vaults r c hot read_at stored_at).0.cache ≡ some e =
      ap (λ x. lookup hot x.0.cache) first ∙ lookup-insert_self hot e c.cache in
    let c1 = (find_vaults r c hot read_at stored_at).0 in
    let c' = run c1 calls in
    let (kept, same) = run-Keeps r' c1 hot e calls stored keeps in
    let config : all_vaults r' c' hot ≡ all_vaults r' c hot =
      same ∙ ap (λ x. all_vaults r' x.0 hot) first in
    (
      find_vaults-hit r' c' hot now later e kept
          ∙ ap
              (λ vs.
                if before now e.expires_at
                then (c', e.vaults)
                else (store_vaults c' hot vs later, vs))
              config,
      ap (λ x. x.1)
            (find_vaults-miss r' (invalidate c' hot) hot now later
              (lookup-delete_self hot c'.cache))
          ∙ config,
    )
