-- ===== src/Rep6529/Caching.antt =====
-- How long a rating is served, and that failures are not.
use sovereign_vpn.Base.{
  ◌≡◌, refl, inl, inr, true, Option, none, some, nat_eq, text_eq, Option-cases, beq_refl, ℤ,
}
use sovereign_vpn.Text.{Text}
use sovereign_vpn.Clock.{Time, add, before}
use sovereign_vpn.Base.{int_leb}
use sovereign_vpn.Map.{lookup}
use sovereign_vpn.Map.Laws.{lookup-insert}
use sovereign_vpn.Rep6529.{Api, Checker, RepResult, query_rating, store_rating, check_rep}

-- What a check answers for a rating of the API.
abbrev pub judged : Checker → Time → Option ℤ → Option RepResult
judged c checked_at none = none
judged c checked_at (some rating) =
    some (record { rating = rating; eligible = int_leb c.min_rep rating; checked_at = checked_at })

store_rating-judged :
    (c : Checker) (who : Text) (checked_at stored_at : Time) (o : Option ℤ)
    → (store_rating c who checked_at stored_at o).1 ≡ judged c checked_at o
unfolding store_rating
store_rating-judged c who checked_at stored_at none = refl
store_rating-judged c who checked_at stored_at (some rating) = refl

-- A check without a cache entry answers by the API. A rating is then served from the cache before
-- its lifetime is over, whatever the API answers by then; after a failure the next check asks the
-- API again.
pub check_rep-cached :
    (api api' : Api) (c : Checker) (who : Text)
    (read_at checked_at stored_at now checked_later stored_later : Time)
    → lookup who c.cache ≡ none
    → before now (add stored_at c.cache_ttl) ≡ true
    → let first = check_rep api c who read_at checked_at stored_at in
      let second = check_rep api' first.0 who now checked_later stored_later in
      (first.1 ≡ judged c checked_at (query_rating api c who))
      × (second.1 ≡ elim (query_rating api c who) [
        | some rating ↦ judged c checked_at (some rating)
        | none ↦ judged c checked_later (query_rating api' c who)
      ])
unfolding check_rep
check_rep-cached api api' c who read_at checked_at stored_at now checked_later stored_later h
      fresh =
    elim (Option-cases (query_rating api c who)) [
      | inl e ↦
          rw (h, e, h)
            (refl, store_rating-judged c who checked_later stored_later (query_rating api' c who))
      | inr (rating, e) ↦ rw (h, e, lookup-insert, beq_refl who, fresh) (refl, refl)
    ]
