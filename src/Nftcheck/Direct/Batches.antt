-- ===== src/Nftcheck/Direct/Batches.antt =====
-- The batches of a balance check find what a look at every token finds.
use sovereign_vpn.Base.{
  ℕ, zero, suc, ◌+◌, ◌-◌, ◌*◌, ◌/◌, ◌≤◌, ◌<◌, ◌≡◌, refl, sym, ap, subst, ◌∙◌, inl, inr, Bool, true,
  false, ◌&&◌, ◌||◌, Option, some, List, [], ◌∷◌, ◌==◌, nat_eq, text_eq, if◌then◌else◌, arith,
  Bool-cases, ltb, ℤ, lt→ltb, ltb-false→le, ◌^◌,
}
use sovereign_vpn.Base.{int_eq}
use sovereign_vpn.Nftcheck.Tier.{AccessTier}
use sovereign_vpn.Nftcheck.Checker.{Address}
use sovereign_vpn.Nftcheck.Direct.Rounds.{exceeds-ltb, batch_count-plain, to_int64-pos}
use sovereign_vpn.Nftcheck.Direct.{
  DirectChecker, BalanceCall, Held, scan, hold, batch_size, exceeds, wrap64, held_tier,
  check_batches, nothing_held, check_direct,
}

-- Whether a token from 1 to `n` passes a test.
unfoldable pub some_token : (ℕ → Bool) → ℕ → Bool
some_token test zero = false
some_token test (suc n) = test (suc n) || some_token test n

-- The balances of `n` tokens from `id` on.
unfoldable pub balances_from : (ℕ → ℕ) → ℕ → ℕ → List ℕ
balances_from balance id zero = []
balances_from balance id (suc n) = balance id ∷ balances_from balance (suc id) n

-- A contract that answers with the balances it holds.
abbrev pub IsHonest : BalanceCall → Address → (ℕ → ℕ) → Type 0
IsHonest call wallet balance =
    (first count : ℕ) → call wallet first count ≡ some (balances_from balance first count)

-- Whether a wallet has a token, and whether it has the free one.
abbrev pub has_token : (ℕ → ℕ) → ℕ → Bool
has_token balance id = ltb 0 (balance id)

abbrev pub has_free_token : ℤ → (ℕ → ℕ) → ℕ → Bool
has_free_token this balance id = ltb 0 (balance id) && ℤ.pos id == this

-- What the flags say of the tokens from 1 to `done`.
record Saw (this : ℤ) (balance : ℕ → ℕ) (done : ℕ) (held : Held) : Type 0 where
  any_seen : held.any_card ≡ some_token (has_token balance) done
  this_seen : held.this_card ≡ some_token (has_free_token this balance) done

Saw-hold :
    (this : ℤ) (balance : ℕ → ℕ) (done : ℕ) (held : Held)
    → suc done < 2 ^ 63
    → Saw this balance done held
    → Saw this balance
        (suc done)
        (if ltb 0 (balance (suc done)) then hold this (suc done) held else held)
unfolding hold some_token
Saw-hold this balance done held fits s = elim (Bool-cases (ltb 0 (balance (suc done)))) [
  | inl e ↦ rw e (record {
    any_seen = rw e refl;
    this_seen = ground (arith, s.this_seen, e, to_int64-pos (suc done) fits);
  })
  | inr e ↦ rw e (record {
    any_seen = ground (arith, s.any_seen, e);
    this_seen = ground (arith, s.this_seen, e);
  })
]

Saw-scan :
    (this : ℤ) (balance : ℕ → ℕ) (done n last : ℕ) (held : Held)
    → last ≡ done + n
    → last < 2 ^ 63
    → Saw this balance done held
    → Saw this balance last (scan this (suc done) (balances_from balance (suc done) n) held)
unfolding scan balances_from
Saw-scan this balance done zero last held e fits s =
    let same : done ≡ last = omega arith in subst (λ d. Saw this balance d held) same s
Saw-scan this balance done (suc n) last held e fits s =
    Saw-scan this balance (suc done) n last _ (omega arith) fits
      (Saw-hold this balance done held (omega arith) s)

some_token_mono :
    (test : ℕ → Bool) (m n : ℕ) → m ≤ n → some_token test m ≡ true → some_token test n ≡ true
unfolding some_token
some_token_mono test m zero h k = ground (arith)
some_token_mono test m (suc n) h k = elim (Bool-cases (ltb n m)) [
  | inl e ↦ let same : m ≡ suc n = ground (arith) in subst (λ j. some_token test j ≡ true) same k
  | inr e ↦ ground (arith, some_token_mono test m n)
]

-- The tier by a look at every token from 1 to the highest.
unfoldable pub tier_of_tokens : ℤ → (ℕ → ℕ) → ℕ → AccessTier
tier_of_tokens this balance max =
    if some_token (has_free_token this balance) max
    then AccessTier.free
    else if some_token (has_token balance) max
    then AccessTier.paid
    else AccessTier.denied

check_batches-past :
    (call : BalanceCall) (this : ℤ) (max : ℕ) (wallet : Address) (rounds start : ℕ) (held : Held)
    → exceeds start max ≡ true
    → check_batches call this max wallet rounds start held ≡ some (some (held_tier held))
unfolding check_batches
check_batches-past call this max wallet zero start held h = rw h refl
check_batches-past call this max wallet (suc rounds) start held h = rw h refl

held_tier-tier_of_tokens :
    (this : ℤ) (balance : ℕ → ℕ) (max : ℕ) (held : Held)
    → Saw this balance max held
    → held.this_card ≡ false
    → held_tier held ≡ tier_of_tokens this balance max
unfolding tier_of_tokens
held_tier-tier_of_tokens this balance max held s f = rw (sym s.this_seen, sym s.any_seen, f) refl

-- The early exit after a batch, if the rounds that follow without it give the tier.
early_exit :
    (this : ℤ) (balance : ℕ → ℕ) (last max : ℕ) (seen : Held) (rest : Option (Option AccessTier))
    → last ≤ max
    → Saw this balance last seen
    → (seen.this_card ≡ false → rest ≡ some (some (tier_of_tokens this balance max)))
    → (if seen.this_card then some (some AccessTier.free) else rest)
      ≡ some (some (tier_of_tokens this balance max))
unfolding tier_of_tokens
early_exit this balance last max seen rest h s k = elim (Bool-cases seen.this_card) [
  | inl e ↦
      rw (e, some_token_mono (has_free_token this balance) last max h (sym s.this_seen ∙ e)) refl
  | inr e ↦ rw (e, k e) refl
]

check_batches-at_end :
    (call : BalanceCall) (this : ℤ) (max : ℕ) (wallet : Address) (balance : ℕ → ℕ)
    (rounds done start : ℕ) (held : Held)
    → done ≡ max
    → max < start
    → start < 2 ^ 63
    → Saw this balance done held
    → held.this_card ≡ false
    → check_batches call this max wallet rounds start held
      ≡ some (some (tier_of_tokens this balance max))
check_batches-at_end call this max wallet balance rounds done start held same past fits s f =
    check_batches-past call this max wallet rounds start held
      (exceeds-ltb start max fits ∙ lt→ltb max start past)
    ∙ ap (λ t. some (some t))
        (held_tier-tier_of_tokens this balance max held
          (subst (λ j. Saw this balance j held) same s) f)

check_batches-tier_of_tokens :
    (call : BalanceCall) (this : ℤ) (max : ℕ) (wallet : Address) (balance : ℕ → ℕ) (rounds done : ℕ)
    (held : Held)
    → IsHonest call wallet balance
    → max < 2 ^ 63 - 50
    → done ≤ max
    → max < suc done + rounds * batch_size
    → held.this_card ≡ false
    → Saw this balance done held
    → check_batches call this max wallet rounds (suc done) held
      ≡ some (some (tier_of_tokens this balance max))
unfolding check_batches
check_batches-tier_of_tokens call this max wallet balance zero done held honest low d h f s =
    check_batches-at_end call this max wallet balance zero done (suc done) held (omega arith)
      (omega arith) (omega arith) s f
check_batches-tier_of_tokens call this max wallet balance (suc rounds) done held honest low d h f
      s =
    elim (Bool-cases (ltb max (suc done))) [
      | inl e ↦
          check_batches-at_end call this max wallet balance (suc rounds) done (suc done) held
            (ground (arith)) (ground (arith)) (omega arith) s f
      | inr e ↦ elim (Bool-cases (ltb max (suc done + batch_size - 1))) [
        | inl l ↦
            let here : suc done ≤ max = ltb-false→le max (suc done) e in
            let saw =
              Saw-scan this balance done (max - suc done + 1) max held (ground (arith))
                (omega arith) s in
            rw
              (
                exceeds-ltb (suc done) max (omega arith),
                e,
                batch_count-plain max (suc done) low (ground (arith)),
                l,
                honest (suc done) (max - suc done + 1),
              )
              (early_exit this balance max max _ _ (omega arith) saw (
                check_batches-at_end call this max wallet balance rounds max
                  (wrap64 (suc done + batch_size)) _ refl (ground arith) (omega arith) saw))
        | inr l ↦
            let seen = scan this (suc done) (balances_from balance (suc done) batch_size) held in
            let saw =
              Saw-scan this balance done batch_size (done + batch_size) held refl (omega arith) s in
            let next : suc (done + batch_size) ≡ wrap64 (suc done + batch_size) = omega arith in
            rw
              (
                exceeds-ltb (suc done) max (omega arith),
                e,
                batch_count-plain max (suc done) low (ground (arith)),
                l,
                honest (suc done) batch_size,
              )
              (early_exit this balance (done + batch_size) max seen _ (ground (arith)) saw (λ k.
                subst
                  (λ j.
                    check_batches call this max wallet rounds j seen
                    ≡ some (some (tier_of_tokens this balance max)))
                  next
                  (check_batches-tier_of_tokens call this max wallet balance rounds
                    (done + batch_size) seen honest low (ground (arith)) (omega arith) k saw)))
      ]
    ]

-- If the highest token is below 2^63 - 50, then on a contract that answers with the balances it
-- holds the batched check, with its early exit and its cut of the last batch, finds the tier that a
-- look at every token from 1 to the highest finds.
pub check_direct-tier_of_tokens :
    (call : BalanceCall) (c : DirectChecker) (wallet : Address) (balance : ℕ → ℕ)
    → IsHonest call wallet balance
    → c.max_token_id < 2 ^ 63 - 50
    → check_direct call c wallet ≡ some (tier_of_tokens c.this_card_id balance c.max_token_id)
unfolding check_direct some_token
check_direct-tier_of_tokens call c wallet balance honest low =
    rw
      (check_batches-tier_of_tokens call c.this_card_id c.max_token_id wallet balance
        (c.max_token_id / batch_size + 1) 0 nothing_held honest low (omega arith) (omega arith) refl
        (record { any_seen = refl; this_seen = refl }))
      refl
