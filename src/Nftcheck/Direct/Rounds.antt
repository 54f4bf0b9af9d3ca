-- ===== src/Nftcheck/Direct/Rounds.antt =====
-- The int64 sums of the loop over the batches, and when the loop ends.
use sovereign_vpn.Base.{
  ℕ, zero, suc, ◌+◌, ◌-◌, ◌*◌, ◌≤◌, ◌<◌, ◌≡◌, ◌≢◌, refl, inl, inr, false, none, some, [], nat_eq,
  text_eq, if◌then◌else◌, arith, Bool-cases, Option-cases, ltb, ℤ, lt→ltb, le→ltb-false, to_int64,
  ◌^◌, ◌%◌,
}
use sovereign_vpn.Base.{int_eq}
use sovereign_vpn.Nftcheck.Checker.{Address}
use sovereign_vpn.Nftcheck.Direct.{
  BalanceCall, Held, scan, batch_count, batch_size, exceeds, wrap64, check_batches, nothing_held,
}

-- Below 2^63 an int64 is its 64 bits, and the sums of the loop do not wrap.
pub exceeds-ltb : (n max : ℕ) → n < 2 ^ 63 → exceeds n max ≡ ltb max n
unfolding exceeds
exceeds-ltb n max fits = rw (lt→ltb n (2 ^ 63) fits) refl

pub batch_count-plain :
    (max start : ℕ)
    → max < 2 ^ 63 - 50
    → start ≤ max
    → batch_count max start
      ≡ (if ltb max (start + batch_size - 1) then max - start + 1 else batch_size)
unfolding batch_count
batch_count-plain max start low h =
    let end : wrap64 (start + batch_size - 1) ≡ start + batch_size - 1 = omega arith in
    let count : wrap64 (max + 2 ^ 64 - start + 1) ≡ max - start + 1 = omega arith in
    rw (end, count, exceeds-ltb (start + batch_size - 1) max (omega arith)) refl

wrap64-plain : (n : ℕ) → n < 2 ^ 63 → wrap64 n ≡ n
wrap64-plain n fits = omega arith

pub check_batches_enough :
    (call : BalanceCall) (this : ℤ) (max : ℕ) (wallet : Address) (rounds start : ℕ) (held : Held)
    → max < 2 ^ 63 - 50
    → start < 2 ^ 63
    → max < start + rounds * batch_size
    → check_batches call this max wallet rounds start held ≢ none
unfolding check_batches
check_batches_enough call this max wallet zero start held low fits h =
    ground (arith, exceeds-ltb start max fits)
check_batches_enough call this max wallet (suc rounds) start held low fits h =
    elim (Option-cases (call wallet start (batch_count max start))) [
      | inl e ↦ ground (arith)
      | inr (balances, e) ↦ ground (
        arith,
        exceeds-ltb start max fits,
        wrap64-plain (start + batch_size),
        check_batches_enough call this max wallet rounds (wrap64 (start + batch_size))
            (scan this start balances held),
      )
    ]

-- A contract that reports no balances.
abbrev pub no_balances : BalanceCall
no_balances wallet first count = some []

exceeds-highest : (n : ℕ) → exceeds n (2 ^ 63 - 1) ≡ false
unfolding exceeds
exceeds-highest n = elim (Bool-cases (ltb n (2 ^ 63))) [
  | inl e ↦ rw e (le→ltb-false (2 ^ 63 - 1) n (ground (arith)))
  | inr e ↦ rw e refl
]

pub check_batches-never_ends :
    (this : ℤ) (wallet : Address) (rounds start : ℕ)
    → check_batches no_balances this (2 ^ 63 - 1) wallet rounds start nothing_held ≡ none
unfolding check_batches scan
check_batches-never_ends this wallet zero start = rw (exceeds-highest start) refl
check_batches-never_ends this wallet (suc rounds) start =
    rw (exceeds-highest start)
      (check_batches-never_ends this wallet rounds (wrap64 (start + batch_size)))

pub to_int64-pos : (n : ℕ) → n < 2 ^ 63 → to_int64 n ≡ ℤ.pos n
to_int64-pos n fits =
    let small : n % 2 ^ 64 ≡ n = omega arith in rw (small, lt→ltb n (2 ^ 63) fits) refl
