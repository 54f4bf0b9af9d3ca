-- ===== src/Text/Laws.antt =====
-- Splitting undoes joining, and parsing undoes formatting.
use sovereign_vpn.Base.{
  ne_of_beq-false, subst, ◌==◌, ltb→lt, ◌%◌, ◌/◌, ◌-◌, ◌*◌, ℕ, zero, suc, ◌+◌, ◌<◌, ◌≤◌, ◌^◌, ◌≡◌,
  ◌≢◌, refl, some, List, [], ◌∷◌, ◌++◌, nat_eq, All, ltb, ℤ, arith, ap, ◌∙◌, Bool-cases, inl, inr,
}
use sovereign_vpn.Text.{Text, split, join, digits, format_uint, read_digits, parse_uint, parse_int}

-- A text without the separator is one part.
split-plain : (sep : ℕ) (w : Text) → All (λ x. x ≢ sep) w → split sep w ≡ w ∷ []
unfolding split
split-plain sep [] h = refl
split-plain sep (x ∷ w) h = ground (arith, split-plain sep w h.1)

split-append :
    (sep : ℕ) (w s : Text) → All (λ x. x ≢ sep) w → split sep (w ++ sep ∷ s) ≡ w ∷ split sep s
unfolding split
split-append sep [] s h = ground arith
split-append sep (x ∷ w) s h = ground (arith, split-append sep w s h.1)

-- Splitting by a separator undoes joining parts that do not contain it.
pub split-join :
    (sep : ℕ) (w : Text) (ws : List Text)
    → All (All (λ x. x ≢ sep)) (w ∷ ws)
    → split sep (join sep (w ∷ ws)) ≡ w ∷ ws
unfolding join
split-join sep w [] h = split-plain sep w h.0
split-join sep w (v ∷ ws) h =
    split-append sep w (join sep (v ∷ ws)) h.0 ∙ ap (◌∷◌ w) (split-join sep v ws h.1)

read_digits-cons :
    (acc d : ℕ) (rest : Text)
    → d < 10
    → read_digits acc ((48 + d) ∷ rest) ≡ read_digits (acc * 10 + d) rest
unfolding read_digits
read_digits-cons acc d rest h = let e : 48 + d - 48 ≡ d = omega arith in rw e (ground arith)

read_digits-digits :
    (f n : ℕ) (rest : Text) → n < f → read_digits 0 (digits f n rest) ≡ read_digits n rest
unfolding digits
read_digits-digits zero n rest h = elim h [ ]
read_digits-digits (suc f) n rest h =
    let e : n / 10 * 10 + n % 10 ≡ n = omega arith in
    let z : 0 * 10 + n ≡ n = omega arith in
    let ih = read_digits-digits f (n / 10) ((48 + n % 10) ∷ rest) in
    let one = read_digits-cons 0 n rest in
    let more = read_digits-cons (n / 10) (n % 10) rest (omega arith) in
    elim (Bool-cases (ltb n 10)) [
      | inl small ↦ rw (small, digits) (one (ltb→lt n 10 small) ∙ ap (λ k. read_digits k rest) z)
      | inr large ↦ rw (large, digits) (ih (ground arith) ∙ more ∙ ap (λ k. read_digits k rest) e)
    ]

pub read_digits-format_uint : (n : ℕ) → read_digits 0 (format_uint n) ≡ some n
unfolding format_uint
read_digits-format_uint n =
    read_digits-digits (suc n) n [] (omega arith) ∙ unfold read_digits in refl

-- The first byte of what `digits` writes is a digit.
abbrev pub StartsWithDigit : Text → Type 0
StartsWithDigit [] = ⊥
StartsWithDigit (c ∷ s) = (48 ≤ c) × (c ≤ 57)

digits-StartsWithDigit : (f n : ℕ) (rest : Text) → n < f → StartsWithDigit (digits f n rest)
unfolding digits
digits-StartsWithDigit zero n rest h = elim h [ ]
digits-StartsWithDigit (suc f) n rest h =
    ground (arith, digits-StartsWithDigit f (n / 10) ((48 + n % 10) ∷ rest))

format_uint-StartsWithDigit : (n : ℕ) → StartsWithDigit (format_uint n)
unfolding format_uint
format_uint-StartsWithDigit n = digits-StartsWithDigit (suc n) n [] (omega arith)

parse_uint_of_read :
    (s : Text) (n : ℕ)
    → StartsWithDigit s
    → read_digits 0 s ≡ some n
    → n < 2 ^ 64
    → parse_uint s ≡ some n
unfolding parse_uint
parse_uint_of_read [] n d r h = absurd d
parse_uint_of_read (c ∷ s) n d r h = rw r (ground arith)

parse_int_of_read :
    (s : Text) (n : ℕ)
    → StartsWithDigit s
    → read_digits 0 s ≡ some n
    → n < 2 ^ 63
    → parse_int s ≡ some (ℤ.pos n)
unfolding parse_int
parse_int_of_read [] n d r h = absurd d
parse_int_of_read (c ∷ s) n d r h = ground arith

-- Parsing undoes formatting, for every number of 64 bits.
pub parse_uint-format_uint : (n : ℕ) → n < 2 ^ 64 → parse_uint (format_uint n) ≡ some n
parse_uint-format_uint n h =
    parse_uint_of_read (format_uint n) n (format_uint-StartsWithDigit n) (read_digits-format_uint n)
      h

pub parse_int-format_uint : (n : ℕ) → n < 2 ^ 63 → parse_int (format_uint n) ≡ some (ℤ.pos n)
parse_int-format_uint n h =
    parse_int_of_read (format_uint n) n (format_uint-StartsWithDigit n) (read_digits-format_uint n)
      h

digits-ge_digit :
    (f n : ℕ) (rest : Text) → All (λ x. 48 ≤ x) rest → All (λ x. 48 ≤ x) (digits f n rest)
unfolding digits
digits-ge_digit zero n rest h = h
digits-ge_digit (suc f) n rest h = ground (arith, digits-ge_digit f (n / 10) ((48 + n % 10) ∷ rest))

All-mono {ℓ} : {P Q : ℕ → Type ℓ} (f : (x : ℕ) → P x → Q x) (s : Text) → All P s → All Q s
All-mono f [] h = tt
All-mono f (x ∷ s) h = (f x h.0, All-mono f s h.1)

pub format_uint-one_line : (n : ℕ) → All (λ x. x ≢ b'\n') (format_uint n)
unfolding format_uint
format_uint-one_line n =
    All-mono (λ x h. omega arith) (digits (suc n) n []) (digits-ge_digit (suc n) n [] tt)

-- A formatted number contains no byte below the digits, so no `.` and no `|`.
pub format_uint-no_dot : (n : ℕ) → All (λ x. x ≢ b'.') (format_uint n)
unfolding format_uint
format_uint-no_dot n =
    All-mono (λ x h. omega arith) (digits (suc n) n []) (digits-ge_digit (suc n) n [] tt)

split-cons : (sep : ℕ) (s : Text) → (w : Text) × (ws : List Text) × (split sep s ≡ w ∷ ws)
unfolding split
split-cons sep [] = ([], [], refl)
split-cons sep (x ∷ s) = elim (Bool-cases (x == sep)) [
  | inl e ↦ ([], split sep s, rw e)
  | inr e ↦ let (w, ws, eq) = split-cons sep s in (x ∷ w, ws, rw (e, eq))
]

join-push_head :
    (sep x : ℕ) (w : Text) (ws : List Text) → join sep ((x ∷ w) ∷ ws) ≡ x ∷ join sep (w ∷ ws)
unfolding join
join-push_head sep x w [] = refl
join-push_head sep x w (v ∷ ws) = refl

join-nil : (sep : ℕ) (w : Text) (ws : List Text) → join sep ([] ∷ w ∷ ws) ≡ sep ∷ join sep (w ∷ ws)
unfolding join
join-nil sep w ws = refl

-- Joining undoes splitting, for every text.
pub join-split : (sep : ℕ) (s : Text) → join sep (split sep s) ≡ s
unfolding split
join-split sep [] = unfold join in refl
join-split sep (x ∷ s) =
    let (w, ws, eq) = split-cons sep s in
    let ih = join-split sep s in
    elim (Bool-cases (x == sep)) [
      | inl e ↦ ground (arith, eq, ih, join-nil sep w ws)
      | inr e ↦ ground (arith, eq, ih, join-push_head sep x w ws)
    ]

-- No part of a split text has the separator.
pub split-no_sep : (sep : ℕ) (s : Text) → All (All (λ x. x ≢ sep)) (split sep s)
unfolding split
split-no_sep sep [] = (tt, tt)
split-no_sep sep (x ∷ s) =
    let (w, ws, eq) = split-cons sep s in
    let (first, others) = subst (λ ps. All (All (λ y. y ≢ sep)) ps) eq (split-no_sep sep s) in
    elim (Bool-cases (x == sep)) [
      | inl e ↦ rw e (tt, split-no_sep sep s)
      | inr e ↦ rw (e, eq) ((ne_of_beq-false x sep e, first), others)
    ]
