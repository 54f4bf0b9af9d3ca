-- ===== src/Strings/Laws.antt =====
-- The searches of `Strings`.
use sovereign_vpn.Base.{ℕ, ◌≡◌, ◌≢◌, refl, none, some, [], ◌∷◌, ◌++◌, nat_eq, text_eq, arith, All}
use sovereign_vpn.Text.{Text}
use sovereign_vpn.Strings.{cut_prefix, before_text}

pub cut_prefix-append : (p s : Text) → cut_prefix p (p ++ s) ≡ some s
unfolding cut_prefix
cut_prefix-append [] s = refl
cut_prefix-append (c ∷ p) s = ground (arith, cut_prefix-append p s, nat_eq.beq_iff c c)

-- What is cut off stood in front.
pub cut_prefix-eq_some : (p s r : Text) → cut_prefix p s ≡ some r → s ≡ p ++ r
unfolding cut_prefix
cut_prefix-eq_some [] s r h = ground (arith)
cut_prefix-eq_some (c ∷ p) [] r h = absurd (ground (arith))
cut_prefix-eq_some (c ∷ p) (d ∷ s) r h =
    ground (arith, cut_prefix-eq_some p s r, nat_eq.beq_iff c d)

-- A text without the first byte of `sep` is found whole in front of it.
pub before_text-append :
    (c : ℕ) (sep w rest : Text)
    → All (λ x. x ≢ c) w
    → before_text (c ∷ sep) (w ++ ((c ∷ sep) ++ rest)) ≡ some w
unfolding before_text
before_text-append c sep [] rest h = let e = cut_prefix-append (c ∷ sep) rest in ground (arith, e)
before_text-append c sep (x ∷ w) rest h =
    let e : cut_prefix (c ∷ sep) (x ∷ (w ++ ((c ∷ sep) ++ rest))) ≡ none =
      unfold cut_prefix in ground (arith, nat_eq.beq_iff c x, h.0) in
    ground (arith, e, before_text-append c sep w rest h.1)
