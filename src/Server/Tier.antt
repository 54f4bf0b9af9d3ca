-- ===== src/Server/Tier.antt =====
-- `effectiveTier` and `tierFromZKProof` of gateway/pkg/server/server.go.
use sovereign_vpn.Base.{
  Bool, not, ◌&&◌, Option, none, some, List, ◌∷◌, ◌==◌, text_eq, if◌then◌else◌, ℤ, is_positive,
  int_eq,
}
use sovereign_vpn.Text.{Text, text, parse_int}
use sovereign_vpn.Nftcheck.Tier.{AccessTier, tier_eq}

unfoldable pub effective_tier : Bool → AccessTier → AccessTier
effective_tier free_tier tier =
    if tier == AccessTier.free && not free_tier then AccessTier.paid else tier

card_tier : ℤ → Option ℤ → AccessTier
card_tier this_card none = AccessTier.paid
card_tier this_card (some card) =
    if is_positive this_card && card == this_card then AccessTier.free else AccessTier.paid

signal_tier : ℤ → List Text → AccessTier
unfolding card_tier
signal_tier this_card (_ ∷ card ∷ _) = card_tier this_card (parse_int card)
signal_tier this_card _ = AccessTier.paid

unfoldable pub tier_from_zk_proof : ℤ → Text → List Text → AccessTier
unfolding signal_tier
tier_from_zk_proof this_card proof_type signals =
    if proof_type == text "card_ownership" then signal_tier this_card signals else AccessTier.paid
