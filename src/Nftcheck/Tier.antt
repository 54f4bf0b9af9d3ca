-- ===== src/Nftcheck/Tier.antt =====
-- `AccessTier` of gateway/pkg/nftcheck/checker.go.
use sovereign_vpn.Base.{ℕ, ◌≡◌, ◌↔◌, Bool, true, false, Eq, arith}
use sovereign_vpn.Text.{Text, text}

pub data AccessTier : Type 0 where
  denied paid free : AccessTier

-- The constants' values, by which Go orders them.
abbrev pub rank : AccessTier → ℕ
rank denied = 0
rank paid = 1
rank free = 2

unfoldable pub tier_string : AccessTier → Text
tier_string free = text "free"
tier_string paid = text "paid"
tier_string denied = text "denied"

abbrev pub tier_beq : AccessTier → AccessTier → Bool
tier_beq denied denied = true
tier_beq paid paid = true
tier_beq free free = true
tier_beq _ _ = false

pub tier_beq_iff : (s t : AccessTier) → (tier_beq s t ≡ true) ↔ (s ≡ t)
tier_beq_iff denied t = ground arith
tier_beq_iff paid t = ground arith
tier_beq_iff free t = ground arith

instance abbrev pub tier_eq : Eq AccessTier
tier_eq = record { beq = tier_beq; beq_iff = tier_beq_iff }
