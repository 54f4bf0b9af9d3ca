-- ===== src/Server/Payout.antt =====
-- The handlers of gateway/pkg/server/server.go that show what contracts say: `handlePayoutStatus`,
-- `handleSessionInfo` and `handleSubscriptionTiers`. The clients of the contracts are parameters,
-- `none` where one is not configured.
use sovereign_vpn.Base.{ℕ, Bool, Option, none, some, List, if◌then◌else◌, ℤ}
use sovereign_vpn.Text.{Text, text, is_empty, format_uint}
use sovereign_vpn.External.{Address, Ethereum}
use sovereign_vpn.Noderegistry.{Contract}

-- `none` is an error of a call.
pub record PayoutVault : Type 0 where
  pub pending_payout : Address → Option ℕ
  pub processed_payout : Address → Option ℕ

pub record SessionInfo : Type 0 where
  pub contract : Text
  pub chain_id : ℤ
  pub node_operator : Text
  pub price_per_hour : Text
  pub duration : ℕ
  pub cost_wei : Text

pub record TierInfo : Type 0 where
  pub id : ℕ
  pub price : Text
  pub duration : ℕ
  pub active : Bool

pub record TiersClient : Type 0 where
  pub contract_addr : Text
  pub chain_id : ℤ
  pub get_tiers : Option (List TierInfo)

pub data ContractReply : Type 0 where
  refused : ℕ → Text → ContractReply
  -- the operator, and the entries that the reply has: pending, processed and the RAILGUN address
  payout : Text → Option Text → Option Text → Option Text → ContractReply
  session_info : SessionInfo → ContractReply
  tiers : Text → ℤ → List TierInfo → ContractReply

-- An amount, which is "0" without a vault and left out after an error.
amount_of : Option PayoutVault → (PayoutVault → Option ℕ) → Option Text
amount_of none read = some (text "0")
amount_of (some vault) read = elim (read vault) [ none ↦ none | some wei ↦ some (format_uint wei) ]

railgun_of : Option Contract → Address → Option Text
railgun_of none operator = none
railgun_of (some c) operator = c.railgun_address operator

unfoldable pub handle_payout_status :
    Ethereum → Option PayoutVault → Option Contract → Text → ContractReply
unfolding amount_of railgun_of
handle_payout_status eth vault registry operator =
    if is_empty operator
    then refused 400 (text "operator query param required")
    else payout (eth.address_hex (eth.hex_to_address operator))
        (amount_of vault (λ v. v.pending_payout (eth.hex_to_address operator)))
        (amount_of vault (λ v. v.processed_payout (eth.hex_to_address operator)))
        (railgun_of registry (eth.hex_to_address operator))

-- The session manager's answer, if there is a session manager.
unfoldable pub handle_session_info : Option (Option SessionInfo) → ContractReply
handle_session_info none = refused 503 (text "session manager not configured")
handle_session_info (some none) = refused 500 (text "failed to read session info from contract")
handle_session_info (some (some info)) = session_info info

tiers_of : TiersClient → Option (List TierInfo) → ContractReply
tiers_of m none = refused 500 (text "failed to read tiers from contract")
tiers_of m (some list) = tiers m.contract_addr m.chain_id list

unfoldable pub handle_subscription_tiers : Option TiersClient → ContractReply
unfolding tiers_of
handle_subscription_tiers none = refused 503 (text "subscription manager not configured")
handle_subscription_tiers (some m) = tiers_of m m.get_tiers
