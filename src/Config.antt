-- ===== src/Config.antt =====
-- gateway/pkg/config/config.go: the settings, their defaults and their validation. Reading the
-- file and its JSON are not modelled.
use sovereign_vpn.Base.{◌*◌, Bool, false, not, [], if◌then◌else◌, ℤ, int_leb, Option, none, some}
use sovereign_vpn.Text.{Text, text, is_empty}
use sovereign_vpn.Clock.{Duration, minute}

pub record Config : Type 0 where
  pub listen_addr : Text
  pub ethereum_rpc : Text
  pub memes_contract : Text
  pub access_policy_contract : Text
  pub siwe_domain : Text
  pub siwe_uri : Text
  pub challenge_ttl : Duration
  pub nonce_length : ℤ
  pub credential_ttl : Duration
  pub enable_free_tier : Bool
  pub rate_limit_per_minute : ℤ

abbrev pub default_config : Config
default_config = record {
  listen_addr = text ":8080";
  ethereum_rpc = text "https://ethereum-rpc.publicnode.com";
  memes_contract = [];
  access_policy_contract = [];
  siwe_domain = text "6529vpn.io";
  siwe_uri = text "https://6529vpn.io";
  challenge_ttl = ℤ.pos (5 * minute);
  nonce_length = ℤ.pos 16;
  credential_ttl = ℤ.pos (24 * 60 * minute);
  enable_free_tier = false;
  rate_limit_per_minute = ℤ.pos 30;
}

-- `Validate`: `none`, or the message of the error
unfoldable pub validate : Config → Option Text
validate c =
    if is_empty c.memes_contract
    then some (text "memes_contract is required")
    else if is_empty c.access_policy_contract
    then some (text "access_policy_contract is required")
    else if is_empty c.ethereum_rpc
    then some (text "ethereum_rpc is required")
    else if not (int_leb (ℤ.pos 8) c.nonce_length)
    then some (text "nonce_length must be >= 8")
    else none
