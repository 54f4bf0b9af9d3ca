-- ===== src/Wgconf.antt =====
-- The file that client/pkg/wgconf/config.go writes for wg-quick.
use sovereign_vpn.Base.{[], ◌∷◌, ◌++◌}
use sovereign_vpn.Text.{Text, text, join}

pub record WgConfig : Type 0 where
  pub private_key : Text
  pub client_address : Text
  pub dns : Text
  pub server_public_key : Text
  pub server_endpoint : Text
  pub allowed_ips : Text

-- `String`: its lines, each with a line feed
unfoldable pub render : WgConfig → Text
render c = join b'\n' (
    text "[Interface]"
    ∷ (text "PrivateKey = " ++ c.private_key)
    ∷ (text "Address = " ++ c.client_address)
    ∷ (text "DNS = " ++ c.dns)
    ∷ []
    ∷ text "[Peer]"
    ∷ (text "PublicKey = " ++ c.server_public_key)
    ∷ (text "Endpoint = " ++ c.server_endpoint)
    ∷ (text "AllowedIPs = " ++ c.allowed_ips)
    ∷ text "PersistentKeepalive = 25"
    ∷ []
    ∷ [])
