-- ===== src/Server/Start.antt =====
-- `New` and the setters of gateway/pkg/server/server.go. The routes, the limiter, the registry and
-- the enrollments are not in the state of `Server` here; the clients that the other setters
-- configure are parameters of the handlers.
use sovereign_vpn.Base.{false, Option, none, [], ℤ}
use sovereign_vpn.Text.{text}
use sovereign_vpn.Config.{Config}
use sovereign_vpn.Siwe.Service as Siwe
use sovereign_vpn.Anonauth.Service as Anonauth
use sovereign_vpn.Rep6529
use sovereign_vpn.Nftcheck.Checker.{Checker}
use sovereign_vpn.Nftgate.Access.{new_gate}
use sovereign_vpn.Wireguard.Manager.{Manager}
use sovereign_vpn.Server.State.{Server}

unfoldable pub new_server : Config → Checker → Manager → Server
unfolding Anonauth.new_service Siwe.new_service new_gate
new_server cfg checker wg = record {
  credential_ttl = cfg.credential_ttl;
  anon_auth = Anonauth.new_service cfg.challenge_ttl cfg.nonce_length (text "vpn_access_v1") 1;
  free_tier = cfg.enable_free_tier;
  siwe = Siwe.new_service cfg.siwe_domain cfg.siwe_uri cfg.challenge_ttl;
  checker = checker;
  gate = new_gate cfg.credential_ttl;
  wg = wg;
  user_rep = none;
  this_card_id = ℤ.pos 0;
  peer_owners = [];
  policy_root = [];
  policy_fetched_at = 0;
  policy_refresh_queued = false;
  chain_calls = [];
}

unfoldable pub set_chain_id : Server → ℤ → Server
unfolding Siwe.set_chain_id
set_chain_id s chain_id = record s { siwe = Siwe.set_chain_id s.siwe chain_id }

unfoldable pub set_user_rep_checker : Server → Option Rep6529.Checker → Server
set_user_rep_checker s r = record s { user_rep = r }

unfoldable pub set_this_card_id : Server → ℤ → Server
set_this_card_id s id = record s { this_card_id = id }
