-- ===== src/Tests/Handled.antt =====
-- Runs of the status, challenge and enrollment handlers, of the node listing and of a start.
use sovereign_vpn.Base.{◌+◌, ◌≡◌, refl, true, false, none, some, [], nat_eq, text_eq}
use sovereign_vpn.Text.{Text, text, is_empty}
use sovereign_vpn.Tests.Fixtures.{noon, hour, gateway, signature, wg_config, pool, checker}
use sovereign_vpn.Tests.Wallets.{eth, times}
use sovereign_vpn.Tests.Services.{enrolled, reported, enrollment, healthy_report}
use sovereign_vpn.Operators.Handlers.{State, refused, answered, handle_get, handle_report}
use sovereign_vpn.Server.Status.{
  InfoReply, bearer_token, handle_vpn_status, handle_challenge, handle_health,
}
use sovereign_vpn.Server.Payout.{PayoutVault, payout, handle_payout_status}
use sovereign_vpn.Server.Start.{new_server}
use sovereign_vpn.Config.{default_config, validate}
use sovereign_vpn.Wireguard.Manager.{new_manager}
use sovereign_vpn.Wgconf.{WgConfig, render}

bearer_read : bearer_token (text " bearer  v1.a ") ≡ text "v1.a"
unfolding bearer_token sovereign_vpn.Text.trim_space sovereign_vpn.Strings.fields
bearer_read = refl

bearer_refused : bearer_token (text "Basic v1.a") ≡ []
unfolding bearer_token sovereign_vpn.Text.trim_space sovereign_vpn.Strings.fields
bearer_refused = refl

alice_connected :
    (handle_vpn_status signature gateway (text "Bearer v1.a1.1700003600.c2ln") noon).1
    ≡ InfoReply.connected (text "free") (noon + hour)
unfolding handle_vpn_status sovereign_vpn.Text.trim_space sovereign_vpn.Strings.fields
    sovereign_vpn.Nftgate.Gate.get_session_by_token
    sovereign_vpn.Nftgate.Token.parse_and_verify_token sovereign_vpn.Text.split
    sovereign_vpn.Text.parse_int sovereign_vpn.Nftgate.Store.get_by_id sovereign_vpn.Map.lookup
    sovereign_vpn.Nftcheck.Tier.tier_string
alice_connected = refl

alice_expired :
    (handle_vpn_status signature gateway (text "Bearer v1.a1.1700003600.c2ln") (noon + hour + 1)).1
    ≡ InfoReply.not_connected
unfolding handle_vpn_status sovereign_vpn.Text.trim_space sovereign_vpn.Strings.fields
    sovereign_vpn.Nftgate.Gate.get_session_by_token
    sovereign_vpn.Nftgate.Token.parse_and_verify_token sovereign_vpn.Text.split
    sovereign_vpn.Text.parse_int sovereign_vpn.Nftgate.Store.get_by_id sovereign_vpn.Map.lookup
alice_expired = refl

one_session : handle_health gateway noon ≡ InfoReply.healthy noon 1 1 true
unfolding handle_health sovereign_vpn.Nftgate.Access.active_session_count
    sovereign_vpn.Wireguard.Manager.peer_count sovereign_vpn.Nftgate.Store.store_len
one_session = refl

challenge_refused :
    (handle_challenge times gateway (some []) none noon noon).1
    ≡ InfoReply.refused 400 (text "address is required")
unfolding handle_challenge
challenge_refused = refl

abbrev state : State
state = record { siwe = none; enrollments = enrolled }

report_handled :
    (handle_report eth state
      (text "/operator/enrollments/T/report")
      (some healthy_report)
      (noon + 1)).1
    ≡ answered 200 enrollment
unfolding handle_report sovereign_vpn.Strings.cut_suffix sovereign_vpn.Strings.trim_byte
    sovereign_vpn.Map.lookup sovereign_vpn.Map.sweep sovereign_vpn.Operators.Store.create
    sovereign_vpn.Operators.Fields.normalize_operator sovereign_vpn.Text.trim_space
    sovereign_vpn.Operators.Fields.normalize_region sovereign_vpn.Map.insert
    sovereign_vpn.Operators.Store.new_store sovereign_vpn.Operators.Fields.normalize_report
report_handled = refl

report_misplaced :
    (handle_report eth state (text "/operator/enrollments/T") (some healthy_report) (noon + 1)).1
    ≡ refused 404 (text "enrollment report endpoint not found")
unfolding handle_report sovereign_vpn.Strings.cut_suffix sovereign_vpn.Strings.trim_byte
report_misplaced = refl

enrollment_over :
    (handle_get
      (record state { enrollments = reported })
      (text "/operator/enrollments/T/")
      (noon + hour)).1
    ≡ refused 404 (text "enrollment not found")
unfolding handle_get sovereign_vpn.Strings.trim_byte sovereign_vpn.Strings.cut_prefix
    sovereign_vpn.Map.lookup sovereign_vpn.Map.sweep sovereign_vpn.Operators.Store.report
    sovereign_vpn.Operators.Store.create sovereign_vpn.Operators.Fields.normalize_operator
    sovereign_vpn.Text.trim_space sovereign_vpn.Operators.Fields.normalize_region
    sovereign_vpn.Map.insert sovereign_vpn.Operators.Store.new_store
    sovereign_vpn.Operators.Fields.normalize_report sovereign_vpn.Map.delete
enrollment_over = refl

defaults_refused : validate default_config ≡ some (text "memes_contract is required")
unfolding validate
defaults_refused = refl

nobody_at_start :
    handle_health (new_server default_config checker (new_manager wg_config pool)) noon
    ≡ InfoReply.healthy noon 0 0 false
unfolding handle_health sovereign_vpn.Nftgate.Access.active_session_count
    sovereign_vpn.Wireguard.Manager.peer_count new_server sovereign_vpn.Nftgate.Store.store_len
    new_manager
nobody_at_start = refl

abbrev client_config : WgConfig
client_config = record {
  private_key = text "P";
  client_address = text "10.8.0.2/32";
  dns = text "1.1.1.1";
  server_public_key = text "S";
  server_endpoint = text "e:1";
  allowed_ips = text "0.0.0.0/0";
}

rendered :
    render client_config
    ≡ text
        "[Interface]\nPrivateKey = P\nAddress = 10.8.0.2/32\nDNS = 1.1.1.1\n\n[Peer]\nPublicKey = S\nEndpoint = e:1\nAllowedIPs = 0.0.0.0/0\nPersistentKeepalive = 25\n"
unfolding render sovereign_vpn.Text.join
rendered = refl

no_vault :
    handle_payout_status eth none none (text "0x7")
    ≡ payout (text "0x7") (some (text "0")) (some (text "0")) none
unfolding handle_payout_status
no_vault = refl

abbrev vault : PayoutVault
vault = record { pending_payout = λ operator. some 12; processed_payout = λ operator. none }

pending_only :
    handle_payout_status eth (some vault) none (text "0x7")
    ≡ payout (text "0x7") (some (text "12")) none none
unfolding handle_payout_status sovereign_vpn.Text.format_uint
pending_only = refl
