-- ===== src/Tests/Anonymous.antt =====
-- An anonymous connect with a proof of type vpn_access_v1, and the witness on what it accepts.
use sovereign_vpn.Tests.Handlers.{alice_config}
use sovereign_vpn.Server.Signals.{
  bytes_value, hash_bytes_to_field_string, derive_session_key_hash, derive_challenge_hash,
  validate_signals,
}
use sovereign_vpn.Base.{◌+◌, ◌≡◌, refl, true, some, [], ◌∷◌, text_eq, nat_eq}
use sovereign_vpn.Text.{parse_uint, text, parse_int, format_uint}
use sovereign_vpn.Map.{lookup}
use sovereign_vpn.Nftcheck.Tier.{tier_string}
use sovereign_vpn.Server.State.{
  AnonymousConnectRequest, uint64, Externals, Server, anonymous_connected,
}
use sovereign_vpn.Server.Anonymous.{handle_anonymous_vpn_connect}
use sovereign_vpn.Server.Anonymous.Ownership.{Completed, handle_anonymous_vpn_connect-Completed}
use sovereign_vpn.Server.Policy.{refresh_policy, policy_epoch_from_metadata}
use sovereign_vpn.Nftgate.Token.{new_session_token}
use sovereign_vpn.Wireguard.Manager.{add_peer}
use sovereign_vpn.Wireguard.Pool.{allocate, ip_text}
use sovereign_vpn.Anonauth.Service.{set_policy_epoch, service_get_challenge, consume_nullifier}
use sovereign_vpn.Anonauth.Challenges.{Challenge, get_challenge}
use sovereign_vpn.Anonauth.Nullifiers.{consume}
use sovereign_vpn.Nftgate.Gate.{create_anonymous_session}
use sovereign_vpn.Server.Anonymous.{judge, admit}
use sovereign_vpn.Tests.Fixtures.{
  service, challenge, challenge, service, signature, hash, noon, hour, gateway, externals,
  accepting, anonymous_times, card_request,
}

-- A ZK API that accepts every proof and knows the root "R" of epoch 4.
abbrev rooted : Externals
rooted = record externals {
  zk_client = some (record accepting {
    get_merkle_root = λ _. some (
        some (record {
          success = true;
          root_data = some (record { root = text "R"; policy_epoch = some (uint64 4) });
        }));
  });
}

abbrev v1_challenge : Challenge
v1_challenge = record challenge { proof_type = text "vpn_access_v1" }

-- The gateway with a challenge for a proof of type vpn_access_v1.
abbrev v1_gateway : Server
v1_gateway = record gateway {
  anon_auth = record service { challenges = record { challenges = (text "C", v1_challenge) ∷ [] } };
}

-- Seven signals for alice's key and the challenge, whose hashes are all 104.
abbrev v1_request : AnonymousConnectRequest
v1_request = record card_request {
  proof_type = text "vpn_access_v1";
  public_signals =
      text "R" ∷ text "4" ∷ text "2" ∷ text "1700003600" ∷ text "N" ∷ text "104" ∷ text "104" ∷ [];
  session_key_hash = text "104";
}

v1_granted :
    (handle_anonymous_vpn_connect signature hash rooted v1_gateway
      (some v1_request)
      (some (text "z1"))
      true
      anonymous_times).1
    ≡ anonymous_connected (text "v1.z1.1700003600.c2ln") alice_config (noon + hour) (text "paid")
unfolding policy_epoch_from_metadata set_policy_epoch handle_anonymous_vpn_connect
    service_get_challenge get_challenge lookup judge refresh_policy validate_signals
    derive_challenge_hash derive_session_key_hash hash_bytes_to_field_string bytes_value parse_int
    parse_uint admit consume_nullifier consume create_anonymous_session new_session_token add_peer
    allocate ip_text format_uint tier_string
v1_granted = refl

handle_anonymous_vpn_connect-Completed_example :
    Completed hash rooted.zk_client v1_gateway
      (handle_anonymous_vpn_connect signature hash rooted v1_gateway
        (some v1_request)
        (some (text "z1"))
        true
        anonymous_times).0
      v1_request
      (some (text "z1"))
      anonymous_times
      (text "v1.z1.1700003600.c2ln")
      (noon + hour)
handle_anonymous_vpn_connect-Completed_example =
    handle_anonymous_vpn_connect-Completed signature hash rooted v1_gateway v1_request
      (some (text "z1")) true anonymous_times (text "v1.z1.1700003600.c2ln") alice_config
      (noon + hour) (text "paid") v1_granted
