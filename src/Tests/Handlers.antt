-- ===== src/Tests/Handlers.antt =====
-- The theorems on the gateway's handlers at concrete inputs.
use sovereign_vpn.Base.{
  ℕ, ◌+◌, ◌≡◌, ◌≢◌, refl, ◌⊎◌, true, false, not, ◌&&◌, none, some, [], ◌∷◌, text_eq, nat_eq, arith,
}
use sovereign_vpn.Text.{Text, text, split, parse_int, format_uint}
use sovereign_vpn.Clock.{Time}
use sovereign_vpn.Map.{lookup, insert}
use sovereign_vpn.Nftcheck.Tier.{AccessTier, tier_string}
use sovereign_vpn.Nftcheck.Checker.{cached}
use sovereign_vpn.Nftgate.Store.{Session}
use sovereign_vpn.Nftgate.Store.{set, new_session_store}
use sovereign_vpn.Nftgate.Store.Invariant.{Consistent, empty, sets, Reach-Consistent}
use sovereign_vpn.Nftgate.Store.Laws.{binds}
use sovereign_vpn.Nftgate.Gate.{get_session_by_token}
use sovereign_vpn.Wireguard.Manager.{PeerConfig}
use sovereign_vpn.Server.State.{Server, connected, anonymous_connected, disconnected, status}
use sovereign_vpn.Server.Connect.{handle_vpn_connect}
use sovereign_vpn.Server.Connect.Admission.{Admitted, handle_vpn_connect-Admitted}
use sovereign_vpn.Server.Connect.Ownership.{handle_vpn_connect-KeepsOwners}
use sovereign_vpn.Server.Disconnect.{handle_vpn_disconnect}
use sovereign_vpn.Server.Disconnect.Effects.{Freed, handle_vpn_disconnect-Freed}
use sovereign_vpn.Server.Anonymous.{handle_anonymous_vpn_connect}
use sovereign_vpn.Server.Anonymous.Rollback.{Same, handle_anonymous_vpn_connect-RolledBack}
use sovereign_vpn.Server.Revoker.{invalidate_and_revoke}
use sovereign_vpn.Server.Revoker.Revocation.{invalidate_and_revoke_lem}
use sovereign_vpn.Server.Policy.{refresh_policy, cache_fresh}
use sovereign_vpn.Server.Policy.Freshness.{Applied, refresh_policy_lem}
use sovereign_vpn.Server.Lockout.{Orphaned, run, signs_in, cleans_peers, connect-locked_out}
use sovereign_vpn.Nftgate.Token.{parse_and_verify_token, new_session_token}
use sovereign_vpn.Nftgate.Store.{get_by_id}
use sovereign_vpn.Server.Peers.{claims_peer, peer_owned_by}
use sovereign_vpn.Wireguard.Manager.{add_peer, remove_peer}
use sovereign_vpn.Wireguard.Pool.{allocate, ip_text}
use sovereign_vpn.Anonauth.Service.{service_get_challenge, consume_nullifier}
use sovereign_vpn.Anonauth.Challenges.{get_challenge}
use sovereign_vpn.Anonauth.Nullifiers.{consume}
use sovereign_vpn.Nftgate.Gate.{create_anonymous_session}
use sovereign_vpn.Server.Anonymous.{judge, judge_other, admit}
use sovereign_vpn.Server.Tier.{effective_tier, tier_from_zk_proof}
use sovereign_vpn.Tests.Fixtures.{
  signature, hash, noon, hour, alice, alice_gate, alice_store, one_peer, gateway, externals,
  accepting, connect_k, connect_times, anonymous_times, card_request,
}

-- What alice gets when she connects with K.
abbrev pub alice_config : PeerConfig
alice_config = record {
  server_public_key = text "S";
  server_endpoint = text "vpn.example:51820";
  client_address = text "10.8.0.3/24";
  dns = text "1.1.1.1";
  allowed_ips = text "0.0.0.0/0, ::/0";
}

alice_connected :
    (handle_vpn_connect signature externals gateway (some connect_k) true connect_times).1
    ≡ connected alice_config (noon + hour) (text "free")
unfolding handle_vpn_connect get_session_by_token parse_and_verify_token split parse_int get_by_id
    lookup claims_peer add_peer allocate ip_text format_uint tier_string
alice_connected = refl

handle_vpn_connect-Admitted_example :
    (session : Session) × Admitted signature externals gateway connect_k connect_times session
handle_vpn_connect-Admitted_example =
    handle_vpn_connect-Admitted signature externals gateway connect_k true connect_times
      alice_config (noon + hour) (text "free") alice_connected

handle_vpn_connect-KeepsOwners_example :
    lookup
      (text "K")
      (handle_vpn_connect signature externals gateway
        (some (record connect_k { public_key = text "L" }))
        true
        connect_times).0.peer_owners
    ≡ some (text "a1")
unfolding lookup
handle_vpn_connect-KeepsOwners_example =
    handle_vpn_connect-KeepsOwners signature externals gateway
      (some (record connect_k { public_key = text "L" })) true connect_times (text "K") (text "a1")
      refl

alice_disconnected :
    (handle_vpn_disconnect signature externals gateway (some connect_k) true noon).1 ≡ disconnected
unfolding handle_vpn_disconnect get_session_by_token parse_and_verify_token split parse_int
    get_by_id lookup peer_owned_by remove_peer
alice_disconnected = refl

handle_vpn_disconnect-Freed_example :
    (session : Session) × ((get_session_by_token signature gateway.gate connect_k.session_token
        noon).1
      ≡ some session)
    × Freed gateway
        (handle_vpn_disconnect signature externals gateway (some connect_k) true noon).0
        (text "K")
        session
handle_vpn_disconnect-Freed_example =
    handle_vpn_disconnect-Freed signature externals gateway connect_k true noon alice_disconnected

z1_is_new : (id : Text) → some (text "z1") ≡ some id → lookup id gateway.gate.store.sessions ≡ none
unfolding lookup
z1_is_new id e = ground (arith)

wg_failed :
    status
      (handle_anonymous_vpn_connect signature hash externals gateway
        (some card_request)
        (some (text "z1"))
        false
        anonymous_times).1
    ≡ 500
unfolding handle_anonymous_vpn_connect service_get_challenge get_challenge lookup judge judge_other
    effective_tier tier_from_zk_proof parse_int admit consume_nullifier consume
    create_anonymous_session new_session_token add_peer allocate ip_text format_uint tier_string
wg_failed = refl

not_200 : {n : ℕ} → n ≡ 500 → n ≢ 200
not_200 e f = absurd (ground (arith))

handle_anonymous_vpn_connect-RolledBack_example :
    Same noon gateway
      (handle_anonymous_vpn_connect signature hash externals gateway
        (some card_request)
        (some (text "z1"))
        false
        anonymous_times).0
handle_anonymous_vpn_connect-RolledBack_example =
    handle_anonymous_vpn_connect-RolledBack signature hash externals gateway (some card_request)
      (some (text "z1")) false anonymous_times z1_is_new (not_200 wg_failed)

-- Anyone with a card proof takes alice's key.
key_taken :
    (handle_anonymous_vpn_connect signature hash externals gateway
      (some card_request)
      (some (text "z1"))
      true
      anonymous_times).1
    ≡ anonymous_connected (text "v1.z1.1700003600.c2ln") alice_config (noon + hour) (text "free")
unfolding handle_anonymous_vpn_connect service_get_challenge get_challenge lookup judge judge_other
    effective_tier tier_from_zk_proof parse_int admit consume_nullifier consume
    create_anonymous_session new_session_token add_peer allocate ip_text format_uint tier_string
key_taken = refl

alice_gate-Consistent : Consistent alice_store
unfolding set lookup insert new_session_store
alice_gate-Consistent =
    Reach-Consistent (sets {ss = record { sessions = []; address_to_id = [] }} empty alice refl)

invalidate_and_revoke_lem_example :
    (((token : Text) (now : Time) (session : Session)
      → (get_session_by_token signature
          (invalidate_and_revoke externals gateway 7).gate
          token
          now).1
        ≡ some session
      → binds (some session) 7 ≡ false))
    × ((now : Time) → cached (invalidate_and_revoke externals gateway 7).checker 7 now ≡ none)
    × ((invalidate_and_revoke externals gateway 7).wg ≡ one_peer)
    × ((invalidate_and_revoke externals gateway 7).peer_owners ≡ gateway.peer_owners)
invalidate_and_revoke_lem_example =
    invalidate_and_revoke_lem signature externals gateway 7 alice_gate-Consistent

refresh_policy_lem_example :
    (((not false && cache_fresh gateway noon) ≡ true)
      × (refresh_policy accepting gateway false noon noon ≡ (gateway, true)))
    ⊎ (((not false && cache_fresh gateway noon) ≡ false)
        × ((refresh_policy accepting gateway false noon noon ≡ (gateway, false))
            ⊎ (((refresh_policy accepting gateway false noon noon).1 ≡ true)
                × Applied gateway (refresh_policy accepting gateway false noon noon).0 none noon)))
refresh_policy_lem_example = refresh_policy_lem accepting gateway false noon noon

-- Alice's session went, and her key is still hers.
abbrev deserted : Server
deserted = record gateway {
  gate = record alice_gate { store = record { sessions = []; address_to_id = [] } };
}

deserted-Orphaned : Orphaned (text "K") (text "a1") deserted
unfolding lookup
deserted-Orphaned = record {
  owned = refl;
  gone = record { absent = λ i x h. absurd (ground (arith)) };
}

connect-locked_out_example :
    (handle_vpn_connect signature externals
      (run signature externals deserted
        (signs_in 7 AccessTier.free (some (text "b1")) noon ∷ cleans_peers (noon + 5) ∷ []))
      (some (record connect_k { session_token = text "v1.b1.1700003600.c2ln" }))
      true
      connect_times).1
    ≢ connected alice_config (noon + hour) (text "free")
connect-locked_out_example =
    connect-locked_out signature externals (text "K") (text "a1") deserted
      (signs_in 7 AccessTier.free (some (text "b1")) noon ∷ cleans_peers (noon + 5) ∷ [])
      (record connect_k { session_token = text "v1.b1.1700003600.c2ln" }) true connect_times
      alice_config (noon + hour) (text "free") deserted-Orphaned
      ((λ e. absurd (ground (arith))), (tt, tt)) refl
