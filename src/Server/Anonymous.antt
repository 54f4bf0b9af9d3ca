-- ===== src/Server/Anonymous.antt =====
-- `handleAnonymousVPNConnect` and `handleAnonymousChallenge` of gateway/pkg/server/server.go.
pub mod Acceptance
pub mod Ownership
pub mod Rollback
use sovereign_vpn.Base.{
  ℕ, Bool, true, false, not, ◌&&◌, ◌||◌, Option, none, some, List, [], ◌∷◌, ◌==◌, text_eq,
  if◌then◌else◌, Result, ok, err,
}
use sovereign_vpn.Text.{Text, text, is_empty}
use sovereign_vpn.Clock.{Time, Duration, add, sub, before}
use sovereign_vpn.Nftcheck.Tier.{AccessTier, tier_string, tier_eq}
use sovereign_vpn.Nftgate.Store.{Session}
use sovereign_vpn.Nftgate.Gate.{
  Gate, AnonymousSessionParams, create_anonymous_session, delete_session_by_id,
}
use sovereign_vpn.Wireguard.Manager.{Manager, PeerError, PeerConfig, add_peer}
use sovereign_vpn.Anonauth.Challenges.{Challenge}
use sovereign_vpn.Anonauth.Service.{
  Service, service_get_challenge, service_delete_challenge, consume_nullifier, release_nullifier,
}
use sovereign_vpn.Server.Peers.{set_peer_owner}
use sovereign_vpn.Server.Tier.{effective_tier, tier_from_zk_proof}
use sovereign_vpn.Server.Signals.{VpnAccessV1Signals, SignalError, signal_message, validate_signals}
use sovereign_vpn.Server.Policy.{refresh_policy}
use sovereign_vpn.Server.State.{
  Server, Externals, ZkClient, Reply, error_reply, anonymous_connected, AnonymousConnectRequest,
}

-- The handler's readings of the clock, in their order.
pub record AnonymousTimes : Type 0 where
  pub challenge_at : Time
  pub fetched_at : Time
  pub signals_at : Time
  pub nullifier_at : Time
  pub expiry_at : Time
  pub session_at : Time
  pub until_at : Time
  pub added_at : Time

-- What the proof allows: the tier, the hashes that the session gets, and a bound on its expiry.
pub record Grant : Type 0 where
  pub tier : AccessTier
  pub nullifier_hash : Text
  pub session_key_hash : Text
  pub expiry_bucket : Option Time

pub v1_grant : VpnAccessV1Signals → Grant
v1_grant v = record {
  tier = AccessTier.paid;
  nullifier_hash = v.nullifier_hash;
  session_key_hash = v.session_key_hash;
  expiry_bucket = some v.expiry_bucket;
}

pub other_grant : AnonymousConnectRequest → Grant
other_grant req = record {
  tier = AccessTier.free;
  nullifier_hash = req.nullifier_hash;
  session_key_hash = req.session_key_hash;
  expiry_bucket = none;
}

abbrev pub session_bound : Option Time → Time → Time
session_bound none expiry = expiry
session_bound (some bucket) expiry = if before bucket expiry then bucket else expiry

session_params : Server → Challenge → Grant → AnonymousTimes → AnonymousSessionParams
session_params s challenge grant t = record {
  tier = grant.tier;
  policy_epoch = challenge.policy_epoch;
  nullifier_hash = grant.nullifier_hash;
  session_key_hash = grant.session_key_hash;
  expires_at = session_bound grant.expiry_bucket (add t.expiry_at s.credential_ttl);
}

-- The peer is added: on failure the session and the nullifier are given back.
peer_added :
    Server
    → AnonymousConnectRequest
    → Grant
    → Session
    → Manager × Result PeerError PeerConfig
    → Server × Reply
peer_added s req grant session (wg, err _) = (
  record s {
    wg = wg;
    gate = delete_session_by_id s.gate session.id;
    anon_auth = release_nullifier s.anon_auth grant.nullifier_hash;
  },
  error_reply 500 (text "failed to provision VPN connection"),
)
peer_added s req grant session (wg, ok cfg) = (
  record s {
    wg = wg;
    anon_auth = service_delete_challenge s.anon_auth req.challenge_id;
    peer_owners = set_peer_owner s.peer_owners req.public_key session.id;
  },
  anonymous_connected session.token cfg session.expires_at (tier_string session.tier),
)

session_made :
    Server
    → AnonymousConnectRequest
    → Grant
    → Bool
    → AnonymousTimes
    → Gate × Option Session
    → Server × Reply
unfolding peer_added
session_made s req grant wg_ok t (gate, none) = (
  record s { gate = gate; anon_auth = release_nullifier s.anon_auth grant.nullifier_hash },
  error_reply 500 (text "failed to create anonymous session"),
)
session_made s req grant wg_ok t (gate, some session) =
    peer_added (record s { gate = gate }) req grant session
      (add_peer s.wg req.public_key (sub session.expires_at t.until_at) wg_ok t.added_at)

nullifier_consumed :
    (Text → Text)
    → Server
    → AnonymousConnectRequest
    → Challenge
    → Grant
    → Option Text
    → Bool
    → AnonymousTimes
    → Service × Bool
    → Server × Reply
unfolding session_made session_params
nullifier_consumed sign s req challenge grant drawn wg_ok t (anon_auth, false) =
    (record s { anon_auth = anon_auth }, error_reply 409 (text "nullifier already used"))
nullifier_consumed sign s req challenge grant drawn wg_ok t (anon_auth, true) =
    session_made (record s { anon_auth = anon_auth }) req grant wg_ok t
      (create_anonymous_session sign s.gate (session_params s challenge grant t) drawn t.session_at)

-- From a granted proof on: the nullifier, the session and the peer.
unfoldable pub admit :
    (Text → Text)
    → Server
    → AnonymousConnectRequest
    → Challenge
    → Grant
    → Option Text
    → Bool
    → AnonymousTimes
    → Server × Reply
unfolding nullifier_consumed
admit sign s req challenge grant drawn wg_ok t =
    nullifier_consumed sign s req challenge grant drawn wg_ok t
      (consume_nullifier s.anon_auth grant.nullifier_hash s.credential_ttl t.nullifier_at)

-- The answer to the proof itself: `none` is an error of the ZK API.
abbrev pub proof_error : Option Bool → Option Reply
proof_error none = some (error_reply 502 (text "ZK verification service unavailable"))
proof_error (some false) = some (error_reply 403 (text "anonymous proof invalid"))
proof_error (some true) = none

pub other_tier : Server → AnonymousConnectRequest → AccessTier
other_tier s req =
    effective_tier s.free_tier (tier_from_zk_proof s.this_card_id req.proof_type req.public_signals)

-- The path of every other proof type than vpn_access_v1.
unfoldable pub judge_other : ZkClient → Server → AnonymousConnectRequest → Result Reply Grant
unfolding other_tier other_grant
judge_other zk s req =
    elim (proof_error (zk.verify_proof req.proof_type req.proof req.public_signals)) [
      | some reply ↦ err reply
      | none ↦
          if other_tier s req == AccessTier.free
          then ok (other_grant req)
          else err (error_reply 501 (text "anonymous paid tier not implemented"))
    ]

check_root :
    ZkClient
    → Server
    → AnonymousConnectRequest
    → Result SignalError VpnAccessV1Signals
    → Result Reply Grant
unfolding v1_grant
check_root zk s req (err e) = err (error_reply 400 (signal_message e))
check_root zk s req (ok v) =
    if is_empty s.policy_root
    then err (error_reply 503 (text "anonymous policy metadata unavailable"))
    else if not (v.root == s.policy_root)
    then err (error_reply 409 (text "anonymous policy root changed, request a new challenge"))
    else elim (proof_error (zk.verify_proof req.proof_type req.proof req.public_signals)) [
      | some reply ↦ err reply
      | none ↦ ok (v1_grant v)
    ]

-- The path of vpn_access_v1: the policy is refreshed first, then the signals are checked.
judge_refreshed :
    (Text → Text)
    → ZkClient
    → AnonymousConnectRequest
    → Challenge
    → AnonymousTimes
    → Server × Bool
    → Server × Result Reply Grant
unfolding check_root
judge_refreshed sha256 zk req challenge t (s, false) =
    (s, err (error_reply 503 (text "anonymous policy metadata unavailable")))
judge_refreshed sha256 zk req challenge t (s, true) =
    (s, check_root zk s req (validate_signals sha256 challenge req t.signals_at))

-- What the proof grants, or the refusal.
unfoldable pub judge :
    (Text → Text)
    → Option ZkClient
    → Server
    → AnonymousConnectRequest
    → Challenge
    → AnonymousTimes
    → Server × Result Reply Grant
unfolding judge_refreshed
judge sha256 none s req challenge t =
    (s, err (error_reply 503 (text "anonymous verifier not configured")))
judge sha256 (some zk) s req challenge t =
    if req.proof_type == text "vpn_access_v1"
    then judge_refreshed sha256 zk req challenge t
        (refresh_policy zk s true t.fetched_at t.fetched_at)
    else (s, judge_other zk s req)

admit_judged :
    (Text → Text)
    → AnonymousConnectRequest
    → Challenge
    → Option Text
    → Bool
    → AnonymousTimes
    → Server × Result Reply Grant
    → Server × Reply
admit_judged sign req challenge drawn wg_ok t (s, err reply) = (s, reply)
admit_judged sign req challenge drawn wg_ok t (s, ok grant) =
    admit sign s req challenge grant drawn wg_ok t

with_challenge :
    (Text → Text)
    → (Text → Text)
    → Option ZkClient
    → Server
    → AnonymousConnectRequest
    → Option Text
    → Bool
    → AnonymousTimes
    → Option Challenge
    → Server × Reply
unfolding admit_judged
with_challenge sign sha256 zk s req drawn wg_ok t none =
    (s, error_reply 401 (text "challenge expired or not found"))
with_challenge sign sha256 zk s req drawn wg_ok t (some challenge) =
    if not (req.proof_type == challenge.proof_type)
    then (s, error_reply 400 (text "proof_type does not match challenge"))
    else admit_judged sign req challenge drawn wg_ok t (judge sha256 zk s req challenge t)

challenge_read :
    (Text → Text)
    → (Text → Text)
    → Option ZkClient
    → Server
    → AnonymousConnectRequest
    → Option Text
    → Bool
    → AnonymousTimes
    → Service × Option Challenge
    → Server × Reply
unfolding with_challenge
challenge_read sign sha256 zk s req drawn wg_ok t (anon_auth, found) =
    with_challenge sign sha256 zk (record s { anon_auth = anon_auth }) req drawn wg_ok t found

abbrev pub lacks_field : AnonymousConnectRequest → Bool
lacks_field req =
    is_empty req.challenge_id
    || is_empty req.proof_type
    || is_empty req.nullifier_hash
    || is_empty req.session_key_hash
    || is_empty req.public_key

-- `drawn` is the random id of a new session, `none` where the random source fails.
unfoldable pub handle_anonymous_vpn_connect :
    (Text → Text)
    → (Text → Text)
    → Externals
    → Server
    → Option AnonymousConnectRequest
    → Option Text
    → Bool
    → AnonymousTimes
    → Server × Reply
unfolding challenge_read
handle_anonymous_vpn_connect sign sha256 ext s none drawn wg_ok t =
    (s, error_reply 400 (text "invalid request body"))
handle_anonymous_vpn_connect sign sha256 ext s (some req) drawn wg_ok t =
    if lacks_field req
    then (
      s,
      error_reply 400 (
          text
            "challenge_id, proof_type, nullifier_hash, session_key_hash, and public_key are required"),
    )
    else challenge_read sign sha256 ext.zk_client s req drawn wg_ok t
        (service_get_challenge s.anon_auth req.challenge_id t.challenge_at)
