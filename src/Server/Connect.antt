-- ===== src/Server/Connect.antt =====
-- `handleVPNConnect` of gateway/pkg/server/server.go. `sign` is the keyed signature of the gate,
-- `wg_ok` whether the `wg` command succeeds; a request is `none` where its body does not decode.
pub mod Admission
pub mod Ownership
use sovereign_vpn.Base.{
  ℕ, ◌+◌, ◌-◌, ◌*◌, ◌%◌, ◌^◌, Bool, true, false, not, ◌&&◌, ◌||◌, Option, none, some, List, [], ◌∷◌,
  ◌==◌, nat_eq, text_eq, if◌then◌else◌, ltb, ℤ, to_int64, Result, ok, err,
}
use sovereign_vpn.Text.{Text, text, is_empty}
use sovereign_vpn.Clock.{Time, Duration, add, sub, to_unix, second}
use sovereign_vpn.Nftcheck.Tier.{AccessTier, tier_string, tier_eq}
use sovereign_vpn.Nftgate.Store.{Address, Session}
use sovereign_vpn.Nftgate.Gate.{Gate, get_session_by_token}
use sovereign_vpn.Wireguard.Manager.{Manager, PeerError, PeerConfig, add_peer}
use sovereign_vpn.Server.Peers.{claims_peer, set_peer_owner}
use sovereign_vpn.Server.State.{
  Server, Externals, SubscriptionManager, SessionManager, OnChainSession, Reply, error_reply,
  connected, ConnectRequest,
}

-- The handler's readings of the clock, in their order on the paths that make them.
pub record ConnectTimes : Type 0 where
  pub session_at : Time
  pub compared_at : Time
  pub remaining_at : Time
  pub until_at : Time
  pub added_at : Time
  pub answered_at : Time

-- `time.Duration(n) * time.Second` for a uint64 n: the product wraps at 64 bits.
abbrev pub seconds : ℕ → Duration
seconds n = to_int64 (n * second)

-- `a - b` on uint64
abbrev pub sub_u64 : ℕ → ℕ → ℕ
sub_u64 a b = (a + 2 ^ 64 - b % 2 ^ 64) % 2 ^ 64

-- Adding the peer, and what the handler does with the result.
provisioned :
    Server → Session → Text → Time → Text → Manager × Result PeerError PeerConfig → Server × Reply
provisioned s session key expires_at tier (wg, err _) =
    (record s { wg = wg }, error_reply 500 (text "failed to provision VPN connection"))
provisioned s session key expires_at tier (wg, ok cfg) = (
  record s { wg = wg; peer_owners = set_peer_owner s.peer_owners key session.id },
  connected cfg expires_at tier,
)

provision : Server → Session → Text → Duration → Bool → Time → Time → Text → Server × Reply
unfolding provisioned
provision s session key ttl wg_ok added_at expires_at tier =
    provisioned s session key expires_at tier (add_peer s.wg key ttl wg_ok added_at)

active_subscription : Time → Time → Option ℕ → Option Duration
active_subscription compared_at remaining_at none = none
active_subscription compared_at remaining_at (some expires) =
    if ltb (to_unix compared_at) expires
    then some (seconds (sub_u64 expires (to_unix remaining_at)))
    else none

-- Path 1: the remaining time of an active subscription.
unfoldable pub subscription_ttl :
    Option SubscriptionManager → Address → Time → Time → Option Duration
unfolding active_subscription
subscription_ttl none wallet compared_at remaining_at = none
subscription_ttl (some m) wallet compared_at remaining_at =
    active_subscription compared_at remaining_at (m.get_subscription wallet)

paid_duration : Option OnChainSession → Option Duration
paid_duration none = none
paid_duration (some session) =
    if ltb 0 session.payment then some (seconds session.duration) else none

on_chain_session : SessionManager → Option ℕ → Option Duration
unfolding paid_duration
on_chain_session m none = none
on_chain_session m (some id) = if id == 0 then none else paid_duration (m.get_session id)

-- Path 2: the duration of a paid session on the chain.
unfoldable pub paid_session_ttl : Option SessionManager → Address → Option Duration
unfolding on_chain_session
paid_session_ttl none wallet = none
paid_session_ttl (some m) wallet = on_chain_session m (m.get_active_session_id wallet)

connect_on_chain : Server → Session → Text → Bool → ConnectTimes → Option Duration → Server × Reply
unfolding provision
connect_on_chain s session key wg_ok t none =
    (s, error_reply 402 (text "on-chain payment required for paid tier"))
connect_on_chain s session key wg_ok t (some duration) =
    provision s session key duration wg_ok t.added_at (add t.answered_at duration)
      (tier_string session.tier)

connect_paid :
    Externals → Server → Session → Text → Bool → ConnectTimes → Option Duration → Server × Reply
unfolding provision connect_on_chain
connect_paid ext s session key wg_ok t (some remaining) =
    provision s session key remaining wg_ok t.added_at (add t.answered_at remaining)
      (text "subscription")
connect_paid ext s session key wg_ok t none =
    connect_on_chain s session key wg_ok t (paid_session_ttl ext.session_mgr session.address)

connect_session : Externals → Server → Text → Bool → ConnectTimes → Option Session → Server × Reply
unfolding provision connect_paid
connect_session ext s key wg_ok t none =
    (s, error_reply 401 (text "session expired or not found, re-authenticate"))
connect_session ext s key wg_ok t (some session) =
    if not (claims_peer s.peer_owners key session.id)
    then (s, error_reply 403 (text "public key is already bound to another session"))
    else if session.tier == AccessTier.denied
    then (s, error_reply 403 (text "access denied"))
    else if session.tier == AccessTier.paid
    then connect_paid ext s session key wg_ok t
        (subscription_ttl ext.sub_mgr session.address t.compared_at t.remaining_at)
    else provision s session key (sub session.expires_at t.until_at) wg_ok t.added_at
        session.expires_at (tier_string session.tier)

connect_at_gate :
    Externals → Server → Text → Bool → ConnectTimes → Gate × Option Session → Server × Reply
unfolding connect_session
connect_at_gate ext s key wg_ok t (gate, found) =
    connect_session ext (record s { gate = gate }) key wg_ok t found

unfoldable pub handle_vpn_connect :
    (Text → Text)
    → Externals
    → Server
    → Option ConnectRequest
    → Bool
    → ConnectTimes
    → Server × Reply
unfolding connect_at_gate
handle_vpn_connect sign ext s none wg_ok t = (s, error_reply 400 (text "invalid request body"))
handle_vpn_connect sign ext s (some req) wg_ok t =
    if is_empty req.session_token || is_empty req.public_key
    then (s, error_reply 400 (text "session_token and public_key are required"))
    else connect_at_gate ext s req.public_key wg_ok t
        (get_session_by_token sign s.gate req.session_token t.session_at)
