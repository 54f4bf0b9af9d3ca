-- ===== src/Server/Disconnect.antt =====
-- `handleVPNDisconnect` of gateway/pkg/server/server.go.
pub mod Effects
pub mod Ownership
use sovereign_vpn.Base.{
  Bool, true, false, not, ◌&&◌, ◌||◌, Option, none, some, List, [], ◌∷◌, ◌==◌, text_eq,
  if◌then◌else◌, Result, ok, err,
}
use sovereign_vpn.Text.{Text, text, is_empty}
use sovereign_vpn.Clock.{Time}
use sovereign_vpn.Nftgate.Store.{Address, Session}
use sovereign_vpn.Nftgate.Gate.{Gate, get_session_by_token}
use sovereign_vpn.Wireguard.Manager.{
  Manager, PeerError, remove_peer, no_available_ips, adding_peer, peer_not_found, removing_peer,
}
use sovereign_vpn.Server.Peers.{peer_owned_by, delete_peer_owner}
use sovereign_vpn.Server.State.{
  Server, Externals, SubscriptionManager, SessionManager, Reply, error_reply, disconnected,
  ConnectRequest, log_call, close_session_for,
}

-- The start of the error's text; the code adds the key or the command's output.
abbrev peer_message : PeerError → Text
peer_message no_available_ips = text "no available IPs"
peer_message adding_peer = text "adding WireGuard peer"
peer_message peer_not_found = text "peer not found"
peer_message removing_peer = text "removing WireGuard peer"

subscribed : Address → Option SubscriptionManager → Bool
subscribed wallet none = false
subscribed wallet (some m) = elim (m.has_active_subscription wallet) [
  | none ↦ false
  | some active ↦ active
]

-- The on-chain session is closed for wallets without a subscription.
pub close_on_chain : Option SessionManager → Server → Address → Bool → Server
close_on_chain none s wallet is_subscriber = s
close_on_chain (some _) s wallet is_subscriber =
    if is_subscriber then s else log_call s (close_session_for wallet)

peer_removed :
    Externals → Server → Session → Text → Manager × Result PeerError (Unit {0}) → Server × Reply
unfolding subscribed close_on_chain
peer_removed ext s session key (wg, err e) =
    (record s { wg = wg }, error_reply 404 (peer_message e))
peer_removed ext s session key (wg, ok _) =
    let s' = record s { wg = wg; peer_owners = delete_peer_owner s.peer_owners key } in
    if not session.address_bound then (s', disconnected) else (
      close_on_chain ext.session_mgr s' session.address (subscribed session.address ext.sub_mgr),
      disconnected,
    )

disconnect_session : Externals → Server → Text → Bool → Option Session → Server × Reply
unfolding peer_removed
disconnect_session ext s key wg_ok none =
    (s, error_reply 401 (text "session expired or not found, re-authenticate"))
disconnect_session ext s key wg_ok (some session) =
    if not (peer_owned_by s.peer_owners key session.id)
    then (s, error_reply 403 (text "public key is not owned by this session"))
    else peer_removed ext s session key (remove_peer s.wg key wg_ok)

disconnect_at_gate : Externals → Server → Text → Bool → Gate × Option Session → Server × Reply
unfolding disconnect_session
disconnect_at_gate ext s key wg_ok (gate, found) =
    disconnect_session ext (record s { gate = gate }) key wg_ok found

unfoldable pub handle_vpn_disconnect :
    (Text → Text) → Externals → Server → Option ConnectRequest → Bool → Time → Server × Reply
unfolding disconnect_at_gate
handle_vpn_disconnect sign ext s none wg_ok now = (s, error_reply 400 (text "invalid request body"))
handle_vpn_disconnect sign ext s (some req) wg_ok now =
    if is_empty req.session_token || is_empty req.public_key
    then (s, error_reply 400 (text "session_token and public_key are required"))
    else disconnect_at_gate ext s req.public_key wg_ok
        (get_session_by_token sign s.gate req.session_token now)
