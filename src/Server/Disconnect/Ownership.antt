-- ===== src/Server/Disconnect/Ownership.antt =====
-- What /vpn/disconnect keeps: the gate, but for the reading of the token, and the keys of other
-- sessions.
use sovereign_vpn.Base.{
  ◌≡◌, ◌≢◌, refl, sym, subst, inl, inr, Bool, true, false, ◌||◌, Option, none, some, nat_eq,
  text_eq, arith, Bool-cases, Result, ok, err,
}
use sovereign_vpn.Text.{Text, is_empty}
use sovereign_vpn.Clock.{Time}
use sovereign_vpn.Map.{lookup}
use sovereign_vpn.Map.Laws.{lookup-delete}
use sovereign_vpn.Nftgate.Store.{Address, Session}
use sovereign_vpn.Nftgate.Gate.{Gate, get_session_by_token}
use sovereign_vpn.Wireguard.Manager.{Manager, PeerError, remove_peer}
use sovereign_vpn.Server.Peers.{peer_owned_by, delete_peer_owner}
use sovereign_vpn.Server.State.{Server, Externals, SessionManager, ConnectRequest}
use sovereign_vpn.Server.Disconnect.{
  handle_vpn_disconnect, disconnect_at_gate, disconnect_session, peer_removed, close_on_chain,
  subscribed,
}
use sovereign_vpn.Server.Disconnect.Effects.{close_on_chain-owners}

close_on_chain-gate :
    (m : Option SessionManager) (s : Server) (wallet : Address) (b : Bool)
    → (close_on_chain m s wallet b).gate ≡ s.gate
unfolding close_on_chain
close_on_chain-gate none s wallet b = refl
close_on_chain-gate (some m) s wallet true = refl
close_on_chain-gate (some m) s wallet false = refl

peer_removed-gate :
    (ext : Externals) (s : Server) (session : Session) (key : Text)
    (r : Manager × Result PeerError (Unit {0}))
    → (peer_removed ext s session key r).0.gate ≡ s.gate
unfolding peer_removed
peer_removed-gate ext s session key (wg, err e) = refl
peer_removed-gate ext s session key (wg, ok u) = ground (
  arith,
  close_on_chain-gate ext.session_mgr
      (record s { wg = wg; peer_owners = delete_peer_owner s.peer_owners key }) session.address
      (subscribed session.address ext.sub_mgr),
)

disconnect_session-gate :
    (ext : Externals) (s : Server) (key : Text) (wg_ok : Bool) (o : Option Session)
    → (disconnect_session ext s key wg_ok o).0.gate ≡ s.gate
unfolding disconnect_session
disconnect_session-gate ext s key wg_ok none = refl
disconnect_session-gate ext s key wg_ok (some session) =
    ground (arith, peer_removed-gate ext s session key (remove_peer s.wg key wg_ok))

-- A disconnect changes the gate only as its reading of the token does.
pub handle_vpn_disconnect-gate {ℓ} :
    (P : Gate → Type ℓ) (sign : Text → Text) (ext : Externals) (s : Server)
    (req : Option ConnectRequest) (wg_ok : Bool) (now : Time)
    → P s.gate
    → ((token : Text) → P (get_session_by_token sign s.gate token now).0)
    → P (handle_vpn_disconnect sign ext s req wg_ok now).0.gate
unfolding handle_vpn_disconnect disconnect_at_gate
handle_vpn_disconnect-gate P sign ext s none wg_ok now same read = same
handle_vpn_disconnect-gate P sign ext s (some req) wg_ok now same read =
    elim (Bool-cases (is_empty req.session_token || is_empty req.public_key)) [
      | inl lacks ↦ rw lacks same
      | inr full ↦ rw full (
          let gate = get_session_by_token sign s.gate req.session_token now in
          subst P
            (sym (
              disconnect_session-gate ext (record s { gate = gate.0 }) req.public_key wg_ok gate.1))
            (read req.session_token))
    ]

peer_removed-owners :
    (ext : Externals) (s : Server) (session : Session) (key : Text)
    (r : Manager × Result PeerError (Unit {0})) (k o : Text)
    → lookup k s.peer_owners ≡ some o
    → peer_owned_by s.peer_owners key session.id ≡ true
    → o ≢ session.id
    → lookup k (peer_removed ext s session key r).0.peer_owners ≡ some o
unfolding peer_removed delete_peer_owner peer_owned_by
peer_removed-owners ext s session key (wg, err e) k o h own ne = h
peer_removed-owners ext s session key (wg, ok u) k o h own ne = ground (
  arith,
  (close_on_chain-owners ext.session_mgr
      (record s { wg = wg; peer_owners = delete_peer_owner s.peer_owners key }) session.address
      (subscribed session.address ext.sub_mgr)).0,
  lookup-delete k key s.peer_owners,
  text_eq.beq_iff key k,
  text_eq.beq_iff o session.id,
)

disconnect_session-owners :
    (ext : Externals) (s : Server) (key : Text) (wg_ok : Bool) (found : Option Session) (k o : Text)
    → lookup k s.peer_owners ≡ some o
    → ((x : Session) → found ≡ some x → x.id ≢ o)
    → lookup k (disconnect_session ext s key wg_ok found).0.peer_owners ≡ some o
unfolding disconnect_session
disconnect_session-owners ext s key wg_ok none k o h ne = h
disconnect_session-owners ext s key wg_ok (some session) k o h ne =
    elim (Bool-cases (peer_owned_by s.peer_owners key session.id)) [
      | inl own ↦ ground (
        arith,
        own,
        peer_removed-owners ext s session key (remove_peer s.wg key wg_ok) k o h own
            (λ e. ne session refl (sym e)),
      )
      | inr other ↦ ground (arith, other)
    ]

-- A disconnect never takes a key from another session than the token's.
pub handle_vpn_disconnect-owners :
    (sign : Text → Text) (ext : Externals) (s : Server) (req : Option ConnectRequest) (wg_ok : Bool)
    (now : Time) (k o : Text)
    → lookup k s.peer_owners ≡ some o
    → ((token : Text) (x : Session)
        → (get_session_by_token sign s.gate token now).1 ≡ some x
        → x.id ≢ o)
    → lookup k (handle_vpn_disconnect sign ext s req wg_ok now).0.peer_owners ≡ some o
unfolding handle_vpn_disconnect disconnect_at_gate
handle_vpn_disconnect-owners sign ext s none wg_ok now k o h ne = h
handle_vpn_disconnect-owners sign ext s (some req) wg_ok now k o h ne =
    let gate = get_session_by_token sign s.gate req.session_token now in
    ground (
      arith,
      disconnect_session-owners ext (record s { gate = gate.0 }) req.public_key wg_ok gate.1 k o h
          (ne req.session_token),
    )
