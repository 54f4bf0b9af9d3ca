-- ===== src/Server/Connect/Ownership.antt =====
-- `handleVPNConnect` never takes a key from the session that owns it, and connects only live
-- sessions with access.
use sovereign_vpn.Base.{
  ◌≡◌, refl, sym, subst, inl, inr, Bool, true, ◌||◌, Option, none, some, nat_eq, text_eq, arith,
  Bool-cases, Option-cases, Result, ok, err,
}
use sovereign_vpn.Text.{Text, text, is_empty}
use sovereign_vpn.Clock.{Time, Duration, add, sub}
use sovereign_vpn.Map.{lookup}
use sovereign_vpn.Map.Laws.{lookup-insert}
use sovereign_vpn.Nftcheck.Tier.{tier_eq, tier_string}
use sovereign_vpn.Nftgate.Store.{Session}
use sovereign_vpn.Nftgate.Gate.{Gate, get_session_by_token}
use sovereign_vpn.Wireguard.Manager.{Manager, PeerError, PeerConfig, add_peer}
use sovereign_vpn.Server.Peers.{PeerOwners, claims_peer, set_peer_owner}
use sovereign_vpn.Server.State.{Server, Externals, ConnectRequest}
use sovereign_vpn.Server.Connect.{
  ConnectTimes, provisioned, provision, connect_on_chain, connect_paid, connect_session,
  connect_at_gate, handle_vpn_connect, subscription_ttl, paid_session_ttl,
}

-- A table of owners in which the owners of before are still there.
abbrev pub KeepsOwners : PeerOwners → PeerOwners → Type 0
KeepsOwners old new = (k o : Text) → lookup k old ≡ some o → lookup k new ≡ some o

provisioned-KeepsOwners :
    (s : Server) (session : Session) (key : Text) (e : Time) (tier : Text)
    (r : Manager × Result PeerError PeerConfig)
    → claims_peer s.peer_owners key session.id ≡ true
    → KeepsOwners s.peer_owners (provisioned s session key e tier r).0.peer_owners
unfolding provisioned claims_peer set_peer_owner
provisioned-KeepsOwners s session key e tier (wg, err x) c k o h = h
provisioned-KeepsOwners s session key e tier (wg, ok cfg) c k o h = ground (
  arith,
  lookup-insert k key session.id s.peer_owners,
  text_eq.beq_iff key k,
  text_eq.beq_iff o session.id,
)

connect_on_chain-KeepsOwners :
    (s : Server) (session : Session) (key : Text) (wg_ok : Bool) (t : ConnectTimes)
    (d : Option Duration)
    → claims_peer s.peer_owners key session.id ≡ true
    → KeepsOwners s.peer_owners (connect_on_chain s session key wg_ok t d).0.peer_owners
unfolding connect_on_chain
connect_on_chain-KeepsOwners s session key wg_ok t none c k o h = h
connect_on_chain-KeepsOwners s session key wg_ok t (some d) c k o h =
    provisioned-KeepsOwners s session key (add t.answered_at d) (tier_string session.tier)
      (add_peer s.wg key d wg_ok t.added_at) c k o h

connect_paid-KeepsOwners :
    (ext : Externals) (s : Server) (session : Session) (key : Text) (wg_ok : Bool)
    (t : ConnectTimes) (d : Option Duration)
    → claims_peer s.peer_owners key session.id ≡ true
    → KeepsOwners s.peer_owners (connect_paid ext s session key wg_ok t d).0.peer_owners
unfolding connect_paid
connect_paid-KeepsOwners ext s session key wg_ok t none c =
    connect_on_chain-KeepsOwners s session key wg_ok t
      (paid_session_ttl ext.session_mgr session.address) c
connect_paid-KeepsOwners ext s session key wg_ok t (some d) c =
    provisioned-KeepsOwners s session key (add t.answered_at d) (text "subscription")
      (add_peer s.wg key d wg_ok t.added_at) c

connect_session-KeepsOwners :
    (ext : Externals) (s : Server) (key : Text) (wg_ok : Bool) (t : ConnectTimes)
    (o : Option Session)
    → KeepsOwners s.peer_owners (connect_session ext s key wg_ok t o).0.peer_owners
unfolding connect_session
connect_session-KeepsOwners ext s key wg_ok t none k o h = h
connect_session-KeepsOwners ext s key wg_ok t (some session) k o h =
    elim (Bool-cases (claims_peer s.peer_owners key session.id)) [
      | inr c ↦ ground (arith, c)
      | inl c ↦ ground (
        arith,
        c,
        connect_paid-KeepsOwners ext s session key wg_ok t
            (subscription_ttl ext.sub_mgr session.address t.compared_at t.remaining_at) c k o h,
        provisioned-KeepsOwners s session key session.expires_at (tier_string session.tier)
            (add_peer s.wg key (sub session.expires_at t.until_at) wg_ok t.added_at) c k o h,
      )
    ]

-- Whatever is sent to /vpn/connect, every key that a session owns is afterwards owned by the same
-- session.
pub handle_vpn_connect-KeepsOwners :
    (sign : Text → Text) (ext : Externals) (s : Server) (req : Option ConnectRequest) (wg_ok : Bool)
    (t : ConnectTimes) (k o : Text)
    → lookup k s.peer_owners ≡ some o
    → lookup k (handle_vpn_connect sign ext s req wg_ok t).0.peer_owners ≡ some o
unfolding handle_vpn_connect
handle_vpn_connect-KeepsOwners sign ext s none wg_ok t k o h = h
handle_vpn_connect-KeepsOwners sign ext s (some req) wg_ok t k o h =
    let (g, found) = get_session_by_token sign s.gate req.session_token t.session_at in
    ground (
      arith,
      connect_session-KeepsOwners ext (record s { gate = g }) req.public_key wg_ok t found k o h,
    )

provisioned-gate :
    (s : Server) (session : Session) (key : Text) (e : Time) (tier : Text)
    (r : Manager × Result PeerError PeerConfig)
    → (provisioned s session key e tier r).0.gate ≡ s.gate
unfolding provisioned
provisioned-gate s session key e tier (wg, err x) = refl
provisioned-gate s session key e tier (wg, ok cfg) = refl

connect_paid-gate :
    (ext : Externals) (s : Server) (session : Session) (key : Text) (wg_ok : Bool)
    (t : ConnectTimes) (d : Option Duration)
    → (connect_paid ext s session key wg_ok t d).0.gate ≡ s.gate
unfolding connect_paid connect_on_chain provision
connect_paid-gate ext s session key wg_ok t (some d) = provisioned-gate s session key _ _ _
connect_paid-gate ext s session key wg_ok t none =
    elim (Option-cases (paid_session_ttl ext.session_mgr session.address)) [
      | inl e ↦ ground (arith, e)
      | inr (d, e) ↦ ground (
        arith,
        e,
        provisioned-gate s session key (add t.answered_at d) (tier_string session.tier)
            (add_peer s.wg key d wg_ok t.added_at),
      )
    ]

connect_session-gate :
    (ext : Externals) (s : Server) (key : Text) (wg_ok : Bool) (t : ConnectTimes)
    (o : Option Session)
    → (connect_session ext s key wg_ok t o).0.gate ≡ s.gate
unfolding connect_session provision
connect_session-gate ext s key wg_ok t none = refl
connect_session-gate ext s key wg_ok t (some session) = ground (
  arith,
  connect_paid-gate ext s session key wg_ok t
      (subscription_ttl ext.sub_mgr session.address t.compared_at t.remaining_at),
  provisioned-gate s session key session.expires_at (tier_string session.tier)
      (add_peer s.wg key (sub session.expires_at t.until_at) wg_ok t.added_at),
)

-- A connect changes the gate only as its reading of the token does.
pub handle_vpn_connect-gate {ℓ} :
    (P : Gate → Type ℓ) (sign : Text → Text) (ext : Externals) (s : Server)
    (req : Option ConnectRequest) (wg_ok : Bool) (t : ConnectTimes)
    → P s.gate
    → ((token : Text) → P (get_session_by_token sign s.gate token t.session_at).0)
    → P (handle_vpn_connect sign ext s req wg_ok t).0.gate
unfolding handle_vpn_connect connect_at_gate
handle_vpn_connect-gate P sign ext s none wg_ok t same read = same
handle_vpn_connect-gate P sign ext s (some req) wg_ok t same read =
    elim (Bool-cases (is_empty req.session_token || is_empty req.public_key)) [
      | inl lacks ↦ rw lacks same
      | inr full ↦ rw full (
          let gate = get_session_by_token sign s.gate req.session_token t.session_at in
          subst P
            (sym
              (connect_session-gate ext (record s { gate = gate.0 }) req.public_key wg_ok t gate.1))
            (read req.session_token))
    ]
