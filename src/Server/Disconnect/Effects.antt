-- ===== src/Server/Disconnect/Effects.antt =====
-- What /vpn/disconnect changes.
use sovereign_vpn.Base.{
  ◌≡◌, ◌≢◌, refl, ap, ◌∙◌, inl, inr, Bool, true, false, not, ◌||◌, Option, none, some, ◌==◌, nat_eq,
  text_eq, if◌then◌else◌, arith, Bool-cases, Option-cases, beq_refl, Result, ok, err,
}
use sovereign_vpn.Text.{Text, is_empty}
use sovereign_vpn.Clock.{Time}
use sovereign_vpn.Map.{lookup}
use sovereign_vpn.Map.Laws.{lookup-delete}
use sovereign_vpn.Nftgate.Store.{Address, Session}
use sovereign_vpn.Nftgate.Gate.{Gate, get_session_by_token}
use sovereign_vpn.Wireguard.Manager.{Manager, PeerError, remove_peer}
use sovereign_vpn.Wireguard.Manager.Failure.{remove_peer-peers}
use sovereign_vpn.Server.Peers.{peer_owned_by, delete_peer_owner}
use sovereign_vpn.Server.State.{Server, Externals, SessionManager, disconnected, ConnectRequest}
use sovereign_vpn.Server.Disconnect.{
  handle_vpn_disconnect, disconnect_at_gate, disconnect_session, peer_removed, close_on_chain,
  subscribed,
}

-- What a disconnect says and does: the key is the session's, and it is free and has no peer after.
pub record Freed (s s' : Server) (key : Text) (session : Session) : Type 0 where
  pub owned : lookup key s.peer_owners ≡ some session.id
  pub unowned : lookup key s'.peer_owners ≡ none
  pub peerless : lookup key s'.wg.peers ≡ none
  pub other_owners : (k : Text) → key ≢ k → lookup k s'.peer_owners ≡ lookup k s.peer_owners
  pub other_peers : (k : Text) → key ≢ k → lookup k s'.wg.peers ≡ lookup k s.wg.peers

pub close_on_chain-owners :
    (m : Option SessionManager) (s : Server) (wallet : Address) (b : Bool)
    → ((close_on_chain m s wallet b).peer_owners ≡ s.peer_owners)
      × ((close_on_chain m s wallet b).wg ≡ s.wg)
unfolding close_on_chain
close_on_chain-owners none s wallet b = (refl, refl)
close_on_chain-owners (some m) s wallet true = (refl, refl)
close_on_chain-owners (some m) s wallet false = (refl, refl)

peer_removed-Freed :
    (ext : Externals) (s : Server) (session : Session) (key : Text)
    (r : Manager × Result PeerError (Unit {0}))
    → lookup key s.peer_owners ≡ some session.id
    → ((k : Text)
        → (u : Unit {0}) → r.1 ≡ ok u
        → lookup k r.0.peers ≡ (if key == k then none else lookup k s.wg.peers))
    → (peer_removed ext s session key r).1 ≡ disconnected
    → Freed s (peer_removed ext s session key r).0 key session
unfolding peer_removed delete_peer_owner
peer_removed-Freed ext s session key (wg, err e) own peers h = absurd (ground (arith))
peer_removed-Freed ext s session key (wg, ok u) own peers h =
    elim (Bool-cases (not session.address_bound)) [
      | inl unbound ↦ rw unbound plain
      | inr bound ↦ rw bound (
          let (owners, wg_same) =
            close_on_chain-owners ext.session_mgr
              (record s { wg = wg; peer_owners = delete_peer_owner s.peer_owners key })
              session.address (subscribed session.address ext.sub_mgr) in
          record {
            owned = own;
            unowned = ap (λ x. lookup key x) owners ∙ plain.unowned;
            peerless = ap (λ x. lookup key x.peers) wg_same ∙ plain.peerless;
            other_owners = λ k ne. ap (λ x. lookup k x) owners ∙ plain.other_owners k ne;
            other_peers = λ k ne. ap (λ x. lookup k x.peers) wg_same ∙ plain.other_peers k ne;
          })
    ]
  where
    plain :
        Freed s
          (record s { wg = wg; peer_owners = delete_peer_owner s.peer_owners key })
          key
          session
    plain = record {
      owned = own;
      unowned = ground (arith, lookup-delete key key s.peer_owners, beq_refl key);
      peerless = ground (arith, peers key u refl, beq_refl key);
      other_owners =
          λ k ne. ground (arith, lookup-delete k key s.peer_owners, text_eq.beq_iff key k);
      other_peers = λ k ne. ground (arith, peers k u refl, text_eq.beq_iff key k);
    }

remove_peer-ok :
    (m : Manager) (key : Text) (wg_ok : Bool) (k : Text) (u : Unit {0})
    → (remove_peer m key wg_ok).1 ≡ ok u
    → lookup k (remove_peer m key wg_ok).0.peers ≡ (if key == k then none else lookup k m.peers)
remove_peer-ok m key wg_ok k u h = ground (arith, h, remove_peer-peers m key k wg_ok)

module _ (sign : Text → Text) (ext : Externals) (s : Server) (req : ConnectRequest) (wg_ok : Bool)
    (now : Time) where
  disconnect_session-Freed :
      (s1 : Server) (o : Option Session)
      → (disconnect_session ext s1 req.public_key wg_ok o).1 ≡ disconnected
      → (session : Session) × (o ≡ some session)
        × Freed s1 (disconnect_session ext s1 req.public_key wg_ok o).0 req.public_key session
  unfolding disconnect_session peer_owned_by
  disconnect_session-Freed s1 none h = absurd (ground (arith))
  disconnect_session-Freed s1 (some session) h =
      elim (Bool-cases (not (peer_owned_by s1.peer_owners req.public_key session.id))) [
        | inl other ↦ absurd (ground (arith, other))
        | inr own ↦ (
          session,
          refl,
          rw own (
              peer_removed-Freed ext s1 session req.public_key
                (remove_peer s1.wg req.public_key wg_ok) (owner session own)
                (remove_peer-ok s1.wg req.public_key wg_ok) (ground (arith, own))),
        )
      ]
    where
      owner :
          (session : Session)
          → not (peer_owned_by s1.peer_owners req.public_key session.id) ≡ false
          → lookup req.public_key s1.peer_owners ≡ some session.id
      owner session own = elim (Option-cases (lookup req.public_key s1.peer_owners)) [
        | inl e ↦ absurd (ground (arith, e))
        | inr (x, e) ↦ ground (arith, e, text_eq.beq_iff x session.id)
      ]

  -- A disconnect that succeeds was sent with a token that yields the session that owns the key. The
  -- key has no owner and no peer afterwards, and every other key's owner and peer are as before.
  pub handle_vpn_disconnect-Freed :
      (handle_vpn_disconnect sign ext s (some req) wg_ok now).1 ≡ disconnected
      → (session : Session) × ((get_session_by_token sign s.gate req.session_token now).1
          ≡ some session)
        × Freed s (handle_vpn_disconnect sign ext s (some req) wg_ok now).0 req.public_key session
  unfolding handle_vpn_disconnect disconnect_at_gate
  handle_vpn_disconnect-Freed h =
      elim (Bool-cases (is_empty req.session_token || is_empty req.public_key)) [
        | inl lacks ↦ absurd (ground (arith, lacks))
        | inr full ↦ rw full (
            of_gate
              (disconnect_session-Freed (record s { gate = gate.0 }) gate.1 (ground (arith, full))))
      ]
    where
      gate : Gate × Option Session
      gate = get_session_by_token sign s.gate req.session_token now

      of_gate :
          (session : Session) × (gate.1 ≡ some session)
            × Freed
                (record s { gate = gate.0 })
                (disconnect_session ext (record s { gate = gate.0 }) req.public_key wg_ok gate.1).0
                req.public_key
                session
          → (session : Session) × (gate.1 ≡ some session)
            × Freed s
                (disconnect_session ext (record s { gate = gate.0 }) req.public_key wg_ok gate.1).0
                req.public_key
                session
      of_gate (session, found, f) = (
        session,
        found,
        record {
          owned = f.owned;
          unowned = f.unowned;
          peerless = f.peerless;
          other_owners = f.other_owners;
          other_peers = f.other_peers;
        },
      )
