-- ===== src/Server/Lockout.antt =====
-- A key whose owning session is gone: the handlers that check ownership never free it.
use sovereign_vpn.Base.{
  ◌≡◌, ◌≢◌, sym, ap, subst, ◌∙◌, inl, inr, Bool, true, Option, some, List, [], ◌∷◌, ◌==◌, nat_eq,
  text_eq, arith, Bool-cases, Option-cases, All,
}
use sovereign_vpn.Text.{Text}
use sovereign_vpn.Clock.{Time}
use sovereign_vpn.Map.{lookup}
use sovereign_vpn.Nftcheck.Tier.{AccessTier}
use sovereign_vpn.Nftgate.Store.{
  Address, Session, SessionStore, set, delete_by_id, delete_by_address, cleanup,
}
use sovereign_vpn.Nftgate.Store.Laws.{
  sessions-delete_by_id, sessions-delete_by_address, sessions-set,
}
use sovereign_vpn.Nftgate.Store.Effects.{lookup-cleanup}
use sovereign_vpn.Nftgate.Gate.{Gate, create_session, revoke_session, get_session_by_token}
use sovereign_vpn.Nftgate.Gate.Sessions.{
  get_session_by_token-eq_some, get_session_by_token-store, create_session-store,
}
use sovereign_vpn.Wireguard.Manager.{PeerConfig, clean_expired}
use sovereign_vpn.Server.State.{Server, Externals, ConnectRequest, connected}
use sovereign_vpn.Server.Connect.{ConnectTimes, handle_vpn_connect}
use sovereign_vpn.Server.Connect.Admission.{handle_vpn_connect-Admitted}
use sovereign_vpn.Server.Connect.Ownership.{handle_vpn_connect-KeepsOwners, handle_vpn_connect-gate}
use sovereign_vpn.Server.Disconnect.{handle_vpn_disconnect}
use sovereign_vpn.Server.Disconnect.Ownership.{
  handle_vpn_disconnect-owners, handle_vpn_disconnect-gate,
}
use sovereign_vpn.Server.Revoker.{invalidate_and_revoke}
use sovereign_vpn.Server.Revoker.Revocation.{invalidate_and_revoke-parts}

-- No stored session has the id.
pub record Absent (o : Text) (ss : SessionStore) : Type 0 where
  pub absent : (i : Text) (x : Session) → lookup i ss.sessions ≡ some x → x.id ≢ o

-- A key that is owned by an id of no session.
pub record Orphaned (key o : Text) (s : Server) : Type 0 where
  pub owned : lookup key s.peer_owners ≡ some o
  pub gone : Absent o s.gate.store

-- What may happen between requests: all but an anonymous connect.
pub data Event : Type 0 where
  connects : Option ConnectRequest → Bool → ConnectTimes → Event
  disconnects : Option ConnectRequest → Bool → Time → Event
  -- a wallet signs in: its tier and the drawn session id
  signs_in : Address → AccessTier → Option Text → Time → Event
  revokes : Address → Event
  cleans_sessions : Time → Event
  cleans_peers : Time → Event

module _ (sign : Text → Text) (ext : Externals) where
  unfoldable pub step : Server → Event → Server
  step s (connects req wg_ok t) = (handle_vpn_connect sign ext s req wg_ok t).0
  step s (disconnects req wg_ok now) = (handle_vpn_disconnect sign ext s req wg_ok now).0
  step s (signs_in wallet tier drawn now) = record s {
    gate = (create_session sign s.gate wallet tier drawn now).0;
  }
  step s (revokes wallet) = invalidate_and_revoke ext s wallet
  step s (cleans_sessions now) = record s {
    gate = record s.gate { store = cleanup s.gate.store now };
  }
  step s (cleans_peers now) = record s { wg = (clean_expired s.wg now).0 }

  unfoldable pub run : Server → List Event → Server
  unfolding step
  run s [] = s
  run s (e ∷ es) = run (step s e) es

-- A sign-in draws another id.
abbrev pub DrawsOther : Text → Event → Type 0
DrawsOther o (signs_in _ _ drawn _) = drawn ≢ some o
DrawsOther o _ = Unit

module _ (o : Text) where
  delete_by_id-Absent :
      (ss : SessionStore) (id : Text) → Absent o ss → Absent o (delete_by_id ss id)
  delete_by_id-Absent ss id a = record {
    absent = λ i x h. a.absent i x (ground (arith, sessions-delete_by_id ss id i));
  }

  delete_by_address-Absent :
      (ss : SessionStore) (w : Address) → Absent o ss → Absent o (delete_by_address ss w)
  delete_by_address-Absent ss w a = record {
    absent = λ i x h. a.absent i x (ground (arith, sessions-delete_by_address ss w i));
  }

  cleanup-Absent : (ss : SessionStore) (now : Time) → Absent o ss → Absent o (cleanup ss now)
  cleanup-Absent ss now a = record {
    absent = λ i x h. a.absent i x (elim (Option-cases (lookup i ss.sessions)) [
      | inl e ↦ absurd (ground (arith, e, lookup-cleanup ss now i))
      | inr (y, e) ↦ ground (arith, e, lookup-cleanup ss now i)
    ]);
  }

  set-Absent :
      (ss : SessionStore) (s : Session)
      → s.address_bound ≡ true
      → s.id ≢ o
      → Absent o ss
      → Absent o (set ss s)
  set-Absent ss s bound ne a = record {
    absent = λ i x h. elim (Bool-cases (s.id == i)) [
      | inl same ↦ λ e. ne (ground (arith, same, e, sessions-set ss s i bound))
      | inr other ↦ a.absent i x (elim (Option-cases (lookup s.address ss.address_to_id)) [
        | inl e ↦ ground (arith, e, other, sessions-set ss s i bound)
        | inr (old, e) ↦ ground (arith, e, other, sessions-set ss s i bound)
      ])
    ];
  }

  read-Absent :
      (sign : Text → Text) (g : Gate) (token : Text) (now : Time)
      → Absent o g.store
      → Absent o (get_session_by_token sign g token now).0.store
  read-Absent sign g token now a =
      get_session_by_token-store (Absent o) sign g token now a
        (λ id. delete_by_id-Absent g.store id a)

module _ (sign : Text → Text) (ext : Externals) (key o : Text) where
  step-Orphaned :
      (s : Server) (e : Event)
      → DrawsOther o e
      → Orphaned key o s
      → Orphaned key o (step sign ext s e)
  unfolding step revoke_session invalidate_and_revoke
  step-Orphaned s (connects req wg_ok t) d h = record {
    owned = handle_vpn_connect-KeepsOwners sign ext s req wg_ok t key o h.owned;
    gone =
        handle_vpn_connect-gate (λ g. Absent o g.store) sign ext s req wg_ok t h.gone
          (λ token. read-Absent o sign s.gate token t.session_at h.gone);
  }
  step-Orphaned s (disconnects req wg_ok now) d h = record {
    owned = handle_vpn_disconnect-owners sign ext s req wg_ok now key o h.owned (λ token x f.
        let (id, _, _, at, _, _) = get_session_by_token-eq_some sign s.gate token now x f in
        h.gone.absent id x at);
    gone =
        handle_vpn_disconnect-gate (λ g. Absent o g.store) sign ext s req wg_ok now h.gone
          (λ token. read-Absent o sign s.gate token now h.gone);
  }
  step-Orphaned s (signs_in wallet tier drawn now) d h = record {
    owned = h.owned;
    gone =
        create_session-store (Absent o) sign s.gate wallet tier drawn now h.gone
          (λ x bound is. set-Absent o s.gate.store x bound (λ e. d (is ∙ ap some e)) h.gone);
  }
  step-Orphaned s (revokes wallet) d h = record {
    owned = revoked.0 ∙ h.owned;
    gone =
        subst (λ g. Absent o g.store) (sym revoked.1)
          (delete_by_address-Absent o s.gate.store wallet h.gone);
  }
    where
      revoked :
          (lookup key (invalidate_and_revoke ext s wallet).peer_owners ≡ lookup key s.peer_owners)
          × ((invalidate_and_revoke ext s wallet).gate ≡ revoke_session s.gate wallet)
      revoked = invalidate_and_revoke-parts ext s wallet key
  step-Orphaned s (cleans_sessions now) d h = record {
    owned = h.owned;
    gone = cleanup-Absent o s.gate.store now h.gone;
  }
  step-Orphaned s (cleans_peers now) d h = record { owned = h.owned; gone = h.gone }

  run-Orphaned :
      (s : Server) (es : List Event)
      → All (DrawsOther o) es
      → Orphaned key o s
      → Orphaned key o (run sign ext s es)
  unfolding run
  run-Orphaned s [] d h = h
  run-Orphaned s (e ∷ es) d h = run-Orphaned (step sign ext s e) es d.1 (step-Orphaned s e d.0 h)

  -- Where a key is owned by an id and no stored session has that id, no connect for the key
  -- succeeds after any sequence of connects, disconnects, sign-ins that draw another id,
  -- revocations and cleanups of sessions and peers, whatever its token.
  pub connect-locked_out :
      (s : Server) (es : List Event) (req : ConnectRequest) (wg_ok : Bool) (t : ConnectTimes)
      (cfg : PeerConfig) (e : Time) (tier : Text)
      → Orphaned key o s
      → All (DrawsOther o) es
      → req.public_key ≡ key
      → (handle_vpn_connect sign ext (run sign ext s es) (some req) wg_ok t).1
        ≢ connected cfg e tier
  connect-locked_out s es req wg_ok t cfg e tier orphan d same h =
      let after = run-Orphaned s es d orphan in
      let (x, a) =
        handle_vpn_connect-Admitted sign ext (run sign ext s es) req wg_ok t cfg e tier h in
      after.gone.absent a.token_id x a.stored (
        ground (
          arith,
          a.unclaimed,
          after.owned,
          ap (λ k. lookup k (run sign ext s es).peer_owners) same,
          text_eq.beq_iff o x.id,
        ))
