-- ===== src/Server/Revoker/Revocation.antt =====
-- What a revocation ends and what it leaves.
use sovereign_vpn.Nftgate.Store.Laws.{binds}
use sovereign_vpn.Base.{◌≡◌, refl, inl, inr, false, none, some, nat_eq, text_eq, Option-cases}
use sovereign_vpn.Text.{Text}
use sovereign_vpn.Clock.{Time}
use sovereign_vpn.Map.{lookup}
use sovereign_vpn.Nftcheck.Checker.{cached, invalidate}
use sovereign_vpn.Nftcheck.Checker.Cache.{cached-invalidate}
use sovereign_vpn.Nftgate.Store.{Address, Session}
use sovereign_vpn.Nftgate.Store.Invariant.{Consistent}
use sovereign_vpn.Nftgate.Gate.{revoke_session, get_session_by_token}
use sovereign_vpn.Nftgate.Gate.Sessions.{revoke_session_lem}
use sovereign_vpn.Server.State.{Server, Externals}
use sovereign_vpn.Server.Revoker.{invalidate_and_revoke, close_if_managed}

-- Where the session store is consistent, after a revocation of a wallet no token yields a session
-- that is bound to it and no cached check of it is left. The WireGuard peers, and so their expiry,
-- and the owners of keys are as before.
pub invalidate_and_revoke_lem :
    (sign : Text → Text) (ext : Externals) (s : Server) (wallet : Address)
    → Consistent s.gate.store
    → (((token : Text) (now : Time) (session : Session)
        → (get_session_by_token sign (invalidate_and_revoke ext s wallet).gate token now).1
          ≡ some session
        → binds (some session) wallet ≡ false))
      × ((now : Time) → cached (invalidate_and_revoke ext s wallet).checker wallet now ≡ none)
      × ((invalidate_and_revoke ext s wallet).wg ≡ s.wg)
      × ((invalidate_and_revoke ext s wallet).peer_owners ≡ s.peer_owners)
unfolding invalidate_and_revoke close_if_managed
invalidate_and_revoke_lem sign ext s wallet c = elim (Option-cases ext.session_mgr) [
  | inl e ↦ rw (e, close_if_managed) parts
  | inr (m, e) ↦ rw (e, close_if_managed) parts
]
  where
    parts :
        ((token : Text) (now : Time) (session : Session)
          → (get_session_by_token sign (revoke_session s.gate wallet) token now).1 ≡ some session
          → binds (some session) wallet ≡ false)
        × ((now : Time) → cached (invalidate s.checker wallet) wallet now ≡ none)
        × (s.wg ≡ s.wg)
        × (s.peer_owners ≡ s.peer_owners)
    parts =
        (revoke_session_lem sign s.gate c wallet, cached-invalidate s.checker wallet, refl, refl)

-- What a revocation does to the owners and the gate.
pub invalidate_and_revoke-parts :
    (ext : Externals) (s : Server) (wallet : Address) (key : Text)
    → (lookup key (invalidate_and_revoke ext s wallet).peer_owners ≡ lookup key s.peer_owners)
      × ((invalidate_and_revoke ext s wallet).gate ≡ revoke_session s.gate wallet)
unfolding invalidate_and_revoke close_if_managed
invalidate_and_revoke-parts ext s wallet key = elim (Option-cases ext.session_mgr) [
  | inl e ↦ rw (e, close_if_managed) (refl, refl)
  | inr (m, e) ↦ rw (e, close_if_managed) (refl, refl)
]
