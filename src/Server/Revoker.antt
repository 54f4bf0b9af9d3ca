-- ===== src/Server/Revoker.antt =====
-- gateway/pkg/server/revoker.go, and `handleLog` of gateway/pkg/revocation/watcher.go, which calls
-- it for each transfer event. The subscription to the events is outside the model.
pub mod Revocation
use sovereign_vpn.Base.{
  ℕ, Bool, true, false, not, Option, none, some, List, [], ◌∷◌, ◌==◌, nat_eq, if◌then◌else◌, ◌%◌,
  ◌^◌,
}
use sovereign_vpn.Nftcheck.Checker.{invalidate}
use sovereign_vpn.Nftgate.Store.{Address}
use sovereign_vpn.Nftgate.Gate.{revoke_session}
use sovereign_vpn.Server.State.{Server, Externals, SessionManager, log_call, close_session_for}

close_if_managed : Option SessionManager → Server → Address → Server
close_if_managed none s wallet = s
close_if_managed (some _) s wallet = log_call s (close_session_for wallet)

unfoldable pub invalidate_and_revoke : Externals → Server → Address → Server
unfolding close_if_managed
invalidate_and_revoke ext s wallet =
    close_if_managed ext.session_mgr
      (record s { checker = invalidate s.checker wallet; gate = revoke_session s.gate wallet })
      wallet

unfoldable pub invalidate_only : Server → Address → Server
invalidate_only s wallet = record s { checker = invalidate s.checker wallet }

-- `BytesToAddress` of a topic of 32 bytes: its low 20 bytes
abbrev pub topic_address : ℕ → Address
topic_address topic = topic % 2 ^ 160

-- The sender and then the receiver, each unless it is the zero address.
transfer : Externals → Server → Address → Address → Server
transfer ext s from to =
    let s' = if not (from == 0) then invalidate_and_revoke ext s from else s in
    if not (to == 0) then invalidate_only s' to else s'

-- `handleLog` on the topics of the event
unfoldable pub handle_log : Externals → Server → List ℕ → Server
unfolding transfer
handle_log ext s (_ ∷ _ ∷ from ∷ to ∷ _) = transfer ext s (topic_address from) (topic_address to)
handle_log ext s _ = s
