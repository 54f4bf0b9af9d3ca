-- ===== src/Server/Connect/Admission.antt =====
-- What a successful /vpn/connect says of the session.
use sovereign_vpn.Base.{
  ◌≤◌, ◌≡◌, refl, ◌⊎◌, inl, inr, Bool, true, Option, some, nat_eq, text_eq, arith, Bool-cases,
  Option-cases,
}
use sovereign_vpn.Text.{Text}
use sovereign_vpn.Clock.{Time, Duration, sub}
use sovereign_vpn.Map.{lookup}
use sovereign_vpn.Nftcheck.Tier.{AccessTier, tier_eq}
use sovereign_vpn.Nftgate.Store.{Session}
use sovereign_vpn.Nftgate.Gate.{Gate, get_session_by_token}
use sovereign_vpn.Nftgate.Gate.Sessions.{get_session_by_token-eq_some}
use sovereign_vpn.Nftgate.Token.{parse_and_verify_token}
use sovereign_vpn.Wireguard.Manager.{PeerConfig}
use sovereign_vpn.Server.Peers.{claims_peer, free_for}
use sovereign_vpn.Server.State.{Server, Externals, connected, ConnectRequest}
use sovereign_vpn.Server.Connect.{
  ConnectTimes, connect_on_chain, connect_paid, connect_session, connect_at_gate,
  handle_vpn_connect, subscription_ttl, paid_session_ttl,
}

-- A session may connect: a free one, or a paid one with a subscription or a payment on the chain.
abbrev pub Entitled : Externals → ConnectTimes → Session → Type 0
Entitled ext t s =
    (s.tier ≡ AccessTier.free)
    ⊎ ((s.tier ≡ AccessTier.paid)
        × (((d : Duration) × (subscription_ttl ext.sub_mgr s.address t.compared_at t.remaining_at
                ≡ some d))
            ⊎ ((d : Duration) × (paid_session_ttl ext.session_mgr s.address ≡ some d))))

-- Why a request was answered with a peer configuration.
pub record Admitted (sign : Text → Text) (ext : Externals) (s : Server) (req : ConnectRequest)
    (t : ConnectTimes) (session : Session) : Type 0 where
  pub token_id : Text
  pub token_expiry : Time
  pub verified : parse_and_verify_token sign req.session_token ≡ some (token_id, token_expiry)
  pub stored : lookup token_id s.gate.store.sessions ≡ some session
  pub in_time : t.session_at ≤ session.expires_at
  pub token_in_time : t.session_at ≤ token_expiry
  pub unclaimed : free_for (lookup req.public_key s.peer_owners) session.id ≡ true
  pub entitled : Entitled ext t session

module _ (ext : Externals) (s : Server) (key : Text) (wg_ok : Bool) (t : ConnectTimes)
    (session : Session) (cfg : PeerConfig) (e : Time) (tier : Text) where
  paid-Entitled :
      session.tier ≡ AccessTier.paid
      → (connect_paid ext s session key wg_ok t
          (subscription_ttl ext.sub_mgr session.address t.compared_at t.remaining_at)).1
        ≡ connected cfg e tier
      → Entitled ext t session
  unfolding connect_paid connect_on_chain
  paid-Entitled paid h =
      elim (Option-cases
        (subscription_ttl ext.sub_mgr session.address t.compared_at t.remaining_at)) [
          | inr (d, sub) ↦ inr (paid, inl (d, sub))
          | inl gone ↦ elim (Option-cases (paid_session_ttl ext.session_mgr session.address)) [
            | inr (d, on_chain) ↦ inr (paid, inr (d, on_chain))
            | inl unpaid ↦ absurd (ground (arith, gone, unpaid))
          ]
        ]

  connect_session-Entitled :
      (connect_session ext s key wg_ok t (some session)).1 ≡ connected cfg e tier
      → (free_for (lookup key s.peer_owners) session.id ≡ true) × Entitled ext t session
  unfolding connect_session claims_peer
  connect_session-Entitled h = elim (Bool-cases (free_for (lookup key s.peer_owners) session.id)) [
    | inr taken ↦ absurd (ground (arith, taken))
    | inl claimed ↦ (claimed, by_tier session.tier refl)
  ]
    where
      by_tier : (x : AccessTier) → session.tier ≡ x → Entitled ext t session
      by_tier AccessTier.denied x = absurd (ground (arith, x))
      by_tier AccessTier.free x = inl x
      by_tier AccessTier.paid x = paid-Entitled x (ground (arith, x))

-- A 200 answer of /vpn/connect with a peer's configuration comes only from a request whose token
-- verifies and names a stored session, neither expired, that no other session's claim on the key
-- excludes, and that is of the free tier, or of the paid tier with an active subscription or a
-- payment on the chain.
pub handle_vpn_connect-Admitted :
    (sign : Text → Text) (ext : Externals) (s : Server) (req : ConnectRequest) (wg_ok : Bool)
    (t : ConnectTimes) (cfg : PeerConfig) (e : Time) (tier : Text)
    → (handle_vpn_connect sign ext s (some req) wg_ok t).1 ≡ connected cfg e tier
    → (session : Session) × Admitted sign ext s req t session
unfolding handle_vpn_connect connect_at_gate
handle_vpn_connect-Admitted sign ext s req wg_ok t cfg e tier h = elim (Option-cases gate.1) [
  | inl gone ↦ absurd (ground (arith, gone))
  | inr (session, found) ↦ (session, of_session session found)
]
  where
    gate : Gate × Option Session
    gate = get_session_by_token sign s.gate req.session_token t.session_at

    of_session : (session : Session) → gate.1 ≡ some session → Admitted sign ext s req t session
    of_session session found =
        let (id, x, v, stored, live, token_live) =
          get_session_by_token-eq_some sign s.gate req.session_token t.session_at session found in
        let (free, entitled) =
          connect_session-Entitled ext (record s { gate = gate.0 }) req.public_key wg_ok t session
            cfg e tier (ground (arith, found)) in
        record {
          token_id = id;
          token_expiry = x;
          verified = v;
          stored = stored;
          in_time = live;
          token_in_time = token_live;
          unclaimed = free;
          entitled = entitled;
        }
