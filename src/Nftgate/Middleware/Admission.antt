-- ===== src/Nftgate/Middleware/Admission.antt =====
-- Which requests the HTTP middleware of the gate passes on.
use sovereign_vpn.Base.{
  ◌≤◌, ◌≡◌, ◌≢◌, refl, inl, inr, true, Option, none, some, ◌==◌, nat_eq, text_eq, arith, Bool-cases,
  ne_of_beq-false,
}
use sovereign_vpn.Text.{Text, is_empty}
use sovereign_vpn.Clock.{Time}
use sovereign_vpn.Map.{lookup}
use sovereign_vpn.Nftcheck.Tier.{AccessTier, tier_eq}
use sovereign_vpn.Nftgate.Store.{Session}
use sovereign_vpn.Nftgate.Gate.{Gate, get_session_by_token}
use sovereign_vpn.Nftgate.Gate.Sessions.{get_session_by_token-eq_some}
use sovereign_vpn.Nftgate.Token.{parse_and_verify_token}
use sovereign_vpn.Nftgate.Middleware.{served, http_middleware, middleware_session}

module _ (sign : Text → Text) (g : Gate) (token : Text) (now : Time) (o : Option Session) where
  middleware_session-served :
      (r : Gate × Option Session)
      → (middleware_session r).1 ≡ served o
      → (s : Session) × (o ≡ some s) × (r.1 ≡ some s) × (s.tier ≢ AccessTier.denied)
  unfolding middleware_session
  middleware_session-served (g', none) h = absurd (ground (arith))
  middleware_session-served (g', some s) h = elim (Bool-cases (s.tier == AccessTier.denied)) [
    | inl denied ↦ absurd (ground (arith, denied))
    | inr allowed ↦
        (s, ground (arith, allowed), refl, ne_of_beq-false s.tier AccessTier.denied allowed)
  ]

  -- The middleware passes a POST request on only with the session that its token yields: a stored
  -- one under the id of the verified token, not expired, and of a tier that is not denied.
  pub http_middleware-served :
      (http_middleware sign g true token now).1 ≡ served o
      → (s : Session) × (id : Text) × (t : Time) × (o ≡ some s)
        × (parse_and_verify_token sign token ≡ some (id, t))
        × (lookup id g.store.sessions ≡ some s)
        × (now ≤ s.expires_at)
        × (s.tier ≢ AccessTier.denied)
  unfolding http_middleware
  http_middleware-served h = elim (Bool-cases (is_empty token)) [
    | inl missing ↦ absurd (ground (arith, missing))
    | inr given ↦
        (let (s, same, found, allowed) =
            middleware_session-served (get_session_by_token sign g token now)
              (ground (arith, given)) in
          let (id, t, verified, stored, live, _) =
            get_session_by_token-eq_some sign g token now s found in
          (s, id, t, same, verified, stored, live, allowed))
  ]
