-- ===== src/Nftgate/Middleware.antt =====
-- `HTTPMiddleware` of gateway/pkg/nftgate/middleware.go: which requests reach the handler behind
-- it, and with which session in their context.
pub mod Admission
use sovereign_vpn.Base.{Bool, not, Option, none, some, ◌==◌, ℕ, if◌then◌else◌}
use sovereign_vpn.Text.{Text, is_empty}
use sovereign_vpn.Clock.{Time}
use sovereign_vpn.Nftcheck.Tier.{AccessTier, tier_eq}
use sovereign_vpn.Nftgate.Store.{Session}
use sovereign_vpn.Nftgate.Gate.{Gate, get_session_by_token}

pub data Verdict : Type 0 where
  -- passed on, with the session that is attached
  served : Option Session → Verdict
  refused : ℕ → Verdict

middleware_session : Gate × Option Session → Gate × Verdict
middleware_session (g, none) = (g, refused 401)
middleware_session (g, some s) =
    (g, if s.tier == AccessTier.denied then refused 403 else served (some s))

-- `is_post` is `r.Method == http.MethodPost`, `token` the X-Session-Token header.
unfoldable pub http_middleware : (Text → Text) → Gate → Bool → Text → Time → Gate × Verdict
unfolding middleware_session
http_middleware sign g is_post token now =
    if not is_post
    then (g, served none)
    else if is_empty token
    then (g, refused 401)
    else middleware_session (get_session_by_token sign g token now)
