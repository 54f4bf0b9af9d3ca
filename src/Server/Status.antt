-- ===== src/Server/Status.antt =====
-- The challenge and status handlers of gateway/pkg/server/server.go: `handleChallenge`,
-- `handleAnonymousChallenge`, `handleVPNStatus` and `handleHealth`.
use sovereign_vpn.Base.{ℕ, Bool, true, false, Option, none, some, List, [], ◌∷◌, if◌then◌else◌}
use sovereign_vpn.Text.{Text, text, is_empty, trim_space}
use sovereign_vpn.Strings.{fields, equal_fold}
use sovereign_vpn.Clock.{Time}
use sovereign_vpn.External.{TimeText}
use sovereign_vpn.Anonauth.Challenges as Anonymous
use sovereign_vpn.Anonauth.Service as Anonauth
use sovereign_vpn.Siwe.Message.{Challenge, format_message}
use sovereign_vpn.Siwe.Service as Siwe
use sovereign_vpn.Nftcheck.Tier.{tier_string}
use sovereign_vpn.Nftgate.Store.{Session}
use sovereign_vpn.Nftgate.Access.{active_session_count}
use sovereign_vpn.Nftgate.Gate.{Gate, get_session_by_token}
use sovereign_vpn.Wireguard.Manager.{peer_count}
use sovereign_vpn.Server.State.{Server, Externals}
use sovereign_vpn.Server.Policy.{sync_policy}
use sovereign_vpn.Server.Signals.{derive_challenge_hash}

pub data InfoReply : Type 0 where
  refused : ℕ → Text → InfoReply
  -- the message and the nonce
  challenged : Text → Text → InfoReply
  -- the challenge and its hash
  anonymous_challenged : Anonymous.Challenge → Text → InfoReply
  not_connected : InfoReply
  -- the tier and the expiry
  connected : Text → Time → InfoReply
  -- the time, the sessions, the peers, and whether the free tier is enabled
  healthy : Time → ℕ → ℕ → Bool → InfoReply

challenge_made : TimeText → Server → Text → Siwe.Service × Option Challenge → Server × InfoReply
challenge_made times s address (siwe, none) =
    (record s { siwe = siwe }, refused 500 (text "failed to generate challenge"))
challenge_made times s address (siwe, some c) =
    (record s { siwe = siwe }, challenged (format_message times c address) c.nonce)

-- The address of the request, `none` where the body does not decode, the drawn nonce, and the
-- clock at its storing and at the challenge.
unfoldable pub handle_challenge :
    TimeText → Server → Option Text → Option Text → Time → Time → Server × InfoReply
unfolding challenge_made Siwe.new_challenge
handle_challenge times s none drawn stored_at issued_at =
    (s, refused 400 (text "invalid request body"))
handle_challenge times s (some address) drawn stored_at issued_at =
    if is_empty address
    then (s, refused 400 (text "address is required"))
    else challenge_made times s address (Siwe.new_challenge s.siwe drawn stored_at issued_at)

anonymous_made :
    (Text → Text) → Server → Anonauth.Service × Option Anonymous.Challenge → Server × InfoReply
anonymous_made hash s (anon_auth, none) = (
  record s { anon_auth = anon_auth },
  refused 500 (text "failed to generate anonymous challenge"),
)
anonymous_made hash s (anon_auth, some c) =
    (record s { anon_auth = anon_auth }, anonymous_challenged c (derive_challenge_hash hash c))

anonymous_synced :
    (Text → Text) → Option Text → Option Text → Time → Server × Bool × Bool → Server × InfoReply
unfolding anonymous_made
anonymous_synced hash id nonce_text now (s, false, queued) =
    (s, refused 503 (text "anonymous policy metadata unavailable"))
anonymous_synced hash id nonce_text now (s, true, queued) =
    anonymous_made hash s (Anonauth.new_challenge s.anon_auth id nonce_text now)

-- The two random tokens, the five readings of the policy cache, and the one of the challenge.
unfoldable pub handle_anonymous_challenge :
    (Text → Text)
    → Externals
    → Server
    → Option Text
    → Option Text
    → Time
    → Time
    → Time
    → Time
    → Time
    → Time
    → Server × InfoReply
unfolding anonymous_synced
handle_anonymous_challenge hash ext s id nonce_text t0 t1 t2 t3 t4 now =
    anonymous_synced hash id nonce_text now (sync_policy ext.zk_client s t0 t1 t2 t3 t4)

bearer_of : List Text → Text
bearer_of (scheme ∷ token ∷ []) = if equal_fold scheme (text "Bearer") then token else []
bearer_of _ = []

-- `bearerToken` of the Authorization header
unfoldable pub bearer_token : Text → Text
unfolding bearer_of
bearer_token header =
    if is_empty (trim_space header) then [] else bearer_of (fields (trim_space header))

status_of : Server → Gate × Option Session → Server × InfoReply
status_of s (gate, none) = (record s { gate = gate }, not_connected)
status_of s (gate, some session) =
    (record s { gate = gate }, connected (tier_string session.tier) session.expires_at)

unfoldable pub handle_vpn_status : (Text → Text) → Server → Text → Time → Server × InfoReply
unfolding status_of bearer_token
handle_vpn_status sign s header now =
    if is_empty (bearer_token header)
    then (s, refused 400 (text "Authorization Bearer token required"))
    else status_of s (get_session_by_token sign s.gate (bearer_token header) now)

unfoldable pub handle_health : Server → Time → InfoReply
handle_health s now = healthy now (active_session_count s.gate) (peer_count s.wg) s.free_tier
