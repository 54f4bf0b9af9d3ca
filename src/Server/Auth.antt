-- ===== src/Server/Auth.antt =====
-- The sign-in handlers of gateway/pkg/server/server.go: `handleChallenge`,
-- `handleAnonymousChallenge`, `handleVerify`, `handleVPNStatus` and `handleHealth`. A request is
-- `none` where its body does not decode.
pub mod Granted
pub mod Outcome
pub mod Search
pub mod Refused
use sovereign_vpn.Base.{
  ℕ, ◌/◌, Bool, true, false, not, ◌&&◌, ◌||◌, Option, none, some, List, [], ◌∷◌, ◌==◌, text_eq,
  if◌then◌else◌, ℤ, int_leb, Result, ok, err,
}
use sovereign_vpn.Text.{Text, text, is_empty, trim_space}
use sovereign_vpn.Strings.{fields, equal_fold}
use sovereign_vpn.Clock.{Time, Duration, second}
use sovereign_vpn.Map.{size}
use sovereign_vpn.External.{Address, Ethereum, TimeText}
use sovereign_vpn.Anonauth.Service
use sovereign_vpn.Anonauth.Challenges.{Challenge}
use sovereign_vpn.Siwe.Message.{format_message}
use sovereign_vpn.Siwe.Service as Siwe
use sovereign_vpn.Rep6529
use sovereign_vpn.Nftcheck.Tier.{AccessTier, tier_string, tier_eq}
use sovereign_vpn.Nftcheck.Checker
use sovereign_vpn.Nftcheck.Checker.{Query, CheckResult}
use sovereign_vpn.Nftgate.Store.{Session, store_len}
use sovereign_vpn.Nftgate.Gate.{Gate, create_session, get_session_by_token}
use sovereign_vpn.Server.State.{
  Server, Externals, ZkClient, SessionManager, ChainCall, open_free_session, log_call,
}
use sovereign_vpn.Server.Tier.{effective_tier, tier_from_zk_proof}

-- The services that a sign-in calls.
pub record SignInExternals : Type 0 where
  pub eth : Ethereum
  pub times : TimeText
  pub rep_api : Rep6529.Api
  -- the chain query of the checker, and the delegation finder's vaults, if there is a finder
  pub query : Query
  pub vaults : Address → Option (List Address)
  pub others : Externals

pub record ZkProof : Type 0 where
  pub proof_type : Text
  pub proof : Text
  pub public_signals : List Text

pub record VerifyRequest : Type 0 where
  pub message : Text
  pub signature : Text
  pub zk_proof : Option ZkProof

-- The readings of the clock, in their order on the paths that make them.
pub record VerifyTimes : Type 0 where
  pub verified_at : Time
  pub consumed_at : Time
  pub read_at : Time
  pub checked_at : Time
  pub cached_at : Time
  pub rep_read_at : Time
  pub rep_checked_at : Time
  pub rep_stored_at : Time
  pub created_at : Time

pub data AuthReply : Type 0 where
  refused : ℕ → Text → AuthReply
  -- 401 with the message of the error
  unauthorized : Siwe.VerifyError → AuthReply
  -- 403 with the address
  denied banned : Text → AuthReply
  -- 200 with the address, the token, the tier and the expiry
  granted : Text → Text → Text → Time → AuthReply

-- What the check of the access comes to.
pub data Found : Type 0 where
  unavailable : ℕ → Text → Found
  invalid_proof : Found
  tier_found : AccessTier → Found

zk_tier : Server → ZkProof → Option Bool → Found
zk_tier s p none = unavailable 502 (text "ZK verification service unavailable")
zk_tier s p (some false) = invalid_proof
zk_tier s p (some true) =
    tier_found (tier_from_zk_proof s.this_card_id p.proof_type p.public_signals)

checked_tier : Server → Checker.Checker × Option CheckResult → Server × Found
checked_tier s (checker, none) =
    (record s { checker = checker }, unavailable 500 (text "failed to check NFT access"))
checked_tier s (checker, some r) = (record s { checker = checker }, tier_found r.tier)

check_chain : SignInExternals → Server → Address → VerifyTimes → Server × Found
unfolding checked_tier
check_chain ext s wallet t = checked_tier s (
    Checker.check ext.query (ext.vaults wallet) s.checker wallet t.read_at t.checked_at t.cached_at)

-- Step 2: the proof if the request has one and a ZK client is configured, else the chain.
unfoldable pub find_tier :
    SignInExternals
    → Server
    → Address
    → VerifyTimes
    → Option ZkClient
    → Option ZkProof
    → Server × Found
unfolding zk_tier check_chain
find_tier ext s wallet t (some zk) (some p) =
    (s, zk_tier s p (zk.verify_proof p.proof_type p.proof p.public_signals))
find_tier ext s wallet t none p = check_chain ext s wallet t
find_tier ext s wallet t (some zk) none = check_chain ext s wallet t

-- A negative rating; an error of the check lets the wallet pass.
abbrev pub is_negative : Option Rep6529.RepResult → Bool
is_negative none = false
is_negative (some r) = not (int_leb (ℤ.pos 0) r.rating)

pub check_ban :
    SignInExternals → VerifyTimes → Text → Option Rep6529.Checker → Option Rep6529.Checker × Bool
check_ban ext t who none = (none, false)
check_ban ext t who (some c) =
    let (c', r) =
      Rep6529.check_rep ext.rep_api c who t.rep_read_at t.rep_checked_at t.rep_stored_at in
    (some c', is_negative r)

-- `uint64(d.Seconds())`, for a lifetime that is not negative
abbrev pub whole_seconds : Duration → ℕ
whole_seconds (ℤ.pos d) = d / second
whole_seconds (ℤ.negsuc d) = 0

record_free : Server → Address → AccessTier → Option SessionManager → Server
record_free s wallet tier none = s
record_free s wallet tier (some _) =
    if tier == AccessTier.free
    then log_call s (open_free_session wallet (whole_seconds s.credential_ttl))
    else s

-- Steps 4 and 5.
session_created :
    SignInExternals → Server → Address → AccessTier → Gate × Option Session → Server × AuthReply
unfolding record_free
session_created ext s wallet tier (gate, none) =
    (record s { gate = gate }, refused 500 (text "failed to create session"))
session_created ext s wallet tier (gate, some session) = (
  record_free (record s { gate = gate }) wallet tier ext.others.session_mgr,
  granted (ext.eth.address_hex wallet) session.token (tier_string tier) session.expires_at,
)

ban_checked :
    (Text → Text)
    → SignInExternals
    → Server
    → Address
    → AccessTier
    → Option Text
    → Time
    → Option Rep6529.Checker × Bool
    → Server × AuthReply
unfolding session_created
ban_checked sign ext s wallet tier drawn now (rep, true) =
    (record s { user_rep = rep }, banned (ext.eth.address_hex wallet))
ban_checked sign ext s wallet tier drawn now (rep, false) =
    session_created ext (record s { user_rep = rep }) wallet tier
      (create_session sign s.gate wallet tier drawn now)

-- From step 3 on.
pub with_tier :
    (Text → Text)
    → SignInExternals
    → Address
    → Option Text
    → VerifyTimes
    → Server × Found
    → Server × AuthReply
unfolding ban_checked check_ban
with_tier sign ext wallet drawn t (s, unavailable code message) = (s, refused code message)
with_tier sign ext wallet drawn t (s, invalid_proof) = (s, denied (ext.eth.address_hex wallet))
with_tier sign ext wallet drawn t (s, tier_found found) =
    let tier = effective_tier s.free_tier found in
    if tier == AccessTier.denied
    then (s, denied (ext.eth.address_hex wallet))
    else ban_checked sign ext s wallet tier drawn t.created_at
        (check_ban ext t (ext.eth.address_hex wallet) s.user_rep)

pub with_wallet :
    (Text → Text)
    → SignInExternals
    → Server
    → Option ZkProof
    → Option Text
    → VerifyTimes
    → Siwe.Service × Result Siwe.VerifyError Address
    → Server × AuthReply
unfolding with_tier find_tier
with_wallet sign ext s proof drawn t (siwe, err e) = (record s { siwe = siwe }, unauthorized e)
with_wallet sign ext s proof drawn t (siwe, ok wallet) =
    with_tier sign ext wallet drawn t
      (find_tier ext (record s { siwe = siwe }) wallet t ext.others.zk_client proof)

-- `handleVerify`; `sign` is the keyed signature of the gate and `drawn` the random session id.
unfoldable pub handle_verify :
    (Text → Text)
    → SignInExternals
    → Server
    → Option VerifyRequest
    → Option Text
    → VerifyTimes
    → Server × AuthReply
unfolding with_wallet Siwe.verify
handle_verify sign ext s none drawn t = (s, refused 400 (text "invalid request body"))
handle_verify sign ext s (some req) drawn t =
    if is_empty req.message || is_empty req.signature
    then (s, refused 400 (text "message and signature are required"))
    else with_wallet sign ext s req.zk_proof drawn t
        (Siwe.verify ext.eth ext.times s.siwe req.message req.signature t.verified_at t.consumed_at)
