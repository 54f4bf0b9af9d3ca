-- ===== src/Anonauth/Service.antt =====
-- `Service` of gateway/pkg/anonauth/service.go.
use sovereign_vpn.Base.{ℕ, Bool, Option, none, some, if◌then◌else◌, text_eq, ℤ, is_positive}
use sovereign_vpn.Text.{Text, text, is_empty}
use sovereign_vpn.Clock.{Time, Duration, add}
use sovereign_vpn.Anonauth.Challenges.{
  Challenge, ChallengeStore, new_challenge_store, set_challenge, get_challenge, delete_challenge,
}
use sovereign_vpn.Anonauth.Nullifiers.{NullifierStore, new_nullifier_store, consume, release}

pub record Service : Type 0 where
  pub challenge_ttl : Duration
  pub nonce_length : ℤ
  pub proof_type : Text
  pub challenges : ChallengeStore
  pub nullifiers : NullifierStore
  pub policy_epoch : ℕ

unfoldable pub new_service : Duration → ℤ → Text → ℕ → Service
unfolding new_challenge_store new_nullifier_store
new_service challenge_ttl nonce_length proof_type policy_epoch = record {
  challenge_ttl = challenge_ttl;
  nonce_length = if is_positive nonce_length then nonce_length else ℤ.pos 16;
  proof_type = if is_empty proof_type then text "vpn_access_v1" else proof_type;
  challenges = new_challenge_store;
  nullifiers = new_nullifier_store;
  policy_epoch = policy_epoch;
}

challenge_of : Service → Text → Text → Time → Challenge
challenge_of s id nonce now = record {
  id = id;
  nonce = nonce;
  policy_epoch = s.policy_epoch;
  proof_type = s.proof_type;
  expires_at = add now s.challenge_ttl;
}

-- `NewChallenge`: the two random tokens, `none` where the random source fails.
unfoldable pub new_challenge :
    Service → Option Text → Option Text → Time → Service × Option Challenge
unfolding challenge_of
new_challenge s none _ now = (s, none)
new_challenge s (some id) none now = (s, none)
new_challenge s (some id) (some nonce) now =
    let c = challenge_of s id nonce now in
    (record s { challenges = set_challenge s.challenges c }, some c)

unfoldable pub service_get_challenge : Service → Text → Time → Service × Option Challenge
service_get_challenge s id now =
    let (cs, found) = get_challenge s.challenges id now in (record s { challenges = cs }, found)

unfoldable pub service_delete_challenge : Service → Text → Service
service_delete_challenge s id = record s { challenges = delete_challenge s.challenges id }

unfoldable pub consume_nullifier : Service → Text → Duration → Time → Service × Bool
consume_nullifier s n ttl now =
    let (ns, done) = consume s.nullifiers n ttl now in (record s { nullifiers = ns }, done)

unfoldable pub release_nullifier : Service → Text → Service
release_nullifier s n = record s { nullifiers = release s.nullifiers n }

unfoldable pub set_policy_epoch : Service → ℕ → Service
set_policy_epoch s epoch = record s { policy_epoch = epoch }
