-- ===== src/Anonauth/Challenges.antt =====
-- gateway/pkg/anonauth/challenges.go, and `Challenge` of service.go. `Get` reads under the lock and
-- deletes an expired challenge by a second critical section, here `get` and `delete`.
use sovereign_vpn.Base.{ℕ, Option, none, some, [], if◌then◌else◌, text_eq}
use sovereign_vpn.Text.{Text}
use sovereign_vpn.Clock.{Time, after}
use sovereign_vpn.Map.{Map, lookup, insert, delete, sweep}

pub record Challenge : Type 0 where
  pub id : Text
  pub nonce : Text
  pub policy_epoch : ℕ
  pub proof_type : Text
  pub expires_at : Time

pub record ChallengeStore : Type 0 where
  pub challenges : Map Text Challenge

unfoldable pub new_challenge_store : ChallengeStore
new_challenge_store = record { challenges = [] }

unfoldable pub set_challenge : ChallengeStore → Challenge → ChallengeStore
set_challenge cs c = record { challenges = insert c.id c cs.challenges }

unfoldable pub delete_challenge : ChallengeStore → Text → ChallengeStore
delete_challenge cs id = record { challenges = delete id cs.challenges }

challenge_at : ChallengeStore → Text → Time → Option Challenge → ChallengeStore × Option Challenge
challenge_at cs id now none = (cs, none)
challenge_at cs id now (some c) =
    if after now c.expires_at then (delete_challenge cs id, none) else (cs, some c)

unfoldable pub get_challenge : ChallengeStore → Text → Time → ChallengeStore × Option Challenge
unfolding challenge_at
get_challenge cs id now = challenge_at cs id now (lookup id cs.challenges)

-- One tick of the cleanup routine.
unfoldable pub cleanup_challenges : ChallengeStore → Time → ChallengeStore
cleanup_challenges cs now = record {
  challenges = sweep (λ c. after now c.expires_at) cs.challenges;
}
