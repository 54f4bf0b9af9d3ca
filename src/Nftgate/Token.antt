-- ===== src/Nftgate/Token.antt =====
-- Session tokens, `newSessionToken` and `parseAndVerifyToken` of
-- gateway/pkg/nftgate/middleware.go: "v1", the session's id, its expiry in Unix seconds and a
-- signature, joined by dots. `sign` is the keyed HMAC-SHA256 of the payload in unpadded base64.
pub mod Laws
use sovereign_vpn.Base.{
  ℕ, Bool, true, false, not, ◌&&◌, Option, none, some, ◌==◌, text_eq, if◌then◌else◌, List, [], ◌∷◌,
  ◌++◌, ℤ,
}
use sovereign_vpn.Text.{Text, text, split, join, format_uint, parse_int}
use sovereign_vpn.Clock.{Time, unix, to_unix}

unfoldable pub payload : Text → Time → Text
payload id expires_at = text "v1." ++ (id ++ (text "." ++ format_uint (to_unix expires_at)))

-- `id` is the base64 text of the 24 bytes that `rand.Read` gives, `none` its failure.
module _ (sign : Text → Text) where
  unfoldable pub new_session_token : Option Text → Time → Option (Text × Text)
  unfolding payload
  new_session_token none expires_at = none
  new_session_token (some id) expires_at =
      some (id, payload id expires_at ++ (text "." ++ sign (payload id expires_at)))

  read_expiry : Text → Option ℤ → Option (Text × Time)
  read_expiry id none = none
  read_expiry id (some seconds) = some (id, unix seconds)

  verify_parts : List Text → Option (Text × Time)
  unfolding read_expiry
  verify_parts (version ∷ id ∷ expiry ∷ signature ∷ []) =
      if not (version == text "v1")
      then none
      else if not (sign (join b'.' (version ∷ id ∷ expiry ∷ [])) == signature)
      then none
      else read_expiry id (parse_int expiry)
  verify_parts _ = none

  unfoldable pub parse_and_verify_token : Text → Option (Text × Time)
  unfolding verify_parts
  parse_and_verify_token token = verify_parts (split b'.' token)
