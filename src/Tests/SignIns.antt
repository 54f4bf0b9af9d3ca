-- ===== src/Tests/SignIns.antt =====
-- Runs of sign-ins at the server, and the witnesses for them.
use sovereign_vpn.Base.{◌+◌, ◌≡◌, refl, ap, none, some, nat_eq, text_eq, ℤ}
use sovereign_vpn.Text.{Text, text, is_empty}
use sovereign_vpn.Tests.Fixtures.{noon, hour, gateway, externals, signature}
use sovereign_vpn.Tests.Wallets.{eth, times, message}
use sovereign_vpn.Tests.Services.{rating_api, rep}
use sovereign_vpn.Nftcheck.Tier.{AccessTier}
use sovereign_vpn.Server.State.{Server}
use sovereign_vpn.Server.Auth.{
  SignInExternals, VerifyRequest, VerifyTimes, granted, banned, handle_verify,
}
use sovereign_vpn.Server.Auth.Granted.{IsGranted, handle_verify-IsGranted}
use sovereign_vpn.Server.Auth.Refused.{is_granted, SameAccess, handle_verify-SameAccess}

-- A chain on which every wallet holds the free card.
abbrev services : ℤ → SignInExternals
services rating = record {
  eth = eth;
  times = times;
  rep_api = rating_api rating;
  query = λ wallet. some AccessTier.free;
  vaults = λ wallet. none;
  others = externals;
}

abbrev strict : Server
strict = record gateway { user_rep = some rep }

abbrev request : VerifyRequest
request = record { message = message; signature = text "0x0"; zk_proof = none }

abbrev verify_times : VerifyTimes
verify_times = record {
  verified_at = noon;
  consumed_at = noon;
  read_at = noon;
  checked_at = noon;
  cached_at = noon;
  rep_read_at = noon;
  rep_checked_at = noon;
  rep_stored_at = noon;
  created_at = noon;
}

is_let_in :
    (handle_verify signature
      (services (ℤ.pos 5))
      strict
      (some request)
      (some (text "z1"))
      verify_times).1
    ≡ granted (text "0x7") (text "v1.z1.1700003600.c2ln") (text "free") (noon + hour)
unfolding handle_verify sovereign_vpn.Siwe.Message.parse_message sovereign_vpn.Text.split
    sovereign_vpn.Strings.before_text sovereign_vpn.Strings.cut_prefix sovereign_vpn.Text.trim_space
    sovereign_vpn.Text.parse_int sovereign_vpn.Siwe.NonceStore.consume sovereign_vpn.Map.lookup
    sovereign_vpn.Nftcheck.Checker.check sovereign_vpn.Nftcheck.Checker.cached
    sovereign_vpn.Server.Tier.effective_tier sovereign_vpn.Rep6529.check_rep
    sovereign_vpn.Nftgate.Gate.create_session sovereign_vpn.Nftgate.Token.new_session_token
    sovereign_vpn.Text.format_uint sovereign_vpn.Nftcheck.Tier.tier_string
is_let_in = refl

handle_verify-IsGranted_example :
    IsGranted signature
      (services (ℤ.pos 5))
      strict
      (handle_verify signature
        (services (ℤ.pos 5))
        strict
        (some request)
        (some (text "z1"))
        verify_times).0
      request
      (some (text "z1"))
      verify_times
      (text "0x7")
      (text "v1.z1.1700003600.c2ln")
      (text "free")
      (noon + hour)
handle_verify-IsGranted_example =
    handle_verify-IsGranted signature (services (ℤ.pos 5)) strict request (some (text "z1"))
      verify_times (text "0x7") (text "v1.z1.1700003600.c2ln") (text "free") (noon + hour) is_let_in

is_banned :
    (handle_verify signature
      (services (ℤ.negsuc 0))
      strict
      (some request)
      (some (text "z1"))
      verify_times).1
    ≡ banned (text "0x7")
unfolding handle_verify sovereign_vpn.Siwe.Message.parse_message sovereign_vpn.Text.split
    sovereign_vpn.Strings.before_text sovereign_vpn.Strings.cut_prefix sovereign_vpn.Text.trim_space
    sovereign_vpn.Text.parse_int sovereign_vpn.Siwe.NonceStore.consume sovereign_vpn.Map.lookup
    sovereign_vpn.Nftcheck.Checker.check sovereign_vpn.Nftcheck.Checker.cached
    sovereign_vpn.Server.Tier.effective_tier sovereign_vpn.Rep6529.check_rep
is_banned = refl

handle_verify-SameAccess_example :
    SameAccess strict
      (handle_verify signature
        (services (ℤ.negsuc 0))
        strict
        (some request)
        (some (text "z1"))
        verify_times).0
handle_verify-SameAccess_example =
    handle_verify-SameAccess signature (services (ℤ.negsuc 0)) strict (some request)
      (some (text "z1")) verify_times (ap is_granted is_banned)
