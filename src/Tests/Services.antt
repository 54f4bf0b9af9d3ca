-- ===== src/Tests/Services.antt =====
-- Runs of the balance check, the delegation lookup, the reputation check and the enrollments, and
-- the witnesses for them.
use sovereign_vpn.Base.{
  All, List, arith, ℕ, ◌+◌, ◌*◌, ◌≡◌, refl, true, ◌||◌, none, some, [], ◌∷◌, ◌==◌, nat_eq, text_eq,
  if◌then◌else◌, ℤ, ok,
}
use sovereign_vpn.Text.{Text, text, is_empty}
use sovereign_vpn.Clock.{second}
use sovereign_vpn.Map.{lookup, kept}
use sovereign_vpn.Tests.Fixtures.{noon, hour}
use sovereign_vpn.Tests.Wallets.{eth, times, siwe, message}
use sovereign_vpn.Nftcheck.Tier.{AccessTier}
use sovereign_vpn.Nftcheck.Direct.{DirectChecker, BalanceCall, check_direct}
use sovereign_vpn.Nftcheck.Direct.Batches.{
  balances_from, tier_of_tokens, check_direct-tier_of_tokens,
}
use sovereign_vpn.Delegation as Delegations
use sovereign_vpn.Delegation.{Registries, Delegation, find_vaults, invalidate}
use sovereign_vpn.Delegation.Cache.{Keeps}
use sovereign_vpn.Delegation.Vaults.{count, count-find_vaults, find_vaults-cached}
use sovereign_vpn.Rep6529.{Api}
use sovereign_vpn.Rep6529 as Rep
use sovereign_vpn.Rep6529.Caching.{check_rep-cached}
use sovereign_vpn.Operators.Fields.{Report, Status, Enrollment}
use sovereign_vpn.Operators.Store as Enrollments
use sovereign_vpn.Operators.Store.{new_store, create, get, report, with_report}
use sovereign_vpn.Operators.Store.Sound.{Reach, IsKept, Reach-AllKept}
use sovereign_vpn.Operators.Store.Refinement.{calls-Refine, view, Shows, report_view}
use sovereign_vpn.Operators.Handlers.{State, CreateRequest, CreateInputs, answered, handle_create}
use sovereign_vpn.Operators.Handlers.Authorized.{IsAuthorized, handle_create-IsAuthorized}

-- A wallet with the cards 51 and 60 of a contract of 70.
abbrev cards : ℕ → ℕ
cards id = if id == 51 || id == 60 then 1 else 0

abbrev contract : BalanceCall
contract wallet first count = some (balances_from cards first count)

abbrev direct : DirectChecker
direct = record {
  this_card_id = ℤ.pos 60;
  max_token_id = 70;
  checker = record { cache_ttl = ℤ.pos hour; cache = [] };
}

check_direct-tier_of_tokens_example :
    check_direct contract direct 7 ≡ some (tier_of_tokens (ℤ.pos 60) cards 70)
check_direct-tier_of_tokens_example =
    check_direct-tier_of_tokens contract direct 7 cards (λ first count. refl) (omega arith)

free_found : check_direct contract direct 7 ≡ some AccessTier.free
unfolding check_direct balances_from
free_found = refl

-- The 6529 registry names the wallets 5 and 6, and delegate.xyz 6, and a wallet of another
-- contract.
abbrev registries : Registries
registries = record {
  retrieve_6529 = λ hot memes. some (5 ∷ 6 ∷ []);
  incoming = λ hot. some (
      (record { type = 1; from = 6; contract = 0 })
      ∷ (record { type = 2; from = 9; contract = 4 })
      ∷ []);
}

abbrev silent : Registries
silent = record { retrieve_6529 = λ hot memes. none; incoming = λ hot. none }

abbrev delegations : Delegations.Checker
delegations = record {
  memes_contract = 3;
  enable_dxyz = true;
  enable_6529 = true;
  cache_ttl = ℤ.pos hour;
  cache = [];
}

vaults_found : (find_vaults registries delegations 7 noon noon).1 ≡ 5 ∷ 6 ∷ []
unfolding find_vaults lookup sovereign_vpn.Map.insert
vaults_found = refl

count-find_vaults_example : count 6 (find_vaults registries delegations 7 noon noon).1 ≡ 1
unfolding lookup sovereign_vpn.Map.contains
count-find_vaults_example = count-find_vaults registries delegations 7 6 noon noon refl

-- The calls between two lookups of wallet 7.
abbrev other_finds : List Delegations.Call
other_finds =
    Delegations.finds silent 8 noon noon
    ∷ Delegations.finds silent 7 (noon + 9) noon
    ∷ Delegations.invalidates 9
    ∷ Delegations.cleans (noon + hour)
    ∷ []

other_finds-Keeps : All (Keeps 7 (noon + hour)) other_finds
other_finds-Keeps = ((λ e. omega arith), ((λ e. omega arith), (omega arith, (omega arith, tt))))

find_vaults-cached_example :
    let c' = Delegations.run (find_vaults registries delegations 7 noon noon).0 other_finds in
    (find_vaults silent c' 7 (noon + 1) noon ≡ (c', 5 ∷ 6 ∷ []))
    × ((find_vaults silent (invalidate c' 7) 7 (noon + 1) noon).1 ≡ [])
unfolding lookup find_vaults invalidate sovereign_vpn.Map.insert
find_vaults-cached_example =
    find_vaults-cached registries silent delegations 7 noon noon other_finds (noon + 1) noon refl
      other_finds-Keeps

-- An API that answers with one rating, and one that fails.
abbrev pub rating_api : ℤ → Api
rating_api rating = record {
  get = λ url. some (record { status = 200; body = [] });
  path_escape = λ s. s;
  query_escape = λ s. s;
  decode_rating = λ body. some rating;
  decode_identity = λ body. none;
  decode_breakdown = λ body. none;
}

abbrev pub rep : Rep.Checker
rep = record {
  base_url = text "https://rep";
  category = text "VPN User";
  min_rep = ℤ.pos 10;
  cache_ttl = ℤ.pos hour;
  timeout = ℤ.pos (10 * second);
  cache = [];
}

check_rep-cached_example :
    let first = Rep.check_rep (rating_api (ℤ.pos 12)) rep (text "0x7") noon noon noon in
    let again = Rep.check_rep (rating_api (ℤ.negsuc 0)) first.0 (text "0x7") (noon + 1) noon noon in
    (first.1 ≡ some (record { rating = ℤ.pos 12; eligible = true; checked_at = noon }))
    × (again.1 ≡ some (record { rating = ℤ.pos 12; eligible = true; checked_at = noon }))
unfolding lookup Rep.check_rep
check_rep-cached_example =
    check_rep-cached (rating_api (ℤ.pos 12)) (rating_api (ℤ.negsuc 0)) rep (text "0x7") noon noon
      noon (noon + 1) noon noon refl refl

abbrev pub healthy_report : Report
healthy_report = record {
  operator = [];
  region = [];
  endpoint = text " 1.2.3.4:51820 ";
  gateway_url = [];
  public_ip = [];
  gateway_port = [];
  wireguard_port = [];
  wireguard_pub_key = [];
  health_ok = true;
  health_status = text "ok";
  installer_version = [];
  reported_at = 0;
}

abbrev pub enrolled : Enrollments.Store
enrolled =
    (create eth (new_store (ℤ.pos hour)) (text "0x7") (text "EU-1 ") (some (text "T")) noon).0

abbrev pub reported : Enrollments.Store
reported = (report eth enrolled (text "T") healthy_report (noon + 1)).0

abbrev pub enrollment : Enrollment
enrollment = record {
  token = text "T";
  operator = text "0x7";
  region = text "eu-1";
  status = Status.healthy;
  created_at = noon;
  expires_at = noon + hour;
  last_report_at = some (noon + 1);
  report = some (record healthy_report {
    region = text "eu-1";
    endpoint = text "1.2.3.4:51820";
    reported_at = noon + 1;
  });
}

is_reported : lookup (text "T") reported.records ≡ some enrollment
unfolding lookup report sovereign_vpn.Map.sweep create
    sovereign_vpn.Operators.Fields.normalize_operator sovereign_vpn.Text.trim_space
    sovereign_vpn.Operators.Fields.normalize_region sovereign_vpn.Map.insert new_store
    sovereign_vpn.Operators.Fields.normalize_report
is_reported = refl

Reach-AllKept_example : IsKept eth (ℤ.pos hour) (text "T") enrollment
unfolding report lookup sovereign_vpn.Map.sweep create
    sovereign_vpn.Operators.Fields.normalize_operator sovereign_vpn.Text.trim_space
    sovereign_vpn.Operators.Fields.normalize_region sovereign_vpn.Map.insert new_store
    sovereign_vpn.Operators.Fields.normalize_report
Reach-AllKept_example =
    Reach-AllKept eth
      (Reach.reports (text "T") healthy_report (noon + 1) (
        Reach.creates (text "0x7") (text "EU-1 ") (some (text "T")) noon
          (Reach.starts (ℤ.pos hour))))
      (text "T") enrollment is_reported

calls-Refine_example :
    ((get enrolled (text "T") (noon + 1)).1 ≡ view enrolled (noon + 1) (text "T"))
    × Shows (get enrolled (text "T") (noon + 1)).0 (noon + 1) (view enrolled (noon + 1))
    × ((report eth enrolled (text "T") healthy_report (noon + 1)).1 ≡ ok enrollment)
    × Shows
        (report eth enrolled (text "T") healthy_report (noon + 1)).0
        (noon + 1)
        (report_view eth (view enrolled (noon + 1)) (text "T") healthy_report (noon + 1)).0
unfolding sovereign_vpn.Text.trim_space report_view view lookup create
    sovereign_vpn.Operators.Fields.normalize_operator
    sovereign_vpn.Operators.Fields.normalize_region sovereign_vpn.Map.insert sovereign_vpn.Map.sweep
    new_store sovereign_vpn.Operators.Fields.normalize_report with_report
calls-Refine_example = calls-Refine eth enrolled (text "T") healthy_report (noon + 1)

abbrev operator_state : State
operator_state = record { siwe = some siwe; enrollments = new_store (ℤ.pos hour) }

abbrev create_request : CreateRequest
create_request = record {
  operator = text " 0x7";
  region = text "EU-1";
  message = message;
  signature = text "0x0";
}

abbrev create_inputs : CreateInputs
create_inputs = record {
  drawn = some (text "T");
  verified_at = noon;
  consumed_at = noon;
  created_at = noon;
}

abbrev new_enrollment : Enrollment
new_enrollment = record enrollment { status = Status.created; last_report_at = none; report = none }

is_answered :
    (handle_create eth times operator_state (some create_request) create_inputs).1
    ≡ answered 201 new_enrollment
unfolding handle_create sovereign_vpn.Operators.Fields.normalize_operator
    sovereign_vpn.Text.trim_space sovereign_vpn.Siwe.Message.parse_message sovereign_vpn.Text.split
    sovereign_vpn.Strings.before_text sovereign_vpn.Strings.cut_prefix sovereign_vpn.Text.parse_int
    sovereign_vpn.Siwe.NonceStore.consume lookup sovereign_vpn.Operators.Fields.normalize_region
    new_store
is_answered = refl

handle_create-IsAuthorized_example :
    IsAuthorized eth times operator_state
      (handle_create eth times operator_state (some create_request) create_inputs).0
      create_request
      create_inputs
      new_enrollment
    × (◌≡◌ {A = ℕ} 201 201)
handle_create-IsAuthorized_example =
    handle_create-IsAuthorized eth times operator_state create_request create_inputs 201
      new_enrollment is_answered
