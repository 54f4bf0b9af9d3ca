-- ===== src/Rep6529.antt =====
-- gateway/pkg/rep6529/rep.go: the reputation checker. The HTTP client, the escaping of URLs and the
-- decoding of JSON are parameters.
pub mod Caching
use sovereign_vpn.Base.{
  ◌*◌, ℕ, Bool, true, false, not, Option, none, some, List, [], ◌∷◌, ◌++◌, ◌==◌, nat_eq, int_eq,
  if◌then◌else◌, ℤ, int_leb, text_eq,
}
use sovereign_vpn.Text.{Text, text, is_empty}
use sovereign_vpn.Clock.{Time, Duration, add, before, second, minute}
use sovereign_vpn.Map.{Map, lookup, insert, delete}

pub record Config : Type 0 where
  pub base_url : Text
  pub category : Text
  pub min_rep : ℤ
  pub cache_ttl : Duration
  pub http_timeout : Duration

pub record RepResult : Type 0 where
  pub rating : ℤ
  pub eligible : Bool
  pub checked_at : Time

pub record Identity : Type 0 where
  pub handle : Text
  pub rep : ℤ
  pub tdh : ℤ
  pub level : ℤ
  pub display : Text

pub record RepContribution : Type 0 where
  pub handle : Text
  pub tdh : ℤ
  pub rating : ℤ
  pub level : ℤ
  pub wallets : List Text

pub record CacheEntry : Type 0 where
  pub result : RepResult
  pub expires_at : Time

pub record Checker : Type 0 where
  pub base_url : Text
  pub category : Text
  pub min_rep : ℤ
  pub cache_ttl : Duration
  pub timeout : Duration
  pub cache : Map Text CacheEntry

-- A response: its status and its body.
pub record Response : Type 0 where
  pub status : ℕ
  pub body : Text

-- `none` is a request that cannot be made or fails, and a body that does not decode.
pub record Api : Type 0 where
  pub get : Text → Option Response
  pub path_escape : Text → Text
  pub query_escape : Text → Text
  pub decode_rating : Text → Option ℤ
  pub decode_identity : Text → Option Identity
  pub decode_breakdown : Text → Option (List RepContribution)

abbrev pub default_base_url : Text
default_base_url = text "https://api.6529.io/api"

abbrev pub default_category : Text
default_category = text "VPN Operator"

abbrev pub or_text : Text → Text → Text
or_text s default = if is_empty s then default else s

abbrev pub or_int : ℤ → ℤ → ℤ
or_int n default = if n == ℤ.pos 0 then default else n

unfoldable pub new_checker : Config → Checker
new_checker cfg = record {
  base_url = or_text cfg.base_url default_base_url;
  category = or_text cfg.category default_category;
  min_rep = or_int cfg.min_rep (ℤ.pos 6529);
  cache_ttl = or_int cfg.cache_ttl (ℤ.pos (5 * minute));
  timeout = or_int cfg.http_timeout (ℤ.pos (10 * second));
  cache = [];
}

rating_url : Api → Checker → Text → Text
rating_url api c who =
    c.base_url
    ++ text "/profiles/"
    ++ api.path_escape who
    ++ text "/rep/rating?category="
    ++ api.query_escape c.category

-- The body of a response with status 200.
body_of : Option Response → Option Text
body_of none = none
body_of (some r) = if r.status == 200 then some r.body else none

-- The rating by the API; the errors are told apart only by their messages.
pub query_rating : Api → Checker → Text → Option ℤ
unfolding body_of rating_url
query_rating api c who = elim (body_of (api.get (rating_url api c who))) [
  | none ↦ none
  | some body ↦ api.decode_rating body
]

fresh_result : Time → Option CacheEntry → Option RepResult
fresh_result now none = none
fresh_result now (some e) = if before now e.expires_at then some e.result else none

store_rating : Checker → Text → Time → Time → Option ℤ → Checker × Option RepResult
store_rating c who checked_at stored_at none = (c, none)
store_rating c who checked_at stored_at (some rating) =
    let result : RepResult = record {
      rating = rating;
      eligible = int_leb c.min_rep rating;
      checked_at = checked_at;
    } in
    let entry : CacheEntry = record { result = result; expires_at = add stored_at c.cache_ttl } in
    (record c { cache = insert who entry c.cache }, some result)

check_uncached : Api → Checker → Text → Time → Time → Option RepResult → Checker × Option RepResult
unfolding query_rating store_rating
check_uncached api c who checked_at stored_at (some result) = (c, some result)
check_uncached api c who checked_at stored_at none =
    store_rating c who checked_at stored_at (query_rating api c who)

-- `CheckRep`, with its three readings of the clock.
unfoldable pub check_rep : Api → Checker → Text → Time → Time → Time → Checker × Option RepResult
unfolding fresh_result check_uncached
check_rep api c who read_at checked_at stored_at =
    check_uncached api c who checked_at stored_at (fresh_result read_at (lookup who c.cache))

identity_of : Api → Option Response → Option (Option Identity)
identity_of api none = none
identity_of api (some r) =
    if r.status == 404
    then some none
    else if not (r.status == 200)
    then none
    else elim (api.decode_identity r.body) [ none ↦ none | some identity ↦ some (some identity) ]

-- `GetIdentity`; the inner `none` is a wallet that the API does not know.
unfoldable pub get_identity : Api → Checker → Text → Option (Option Identity)
unfolding identity_of
get_identity api c who =
    identity_of api (api.get (c.base_url ++ text "/identities/" ++ api.path_escape who))

unfoldable pub get_rep_breakdown : Api → Checker → Text → Option (List RepContribution)
unfolding body_of
get_rep_breakdown api c who =
    let url =
      c.base_url
      ++ text "/profiles/"
      ++ api.path_escape who
      ++ text "/rep/ratings/by-rater?category="
      ++ api.query_escape c.category
      ++ text "&page_size=50&order=DESC&order_by=rating" in
    elim (body_of (api.get url)) [ none ↦ none | some body ↦ api.decode_breakdown body ]

abbrev pub min_rep_required : Checker → ℤ
min_rep_required c = c.min_rep

unfoldable pub invalidate_cache : Checker → Text → Checker
invalidate_cache c who = record c { cache = delete who c.cache }
