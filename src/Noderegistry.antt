-- ===== src/Noderegistry.antt =====
-- The reading of the node registry in gateway/pkg/noderegistry/registry.go. The contract calls,
-- with the packing and unpacking of their arguments, are parameters.
pub mod Caching
use sovereign_vpn.Base.{
  ℕ, Bool, true, false, not, ◌&&◌, Option, none, some, List, [], ◌∷◌, if◌then◌else◌, map, ℤ,
  int_leb, to_int64,
}
use sovereign_vpn.Text.{Text}
use sovereign_vpn.Clock.{Time, Duration, sub, unix}
use sovereign_vpn.External.{Address}

pub record Node : Type 0 where
  pub operator : Address
  pub endpoint : Text
  pub wg_pub_key : Text
  pub region : Text
  pub staked_amount : ℕ
  pub registered_at : Time
  pub last_heartbeat : Time
  pub active : Bool
  pub slashed : Bool

-- A node as the contract gives it, with its times as Unix seconds of 256 bits.
pub record RawNode : Type 0 where
  pub operator : Address
  pub endpoint : Text
  pub wg_pub_key : Text
  pub region : Text
  pub staked_amount : ℕ
  pub registered_at : ℕ
  pub last_heartbeat : ℕ
  pub active : Bool
  pub slashed : Bool

-- The contract's answers, `none` where a call fails.
pub record Contract : Type 0 where
  pub active_nodes : Option (List RawNode)
  pub active_nodes_by_region : Text → Option (List RawNode)
  pub node : Address → Option RawNode
  pub node_count : Option ℕ
  pub heartbeat_overdue : Address → Option Bool
  pub eligible_operator : Address → Option Bool
  pub railgun_address : Address → Option Text

-- The list is `none` where it is nil.
pub record Registry : Type 0 where
  pub cache_ttl : Duration
  pub cached_list : Option (List Node)
  pub cache_time : Time

unfoldable pub new_registry : Duration → Registry
new_registry cache_ttl = record { cache_ttl = cache_ttl; cached_list = none; cache_time = 0 }

-- `decodeNodeStruct`, and the body of the loop of `decodeNodeArray`
abbrev pub decode_node : RawNode → Node
decode_node raw = record {
  operator = raw.operator;
  endpoint = raw.endpoint;
  wg_pub_key = raw.wg_pub_key;
  region = raw.region;
  staked_amount = raw.staked_amount;
  registered_at = unix (to_int64 raw.registered_at);
  last_heartbeat = unix (to_int64 raw.last_heartbeat);
  active = raw.active;
  slashed = raw.slashed;
}

abbrev pub decode_node_array : Option (List RawNode) → Option (List Node)
decode_node_array none = none
decode_node_array (some raws) = some (map decode_node raws)

fresh_list : Registry → Time → Option (List Node)
fresh_list r now = if not (int_leb r.cache_ttl (sub now r.cache_time)) then r.cached_list else none

fetched : Registry → Time → Option (List Node) → Registry × Option (List Node)
fetched r now none = (r, none)
fetched r now (some nodes) = (record r { cached_list = some nodes; cache_time = now }, some nodes)

unless_fresh : Contract → Registry → Time → Option (List Node) → Registry × Option (List Node)
unfolding fetched
unless_fresh c r stored_at (some nodes) = (r, some nodes)
unless_fresh c r stored_at none = fetched r stored_at (decode_node_array c.active_nodes)

-- `GetActiveNodes`, with the clock at the test of the cache and at the storing.
unfoldable pub get_active_nodes : Contract → Registry → Time → Time → Registry × Option (List Node)
unfolding fresh_list unless_fresh
get_active_nodes c r read_at stored_at = unless_fresh c r stored_at (fresh_list r read_at)

abbrev pub get_active_nodes_by_region : Contract → Text → Option (List Node)
get_active_nodes_by_region c region = decode_node_array (c.active_nodes_by_region region)

abbrev pub get_node : Contract → Address → Option Node
get_node c operator = elim (c.node operator) [ none ↦ none | some raw ↦ some (decode_node raw) ]

unfoldable pub invalidate_cache : Registry → Registry
invalidate_cache r = record r { cached_list = none; cache_time = 0 }
