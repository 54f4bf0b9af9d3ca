-- ===== src/Server/Nodes.antt =====
-- Node discovery of gateway/pkg/server/server.go: `handleListNodes`, `handleListNodesByRegion` and
-- `enrichNodesWithCardCheck`. The registry is the part of the server's state that they use.
pub mod Listed
use sovereign_vpn.Base.{ℕ, Bool, true, false, Option, none, some, List, [], ◌∷◌, if◌then◌else◌}
use sovereign_vpn.Text.{Text, text, is_empty}
use sovereign_vpn.Clock.{Time}
use sovereign_vpn.External.{Address}
use sovereign_vpn.Noderegistry.{
  Node, Contract, Registry, get_active_nodes, get_active_nodes_by_region,
}

pub record NodeResponse : Type 0 where
  pub operator : Text
  pub endpoint : Text
  pub wg_pub_key : Text
  pub region : Text
  pub card_eligible : Bool
  pub active : Bool
  -- empty where it is left out
  pub railgun_address : Text

pub data NodesReply : Type 0 where
  refused : ℕ → Text → NodesReply
  -- the nodes, and the region if one was asked for
  listed : List NodeResponse → Option Text → NodesReply

-- An error counts as no.
abbrev pub is_eligible : Option Bool → Bool
is_eligible none = false
is_eligible (some b) = b

abbrev pub or_empty : Option Text → Text
or_empty none = []
or_empty (some t) = t

-- `Address.Hex` is a parameter.
unfoldable pub respond : (Address → Text) → Contract → Node → NodeResponse
respond hex c n = record {
  operator = hex n.operator;
  endpoint = n.endpoint;
  wg_pub_key = n.wg_pub_key;
  region = n.region;
  card_eligible = is_eligible (c.eligible_operator n.operator);
  active = n.active;
  railgun_address = or_empty (c.railgun_address n.operator);
}

unfoldable pub enrich_nodes : (Address → Text) → Contract → List Node → List NodeResponse
unfolding respond
enrich_nodes hex c [] = []
enrich_nodes hex c (n ∷ ns) =
    let rest = enrich_nodes hex c ns in
    if (respond hex c n).card_eligible then respond hex c n ∷ rest else rest

nodes_reply : (Address → Text) → Contract → Option Text → Option (List Node) → NodesReply
unfolding enrich_nodes
nodes_reply hex c region none = refused 500 (text "failed to fetch nodes")
nodes_reply hex c region (some nodes) = listed (enrich_nodes hex c nodes) region

list_active :
    (Address → Text) → Contract → Registry × Option (List Node) → Option Registry × NodesReply
unfolding nodes_reply
list_active hex c (r, nodes) = (some r, nodes_reply hex c none nodes)

unfoldable pub handle_list_nodes :
    (Address → Text) → Contract → Option Registry → Time → Time → Option Registry × NodesReply
unfolding list_active
handle_list_nodes hex c none read_at stored_at =
    (none, refused 503 (text "node registry not configured"))
handle_list_nodes hex c (some r) read_at stored_at =
    list_active hex c (get_active_nodes c r read_at stored_at)

unfoldable pub handle_list_nodes_by_region :
    (Address → Text) → Contract → Option Registry → Text → NodesReply
unfolding nodes_reply
handle_list_nodes_by_region hex c none region = refused 503 (text "node registry not configured")
handle_list_nodes_by_region hex c (some r) region =
    if is_empty region
    then refused 400 (text "region query param required")
    else nodes_reply hex c (some region) (get_active_nodes_by_region c region)
