-- ===== src/Tests/Nodes.antt =====
-- A run of the node listing, and the witness for it.
use sovereign_vpn.Base.{◌+◌, ◌≡◌, refl, true, false, none, some, [], ◌∷◌, ◌==◌, nat_eq, text_eq, ℤ}
use sovereign_vpn.Text.{text}
use sovereign_vpn.Base.{map}
use sovereign_vpn.External.{Address}
use sovereign_vpn.Tests.Fixtures.{noon, hour}
use sovereign_vpn.Text.{format_uint}
use sovereign_vpn.Noderegistry.{RawNode, Contract, Registry, new_registry, decode_node}
use sovereign_vpn.Server.Nodes.{listed, respond, handle_list_nodes}
use sovereign_vpn.Server.Nodes.Listed.{eligible_nodes, handle_list_nodes-eligible}

abbrev raw_node : Address → RawNode
raw_node operator = record {
  operator = operator;
  endpoint = text "1.2.3.4:51820";
  wg_pub_key = text "K";
  region = text "eu-1";
  staked_amount = 0;
  registered_at = 1_700_000_000;
  last_heartbeat = 1_700_000_000;
  active = true;
  slashed = false;
}

-- Two nodes, of which one is eligible.
abbrev contract : Contract
contract = record {
  active_nodes = some (raw_node 5 ∷ raw_node 6 ∷ []);
  active_nodes_by_region = λ region. none;
  node = λ operator. none;
  node_count = some 2;
  heartbeat_overdue = λ operator. some false;
  eligible_operator = λ operator. some (operator == 6);
  railgun_address = λ operator. none;
}

-- Later the calls fail, but for the eligibility of both operators.
abbrev unreachable : Contract
unreachable = record contract { active_nodes = none; eligible_operator = λ operator. some true }

abbrev registry : Registry
registry = record { cache_ttl = ℤ.pos hour; cached_list = none; cache_time = 0 }

one_listed :
    (handle_list_nodes format_uint contract (some registry) noon noon).1
    ≡ listed (respond format_uint contract (decode_node (raw_node 6)) ∷ []) none
unfolding handle_list_nodes sovereign_vpn.Noderegistry.get_active_nodes
one_listed = refl

handle_list_nodes-eligible_example :
    let nodes = raw_node 5 ∷ raw_node 6 ∷ [] in
    let first = handle_list_nodes format_uint contract (some registry) noon noon in
    let second = handle_list_nodes format_uint unreachable first.0 (noon + 1) noon in
    (first.1
      ≡ listed
          (map (respond format_uint contract) (eligible_nodes contract (map decode_node nodes)))
          none)
    × (second.1
        ≡ listed
            (map
              (respond format_uint unreachable)
              (eligible_nodes unreachable (map decode_node nodes)))
            none)
handle_list_nodes-eligible_example =
    handle_list_nodes-eligible format_uint contract unreachable registry
      (raw_node 5 ∷ raw_node 6 ∷ []) noon noon (noon + 1) noon refl refl refl
