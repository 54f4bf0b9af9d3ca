-- ===== src/Server/Nodes/Listed.antt =====
-- Which nodes a listing shows, and how long it shows them without a new call of the contract.
use sovereign_vpn.Base.{
  ◌≡◌, refl, ap, false, none, some, List, [], ◌∷◌, nat_eq, text_eq, if◌then◌else◌, arith,
}
use sovereign_vpn.Text.{Text}
use sovereign_vpn.Clock.{Time, sub}
use sovereign_vpn.Base.{int_leb, map}
use sovereign_vpn.External.{Address}
use sovereign_vpn.Noderegistry.{Node, RawNode, Contract, Registry, decode_node}
use sovereign_vpn.Noderegistry.Caching.{get_active_nodes-uncached, get_active_nodes-cached}
use sovereign_vpn.Server.Nodes.{
  listed, is_eligible, respond, enrich_nodes, nodes_reply, list_active, handle_list_nodes,
}

-- The nodes whose operator the contract calls eligible, in their order.
unfoldable pub eligible_nodes : Contract → List Node → List Node
eligible_nodes c [] = []
eligible_nodes c (n ∷ ns) =
    let rest = eligible_nodes c ns in
    if is_eligible (c.eligible_operator n.operator) then n ∷ rest else rest

enrich_nodes-eligible_nodes :
    (hex : Address → Text) (c : Contract) (ns : List Node)
    → enrich_nodes hex c ns ≡ map (respond hex c) (eligible_nodes c ns)
unfolding enrich_nodes eligible_nodes respond
enrich_nodes-eligible_nodes hex c [] = refl
enrich_nodes-eligible_nodes hex c (n ∷ ns) = ground (arith, enrich_nodes-eligible_nodes hex c ns)

-- Where the contract answers, a listing without a cached list shows the active nodes whose
-- operators it calls eligible, and within the lifetime of the cache a second listing shows those
-- of the same nodes whose operators are eligible by then, whatever nodes the contract has.
pub handle_list_nodes-eligible :
    (hex : Address → Text) (c later : Contract) (r : Registry) (raws : List RawNode)
    (read_at stored_at now stored_later : Time)
    → r.cached_list ≡ none
    → c.active_nodes ≡ some raws
    → int_leb r.cache_ttl (sub now stored_at) ≡ false
    → let first = handle_list_nodes hex c (some r) read_at stored_at in
      let second = handle_list_nodes hex later first.0 now stored_later in
      (first.1 ≡ listed (map (respond hex c) (eligible_nodes c (map decode_node raws))) none)
      × (second.1
          ≡ listed (map (respond hex later) (eligible_nodes later (map decode_node raws))) none)
unfolding handle_list_nodes list_active nodes_reply
handle_list_nodes-eligible hex c later r raws read_at stored_at now stored_later e a fresh =
    rw
      (
        get_active_nodes-uncached c r raws read_at stored_at e a,
        get_active_nodes-cached later r raws stored_at now stored_later fresh,
      )
      (
        ap (λ ns. listed ns none) (enrich_nodes-eligible_nodes hex c (map decode_node raws)),
        ap (λ ns. listed ns none) (enrich_nodes-eligible_nodes hex later (map decode_node raws)),
      )
