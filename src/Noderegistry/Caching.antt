-- ===== src/Noderegistry/Caching.antt =====
-- What the registry caches.
use sovereign_vpn.Base.{◌≡◌, refl, false, none, some, List, nat_eq, text_eq, arith}
use sovereign_vpn.Clock.{Time, sub}
use sovereign_vpn.Base.{int_leb, map}
use sovereign_vpn.Noderegistry.{
  RawNode, Contract, Registry, decode_node, fresh_list, get_active_nodes,
}

abbrev pub with_nodes : Registry → Time → List RawNode → Registry
with_nodes r now raws = record r { cached_list = some (map decode_node raws); cache_time = now }

fresh_list-none : (r : Registry) (now : Time) → r.cached_list ≡ none → fresh_list r now ≡ none
unfolding fresh_list
fresh_list-none r now h = ground (arith)

pub get_active_nodes-uncached :
    (c : Contract) (r : Registry) (raws : List RawNode) (read_at stored_at : Time)
    → r.cached_list ≡ none
    → c.active_nodes ≡ some raws
    → get_active_nodes c r read_at stored_at
      ≡ (with_nodes r stored_at raws, some (map decode_node raws))
unfolding get_active_nodes
get_active_nodes-uncached c r raws read_at stored_at h a = rw (fresh_list-none r read_at h, a) refl

pub get_active_nodes-cached :
    (c : Contract) (r : Registry) (raws : List RawNode) (stored_at now stored_later : Time)
    → int_leb r.cache_ttl (sub now stored_at) ≡ false
    → get_active_nodes c (with_nodes r stored_at raws) now stored_later
      ≡ (with_nodes r stored_at raws, some (map decode_node raws))
unfolding get_active_nodes fresh_list
get_active_nodes-cached c r raws stored_at now stored_later h = rw h refl
