-- ===== src/Server/Peers.antt =====
-- Which session owns a WireGuard key: the peer owners of gateway/pkg/server/server.go. Each
-- function is one critical section of the owners' mutex.
use sovereign_vpn.Base.{Bool, true, false, Option, none, some, ◌==◌, text_eq}
use sovereign_vpn.Text.{Text}
use sovereign_vpn.Map.{Map, lookup, insert, delete}

abbrev pub PeerOwners : Type 0
PeerOwners = Map Text Text

abbrev pub owned_by : Option Text → Text → Bool
owned_by none owner = false
owned_by (some existing) owner = existing == owner

abbrev pub free_for : Option Text → Text → Bool
free_for none owner = true
free_for (some existing) owner = existing == owner

unfoldable pub claims_peer : PeerOwners → Text → Text → Bool
claims_peer owners key owner = free_for (lookup key owners) owner

unfoldable pub set_peer_owner : PeerOwners → Text → Text → PeerOwners
set_peer_owner owners key owner = insert key owner owners

unfoldable pub peer_owned_by : PeerOwners → Text → Text → Bool
peer_owned_by owners key owner = owned_by (lookup key owners) owner

unfoldable pub delete_peer_owner : PeerOwners → Text → PeerOwners
delete_peer_owner owners key = delete key owners
