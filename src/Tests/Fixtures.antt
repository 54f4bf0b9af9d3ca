-- ===== src/Tests/Fixtures.antt =====
-- The data of the tests.
use sovereign_vpn.Base.{◌+◌, ℕ, true, false, none, some, [], ◌∷◌, ℤ}
use sovereign_vpn.Text.{Text, text}
use sovereign_vpn.Clock.{Time, unix}
use sovereign_vpn.Nftcheck.Tier.{AccessTier}
use sovereign_vpn.Nftcheck.Checker.{Checker}
use sovereign_vpn.Nftgate.Store.{Session, SessionStore}
use sovereign_vpn.Nftgate.Gate.{Gate}
use sovereign_vpn.Wireguard.Pool.{IpPool}
use sovereign_vpn.Wireguard.Manager.{Config, Manager, Peer, set_peer}
use sovereign_vpn.Anonauth.Service.{Service}
use sovereign_vpn.Siwe
use sovereign_vpn.Anonauth.Challenges.{Challenge}
use sovereign_vpn.Server.State.{
  Server, Externals, ZkClient, ConnectRequest, AnonymousConnectRequest,
}
use sovereign_vpn.Server.Connect.{ConnectTimes}
use sovereign_vpn.Server.Anonymous.{AnonymousTimes}

-- A signature of one word, and a hash of one byte.
abbrev pub signature : Text → Text
signature p = text "c2ln"

abbrev pub hash : Text → Text
hash p = text "h"

-- 14 November 2023, and an hour.
abbrev pub noon : Time
noon = unix (ℤ.pos 1_700_000_000)

abbrev pub hour : ℕ
hour = 3_600_000_000_000

abbrev pub alice : Session
alice = record {
  address = 7;
  address_bound = true;
  nullifier_hash = [];
  session_key_hash = [];
  policy_epoch = 0;
  id = text "a1";
  token = text "v1.a1.1700003600.c2ln";
  tier = AccessTier.free;
  created_at = noon;
  expires_at = noon + hour;
}

abbrev pub bob : Session
bob = record alice { address = 8; id = text "b1"; token = text "v1.b1.1700003600.c2ln" }

abbrev pub alice_store : SessionStore
alice_store = record { sessions = (text "a1", alice) ∷ []; address_to_id = (7, text "a1") ∷ [] }

abbrev pub alice_gate : Gate
alice_gate = record { cred_ttl = ℤ.pos hour; store = alice_store }

abbrev pub wg_config : Config
wg_config = record {
  server_public_key = text "S";
  server_endpoint = text "vpn.example:51820";
  dns = text "1.1.1.1";
}

abbrev pub pool : IpPool
pool = record { base0 = 10; base1 = 8; base2 = 0; allocated = []; next_octet = 2 }

abbrev pub empty_manager : Manager
empty_manager = record { cfg = wg_config; peers = []; ip_pool = pool; commands = [] }

abbrev pub peer : Peer
peer = record {
  public_key = text "K";
  client_ip = text "10.8.0.2";
  assigned_at = noon;
  expires_at = noon + hour;
}

abbrev pub one_peer : Manager
one_peer = record empty_manager {
  peers = (text "K", peer) ∷ [];
  ip_pool = record pool { allocated = (text "10.8.0.2", true) ∷ []; next_octet = 3 };
  commands = set_peer (text "K") (text "10.8.0.2") ∷ [];
}

abbrev pub challenge : Challenge
challenge = record {
  id = text "C";
  nonce = text "n";
  policy_epoch = 4;
  proof_type = text "card_ownership";
  expires_at = noon + hour;
}

abbrev pub service : Service
service = record {
  challenge_ttl = ℤ.pos hour;
  nonce_length = ℤ.pos 16;
  proof_type = text "card_ownership";
  challenges = record { challenges = (text "C", challenge) ∷ [] };
  nullifiers = record { nullifiers = [] };
  policy_epoch = 4;
}

abbrev pub checker : Checker
checker = record { cache_ttl = ℤ.pos hour; cache = [] }

abbrev pub siwe_service : Siwe.Service.Service
siwe_service = record {
  domain = text "vpn";
  uri = text "u";
  nonce_store = record { nonces = (text "n", noon + hour) ∷ []; ttl = ℤ.pos hour };
  chain_id = ℤ.pos 1;
  challenge_ttl = ℤ.pos hour;
}

-- A gateway where alice is signed in and owns the key K.
abbrev pub gateway : Server
gateway = record {
  credential_ttl = ℤ.pos hour;
  anon_auth = service;
  free_tier = true;
  siwe = siwe_service;
  checker = checker;
  gate = alice_gate;
  wg = one_peer;
  user_rep = none;
  this_card_id = ℤ.pos 3;
  peer_owners = (text "K", text "a1") ∷ [];
  policy_root = [];
  policy_fetched_at = 0;
  policy_refresh_queued = false;
  chain_calls = [];
}

-- A ZK API that accepts every proof.
abbrev pub accepting : ZkClient
accepting = record { verify_proof = λ _ _ _. some true; get_merkle_root = λ _. none }

abbrev pub externals : Externals
externals = record { zk_client = some accepting; sub_mgr = none; session_mgr = none }

abbrev pub connect_k : ConnectRequest
connect_k = record { session_token = text "v1.a1.1700003600.c2ln"; public_key = text "K" }

abbrev pub connect_times : ConnectTimes
connect_times = record {
  session_at = noon;
  compared_at = noon;
  remaining_at = noon;
  until_at = noon;
  added_at = noon;
  answered_at = noon;
}

abbrev pub anonymous_times : AnonymousTimes
anonymous_times = record {
  challenge_at = noon;
  fetched_at = noon;
  signals_at = noon;
  nullifier_at = noon;
  expiry_at = noon;
  session_at = noon;
  until_at = noon;
  added_at = noon;
}

-- A card proof for alice's key.
abbrev pub card_request : AnonymousConnectRequest
card_request = record {
  challenge_id = text "C";
  proof_type = text "card_ownership";
  proof = text "{}";
  public_signals = text "x" ∷ text "3" ∷ [];
  nullifier_hash = text "N";
  session_key_hash = text "H";
  public_key = text "K";
}
