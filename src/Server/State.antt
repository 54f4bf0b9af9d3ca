-- ===== src/Server/State.antt =====
-- The state of `Server` in gateway/pkg/server/server.go, what its handlers answer, and the clients
-- of services outside the gateway, which are parameters of each call.
use sovereign_vpn.Base.{ℕ, Bool, Option, List, [], ◌∷◌, ◌++◌, ℤ}
use sovereign_vpn.Text.{Text}
use sovereign_vpn.Clock.{Time, Duration}
use sovereign_vpn.Map.{Map}
use sovereign_vpn.Nftcheck.Checker.{Checker}
use sovereign_vpn.Nftgate.Store.{Address}
use sovereign_vpn.Nftgate.Gate.{Gate}
use sovereign_vpn.Wireguard.Manager.{Manager, PeerConfig}
use sovereign_vpn.Anonauth.Service.{Service}
use sovereign_vpn.Siwe
use sovereign_vpn.Rep6529

-- The calls of the session manager that handlers make without waiting for them.
pub data ChainCall : Type 0 where
  open_free_session : Address → ℕ → ChainCall
  close_session_for : Address → ChainCall

pub record Server : Type 0 where
  pub credential_ttl : Duration
  pub anon_auth : Service
  pub free_tier : Bool
  pub siwe : Siwe.Service.Service
  pub checker : Checker
  pub gate : Gate
  pub wg : Manager
  pub user_rep : Option Rep6529.Checker
  pub this_card_id : ℤ
  pub peer_owners : Map Text Text
  pub policy_root : Text
  pub policy_fetched_at : Time
  pub policy_refresh_queued : Bool
  -- oldest first
  pub chain_calls : List ChainCall

-- A `root.Data.Metadata["policyEpoch"]`, by the dynamic types that the code tells apart.
pub data MetaValue : Type 0 where
  str number : Text → MetaValue
  -- a float64 with a whole value, and any other
  float_whole : ℤ → MetaValue
  float_other : MetaValue
  int int64 : ℤ → MetaValue
  uint64 : ℕ → MetaValue
  unsupported : MetaValue

pub record RootData : Type 0 where
  pub root : Text
  -- the entry of the metadata, `none` where the map or the entry is missing
  pub policy_epoch : Option MetaValue

pub record RootReply : Type 0 where
  pub success : Bool
  pub root_data : Option RootData

-- The ZK API: `none` is an error of the call.
pub record ZkClient : Type 0 where
  pub verify_proof : Text → Text → List Text → Option Bool
  pub get_merkle_root : Text → Option (Option RootReply)

pub record SubscriptionManager : Type 0 where
  -- `ExpiresAt` of the wallet's subscription, in Unix seconds
  pub get_subscription : Address → Option ℕ
  pub has_active_subscription : Address → Option Bool

pub record OnChainSession : Type 0 where
  pub payment : ℕ
  pub started_at : ℕ
  pub duration : ℕ
  pub active : Bool

pub record SessionManager : Type 0 where
  pub get_active_session_id : Address → Option ℕ
  pub get_session : ℕ → Option OnChainSession

-- `none` is a component that is not configured.
pub record Externals : Type 0 where
  pub zk_client : Option ZkClient
  pub sub_mgr : Option SubscriptionManager
  pub session_mgr : Option SessionManager

pub data Reply : Type 0 where
  -- `writeError`
  error_reply : ℕ → Text → Reply
  -- 200 with the peer's configuration, its expiry and the tier
  connected : PeerConfig → Time → Text → Reply
  -- the same with a session token in front
  anonymous_connected : Text → PeerConfig → Time → Text → Reply
  disconnected : Reply

abbrev pub status : Reply → ℕ
status (error_reply code _) = code
status (connected _ _ _) = 200
status (anonymous_connected _ _ _ _) = 200
status disconnected = 200

pub record ConnectRequest : Type 0 where
  pub session_token : Text
  pub public_key : Text

-- The `proof` is opaque JSON.
pub record AnonymousConnectRequest : Type 0 where
  pub challenge_id : Text
  pub proof_type : Text
  pub proof : Text
  pub public_signals : List Text
  pub nullifier_hash : Text
  pub session_key_hash : Text
  pub public_key : Text

abbrev pub log_call : Server → ChainCall → Server
log_call s c = record s { chain_calls = s.chain_calls ++ c ∷ [] }
