-- ===== src/Lib.antt =====
-- A model of the Sovereign VPN gateway, the Go program under gateway/, and what it guarantees.
--
-- The program. A wallet asks for a challenge, signs its message and signs in (siwe); its NFT
-- tier is checked (nftcheck) with the cards of wallets that delegated to it (delegation), a
-- banned wallet is refused (rep6529), and the gate (nftgate) keeps its session and gives it a
-- signed token. With the token it connects a WireGuard key (wireguard). A client may also
-- connect without a wallet: it gets a challenge, proves its access to a ZK API, and a
-- nullifier keeps the proof from being used twice (anonauth). When an NFT moves, the watcher
-- revokes the sender's session (revocation, server/revoker.go). Node operators enroll with a
-- signed message and report their state (server/operator_enrollment.go).
--
-- The files, with the code under gateway/pkg/ that each is about.
--   Base, Map, Clock, Text, Strings: shared helpers. A Go map is an association list, a string
--     its bytes, a time the nanoseconds since Go's zero time. Text and Strings have the
--     functions of strings and strconv that the code uses, on ASCII.
--   External: what the code calls of go-ethereum and of the texts of package time.
--   Siwe/NonceStore: siwe/nonce.go. Generate, Consume and cleanup are generate, consume and
--     cleanup.
--   Siwe/Message, Siwe/Service: siwe/siwe.go. FormatMessage and parseMessage are format_message
--     and parse_message, Verify is verify.
--   Nftgate/Store: nftgate/sessions.go. Nftgate/Token, Nftgate/Gate, Nftgate/Access and
--     Nftgate/Middleware: nftgate/middleware.go.
--   Anonauth/Challenges, Anonauth/Nullifiers, Anonauth/Service: the files of anonauth.
--   Wireguard/Pool, Wireguard/Manager: wireguard/manager.go.
--   Ratelimit: ratelimit/ratelimit.go.
--   Nftcheck/Tier, Nftcheck/Checker: nftcheck/checker.go. Nftcheck/Direct: nftcheck/direct.go,
--     over the cache and the vault loop of Nftcheck/Checker.
--   Delegation: delegation/delegation.go.
--   Rep6529: rep6529/rep.go.
--   Noderegistry: noderegistry/registry.go.
--   Operators/Fields, Operators/Store, Operators/Handlers: server/operator_enrollment.go.
--   Config: config/config.go. Wgconf: client/pkg/wgconf/config.go, outside of gateway/.
--   Server/Start, Server/State, Server/Peers, Server/Tier, Server/Policy, Server/Auth,
--     Server/Status, Server/Nodes, Server/Payout, Server/Connect, Server/Anonymous,
--     Server/Disconnect: server/server.go. Server/Signals: server/vpn_access.go. Server/Revoker:
--     server/revoker.go and handleLog of revocation/watcher.go.
--   Tests: runs on concrete inputs.
--
-- State and operations. Each struct is a record, and each method a function from the state and
-- the readings of the clock, in their order, to the state and the result. A method that holds
-- a mutex is one step. Handlers run the steps of one request with no other request in between,
-- but the nullifier store, the limiter and the nonce store are also run as sequences of the
-- critical sections of all goroutines, and the caches of the tier checks and of the
-- delegations as sequences of whole calls and cleanups. A handler's reply is a value with its
-- status.
--
-- Parameters. The HMAC of tokens, SHA-256, Keccak-256 and the recovery of a signer, the hex
-- texts of addresses, the RFC 3339 texts of times, net.SplitHostPort, the random ids, the
-- success of the wg command, the chain queries, the registries of delegations and of nodes,
-- the HTTP API of reputations, the ZK API, the payout vault and the session and subscription
-- managers are arguments. The hypotheses on them, where a theorem has any, are that base64
-- text has no dot, that a random id is not in use, that the text of a time is one line and
-- reads back to the second, and that the card contract answers with the balances it holds.
--
-- Bounds. uint64 differences and durations wrap at 64 bits. The search for an address makes
-- 253 rounds, which is the code's bound. The loop over the card batches runs on int64 that
-- wrap, with one round for each 50 tokens and one more as fuel; this is enough for a highest
-- token below 2 ^ 63 - 50, which the theorems on the loop assume.
--
-- Not modelled: routing, CORS and JSON, the Postgres store of enrollments, the RPC clients,
-- the reading of configuration files, main.go, logging, key generation, and the rest of the
-- client. Interleavings of two requests within a handler are not modelled.
pub mod Anonauth
pub mod Base
pub mod Clock
pub mod Config
pub mod Delegation
pub mod External
pub mod Map
pub mod Nftcheck
pub mod Nftgate
pub mod Noderegistry
pub mod Operators
pub mod Ratelimit
pub mod Rep6529
pub mod Server
pub mod Siwe
pub mod Strings
pub mod Tests
pub mod Text
pub mod Wgconf
pub mod Wireguard
