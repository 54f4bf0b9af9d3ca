-- ===== src/Siwe/NonceStore.antt =====
-- gateway/pkg/siwe/nonce.go: single-use nonces with an expiry. Each operation holds the store's
-- mutex, so it is one step; the clock readings it makes are arguments.
pub mod Laws
pub mod Lifetime
pub mod SingleUse
use sovereign_vpn.Base.{ℕ, Bool, true, false, Option, none, some, List, [], ◌∷◌, text_eq}
use sovereign_vpn.Map.{Map, lookup, insert, delete, sweep}
use sovereign_vpn.Clock.{Time, Duration, after, before, add}

-- A Go string is its bytes.
abbrev pub Nonce : Type 0
Nonce = List ℕ

pub record NonceStore : Type 0 where
  pub nonces : Map Nonce Time
  pub ttl : Duration

unfoldable pub new_nonce_store : Duration → NonceStore
new_nonce_store ttl = record { nonces = []; ttl = ttl }

-- `drawn` is what `rand.Read` and `hex.EncodeToString` give, `none` an error of the source.
unfoldable pub generate : NonceStore → Option Nonce → Time → NonceStore × Option Nonce
generate ns none now = (ns, none)
generate ns (some nonce) now =
    (record ns { nonces = insert nonce (add now ns.ttl) ns.nonces }, some nonce)

consume_entry : NonceStore → Nonce → Time → Option Time → NonceStore × Bool
consume_entry ns nonce now none = (ns, false)
consume_entry ns nonce now (some expiry) =
    (record ns { nonces = delete nonce ns.nonces }, before now expiry)

unfoldable pub consume : NonceStore → Nonce → Time → NonceStore × Bool
unfolding consume_entry
consume ns nonce now = consume_entry ns nonce now (lookup nonce ns.nonces)

-- One tick of the cleanup routine.
unfoldable pub cleanup : NonceStore → Time → NonceStore
cleanup ns now = record ns { nonces = sweep (after now) ns.nonces }

-- What a client or the ticker makes the store do.
pub data Call : Type 0 where
  generates : Option Nonce → Time → Call
  consumes : Nonce → Time → Call
  cleans : Time → Call

unfoldable pub step : NonceStore → Call → NonceStore
step ns (generates drawn now) = (generate ns drawn now).0
step ns (consumes nonce now) = (consume ns nonce now).0
step ns (cleans now) = cleanup ns now

unfoldable pub run : NonceStore → List Call → NonceStore
run ns [] = ns
run ns (c ∷ cs) = run (step ns c) cs
