-- ===== src/Siwe/NonceStore/Laws.antt =====
-- What the operations of the nonce store do to each nonce.
use sovereign_vpn.Base.{
  refl, ◌≡◌, Bool, false, Option, none, some, arith, ◌==◌, if◌then◌else◌, text_eq,
}
use sovereign_vpn.Map.{lookup, kept}
use sovereign_vpn.Map.Laws.{lookup-insert, lookup-delete, lookup-sweep}
use sovereign_vpn.Clock.{Time, after, before, add}
use sovereign_vpn.Siwe.NonceStore.{Nonce, NonceStore, generate, consume, cleanup}

-- The test by which a consume answers.
abbrev pub is_live : Time → Option Time → Bool
is_live now none = false
is_live now (some expiry) = before now expiry

pub consume-is_live :
    (ns : NonceStore) (nonce : Nonce) (now : Time)
    → (consume ns nonce now).1 ≡ is_live now (lookup nonce ns.nonces)
unfolding consume
consume-is_live ns nonce now = ground arith

pub lookup-consume :
    (ns : NonceStore) (nonce j : Nonce) (now : Time)
    → lookup j (consume ns nonce now).0.nonces ≡ (if nonce == j then none else lookup j ns.nonces)
unfolding consume
lookup-consume ns nonce j now =
    ground (arith, lookup-delete j nonce ns.nonces, text_eq.beq_iff nonce j)

pub lookup-generate :
    (ns : NonceStore) (nonce j : Nonce) (now : Time)
    → lookup j (generate ns (some nonce) now).0.nonces
      ≡ (if nonce == j then some (add now ns.ttl) else lookup j ns.nonces)
unfolding generate
lookup-generate ns nonce j now = lookup-insert j nonce (add now ns.ttl) ns.nonces

pub lookup-cleanup :
    (ns : NonceStore) (j : Nonce) (now : Time)
    → lookup j (cleanup ns now).nonces ≡ kept (after now) (lookup j ns.nonces)
unfolding cleanup
lookup-cleanup ns j now = lookup-sweep (after now) j ns.nonces

pub generate-none : (ns : NonceStore) (now : Time) → (generate ns none now).0 ≡ ns
unfolding generate
generate-none ns now = refl
