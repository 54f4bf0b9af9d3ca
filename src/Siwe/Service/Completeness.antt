-- ===== src/Siwe/Service/Completeness.antt =====
-- A client that signs its challenge in time is signed in.
use sovereign_vpn.Base.{
  int_beq_iff, ℕ, ◌*◌, ◌/◌, ◌≤◌, ◌<◌, ◌≡◌, refl, Bool, true, false, some, nat_eq, text_eq, arith,
  beq_refl, ℤ, ok,
}
use sovereign_vpn.Text.{trim_space, Text}
use sovereign_vpn.Clock.{Time, add}
use sovereign_vpn.Clock.{second}
use sovereign_vpn.Strings.{to_lower}
use sovereign_vpn.External.{Address, Ethereum, TimeText, IsTimeText}
use sovereign_vpn.Siwe.NonceStore
use sovereign_vpn.Siwe.NonceStore.{NonceStore}
use sovereign_vpn.Siwe.NonceStore.Laws.{consume-is_live, lookup-generate}
use sovereign_vpn.Siwe.Message.{Challenge, format_message}
use sovereign_vpn.Siwe.Message.RoundTrip.{IsPrintable, parse_message-format_message, parsed_of}
use sovereign_vpn.Siwe.Service.{
  Service, new_challenge, recover_address, use_nonce, check_parsed, check_recovered, verify,
}
use sovereign_vpn.Siwe.Service.SignIn.{Recovers}

module _ (eth : Ethereum) (times : TimeText) where
  use_nonce-true :
      (s : Service) (a : Address) (r : NonceStore × Bool)
      → r.1 ≡ true
      → (use_nonce eth times s a r).1 ≡ ok a
  unfolding use_nonce
  use_nonce-true s a (store, true) h = refl
  use_nonce-true s a (store, false) h = absurd (ground (arith))

  check_parsed-parsed_of :
      (s : Service) (c : Challenge) (now consumed_at : Time) (a : Address) (id : ℕ)
      → IsPrintable eth.is_hex_address c (eth.address_hex a) id
      → trim_space (eth.address_hex a) ≡ eth.address_hex a
      → c.domain ≡ s.domain
      → c.uri ≡ s.uri
      → c.chain_id ≡ s.chain_id
      → c.issued_at ≤ now
      → now ≤ c.expiration_time / second * second
      → (NonceStore.consume s.nonce_store c.nonce consumed_at).1 ≡ true
      → (check_parsed eth times s now consumed_at a (ok (parsed_of c (eth.address_hex a) id))).1
        ≡ ok a
  unfolding check_parsed parsed_of
  check_parsed-parsed_of s c now consumed_at a id p trims d u ch i n k = ground (
    arith,
    trims,
    text_eq.beq_iff c.domain s.domain,
    text_eq.beq_iff c.uri s.uri,
    int_beq_iff (ℤ.pos id) s.chain_id,
    beq_refl (to_lower (eth.address_hex a)),
    p.id_of_chain,
    p.issued_set,
    p.expiration_set,
    use_nonce-true s a (NonceStore.consume s.nonce_store c.nonce consumed_at) k,
  )

  -- A challenge that was given out is of the service after it, which knows its nonce.
  new_challenge-some :
      (s : Service) (c : Challenge) (nonce : Text) (stored_at issued_at : Time)
      → (new_challenge s (some nonce) stored_at issued_at).1 ≡ some c
      → let s' = (new_challenge s (some nonce) stored_at issued_at).0 in
        (c.domain ≡ s'.domain)
        × (c.uri ≡ s'.uri)
        × (c.chain_id ≡ s'.chain_id)
        × (c.nonce ≡ nonce)
        × (c.issued_at ≡ issued_at)
        × (s'.nonce_store ≡ (NonceStore.generate s.nonce_store (some nonce) stored_at).0)
  unfolding new_challenge NonceStore.generate
  new_challenge-some s c nonce stored_at issued_at h = ground (arith)

  consume-generate :
      (ns : NonceStore) (nonce : Text) (stored_at consumed_at : Time)
      → consumed_at < add stored_at ns.ttl
      → (NonceStore.consume (NonceStore.generate ns (some nonce) stored_at).0 nonce consumed_at).1
        ≡ true
  consume-generate ns nonce stored_at consumed_at h = ground (
    arith,
    consume-is_live (NonceStore.generate ns (some nonce) stored_at).0 nonce consumed_at,
    lookup-generate ns nonce nonce stored_at,
    beq_refl nonce,
  )

  -- A client that is given a challenge, formats it for its address and signs it is signed in as
  -- that address: where the service's texts are printable, the address text is trimmed, the text
  -- of a time is one line and reads back to the second, the signature recovers to the address,
  -- the clock of the check is not before the issue and has not passed the expiry at its last
  -- whole second, and the nonce is presented within the store's lifetime.
  pub verify-new_challenge :
      (s : Service) (c : Challenge) (nonce signature : Text)
      (stored_at issued_at now consumed_at : Time) (a : Address) (id : ℕ)
      → IsTimeText times
      → (new_challenge s (some nonce) stored_at issued_at).1 ≡ some c
      → IsPrintable eth.is_hex_address c (eth.address_hex a) id
      → trim_space (eth.address_hex a) ≡ eth.address_hex a
      → Recovers eth times (format_message times c (eth.address_hex a)) signature a
      → issued_at ≤ now
      → now ≤ c.expiration_time / second * second
      → consumed_at < add stored_at s.nonce_store.ttl
      → (verify eth times
          (new_challenge s (some nonce) stored_at issued_at).0
          (format_message times c (eth.address_hex a))
          signature
          now
          consumed_at).1
        ≡ ok a
  unfolding verify recover_address check_recovered
  verify-new_challenge s c nonce signature stored_at issued_at now consumed_at a id laws h p trims r
        i n k =
      let s' = (new_challenge s (some nonce) stored_at issued_at).0 in
      let fresh = new_challenge-some s c nonce stored_at issued_at h in
      rw
        (
          r.decoded,
          r.sig_length,
          r.recovered,
          parse_message-format_message eth.is_hex_address times laws c (eth.address_hex a) id p,
        )
        (check_parsed-parsed_of s' c now consumed_at a id p trims fresh.0 fresh.1 fresh.2
          (rw fresh.4 i) n
          (rw (fresh.3, fresh.5) (consume-generate s.nonce_store nonce stored_at consumed_at k)))
