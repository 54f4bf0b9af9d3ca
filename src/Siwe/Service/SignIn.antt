-- ===== src/Siwe/Service/SignIn.antt =====
-- What an accepted sign-in shows, and what a refused one leaves.
use sovereign_vpn.Base.{
  int_beq_iff, ◌+◌, ◌*◌, ◌≤◌, ◌≡◌, ◌≢◌, refl, sym, ap, ◌∙◌, ◌⊎◌, inl, inr, Bool, true, false,
  Option, none, some, ◌==◌, nat_eq, text_eq, arith, Bool-cases, beq_refl, length, Result, ok, err,
}
use sovereign_vpn.Text.{Text}
use sovereign_vpn.Clock.{Time}
use sovereign_vpn.Clock.{minute}
use sovereign_vpn.Strings.{equal_fold}
use sovereign_vpn.External.{Address, Ethereum, TimeText}
use sovereign_vpn.Siwe.NonceStore
use sovereign_vpn.Siwe.NonceStore.{NonceStore}
use sovereign_vpn.Siwe.NonceStore.Laws.{consume-is_live, lookup-consume}
use sovereign_vpn.Siwe.Message.{ParsedMessage, ParseError, parse_message}
use sovereign_vpn.Siwe.Service.{
  bad_nonce, Service, fix_recovery_id, VerifyError, sign_hash, recover_address, use_nonce,
  check_parsed, check_recovered, verify,
}

-- What stands behind a sign-in: the address that the parsed message names, recovered from the
-- signature, in a message for this service, in time, with a nonce that the store consumed.
pub record IsSignIn (eth : Ethereum) (s s' : Service) (p : ParsedMessage) (now consumed_at : Time)
    (address : Address) : Type 0 where
  pub names_signer : equal_fold (eth.address_hex address) p.address ≡ true
  pub for_domain : p.domain ≡ s.domain
  pub for_uri : p.uri ≡ s.uri
  pub for_chain : p.chain_id ≡ s.chain_id
  pub issued_by_now : p.issued_at ≤ now + 5 * minute
  pub not_expired : now ≤ p.expiration_time
  pub nonce_consumed : NonceStore.consume s.nonce_store p.nonce consumed_at ≡ (s'.nonce_store, true)

-- A signature that recovers to an address.
pub record Recovers (eth : Ethereum) (times : TimeText) (message signature : Text)
    (address : Address) : Type 0 where
  pub sig : Text
  pub decoded : eth.decode_hex signature ≡ some sig
  pub sig_length : length sig ≡ 65
  pub recovered : eth.recover (sign_hash eth times message) (fix_recovery_id 64 sig) ≡ some address

pub record SignedIn (eth : Ethereum) (times : TimeText) (s s' : Service) (message signature : Text)
    (now consumed_at : Time) (address : Address) : Type 0 where
  pub signer : Recovers eth times message signature address
  pub parsed_message : ParsedMessage
  pub parsed : parse_message eth.is_hex_address times message ≡ ok parsed_message
  pub shown : IsSignIn eth s s' parsed_message now consumed_at address

module _ (eth : Ethereum) (times : TimeText) where
  use_nonce-ok :
      (s s' : Service) (a address : Address) (r : NonceStore × Bool)
      → use_nonce eth times s a r ≡ (s', ok address)
      → (a ≡ address) × (r ≡ (s'.nonce_store, true))
  unfolding use_nonce
  use_nonce-ok s s' a address (store, true) h = ground (arith)
  use_nonce-ok s s' a address (store, false) h = absurd (ground (arith))

  check_parsed-ok :
      (s s' : Service) (now consumed_at : Time) (a address : Address) (p : ParsedMessage)
      → check_parsed eth times s now consumed_at a (ok p) ≡ (s', ok address)
      → (a ≡ address) × IsSignIn eth s s' p now consumed_at address
  unfolding check_parsed
  check_parsed-ok s s' now consumed_at a address p h = ground (
    arith,
    text_eq.beq_iff p.domain s.domain,
    text_eq.beq_iff p.uri s.uri,
    int_beq_iff p.chain_id s.chain_id,
    use_nonce-ok s s' a address (NonceStore.consume s.nonce_store p.nonce consumed_at),
  )

  recover_address-ok :
      (message signature : Text) (o : Option Text) (address : Address)
      → eth.decode_hex signature ≡ o
      → recover_address eth times message o ≡ ok address
      → Recovers eth times message signature address
  unfolding recover_address
  recover_address-ok message signature none address d h = absurd (ground (arith))
  recover_address-ok message signature (some sig) address d h =
      elim (Bool-cases (length sig == 65)) [
        | inr e ↦ absurd (ground (arith))
        | inl e ↦ record {
          sig = sig;
          decoded = d;
          sig_length = ground (arith);
          recovered = ground (arith);
        }
      ]

  check_recovered-ok :
      (s s' : Service) (message signature : Text) (now consumed_at : Time)
      (r : Result VerifyError Address) (m : Result ParseError ParsedMessage) (address : Address)
      → recover_address eth times message (eth.decode_hex signature) ≡ r
      → parse_message eth.is_hex_address times message ≡ m
      → check_recovered eth times s message now consumed_at r ≡ (s', ok address)
      → SignedIn eth times s s' message signature now consumed_at address
  unfolding check_recovered
  check_recovered-ok s s' message signature now consumed_at (err e) m address d q h =
      absurd (ground (arith))
  check_recovered-ok s s' message signature now consumed_at (ok a) (err e) address d q h =
      absurd (ground (arith))
  check_recovered-ok s s' message signature now consumed_at (ok a) (ok p) address d q h =
      let shown = check_parsed-ok s s' now consumed_at a address p (ground (arith)) in
      record {
        signer = recover_address-ok message signature _ address refl (d ∙ ap ok shown.0);
        parsed_message = p;
        parsed = q;
        shown = shown.1;
      }

  -- An accepted sign-in was signed by the address that it returns: the signature decodes to 65
  -- bytes from which that address is recovered for the hash of the message, the message parses
  -- and names that address, the domain, URI and chain of the service, it was issued no later
  -- than five minutes from now and has not expired, and the store has consumed its nonce.
  pub verify-SignedIn :
      (s s' : Service) (message signature : Text) (now consumed_at : Time) (address : Address)
      → verify eth times s message signature now consumed_at ≡ (s', ok address)
      → SignedIn eth times s s' message signature now consumed_at address
  unfolding verify
  verify-SignedIn s s' message signature now consumed_at address h =
      check_recovered-ok s s' message signature now consumed_at _ _ address refl refl h

  use_nonce-err :
      (s s' : Service) (a : Address) (r : NonceStore × Bool) (e : VerifyError)
      → use_nonce eth times s a r ≡ (s', err e)
      → e ≡ bad_nonce
  unfolding use_nonce
  use_nonce-err s s' a (store, true) e h = absurd (ground (arith))
  use_nonce-err s s' a (store, false) e h = ground (arith)

  check_parsed-err :
      (s s' : Service) (now consumed_at : Time) (a : Address) (m : Result ParseError ParsedMessage)
      (e : VerifyError)
      → check_parsed eth times s now consumed_at a m ≡ (s', err e)
      → (e ≡ bad_nonce) ⊎ (s' ≡ s)
  unfolding check_parsed
  check_parsed-err s s' now consumed_at a (err m) e h = inr (ground (arith))
  check_parsed-err s s' now consumed_at a (ok p) e h =
      ground (arith, use_nonce-err s s' a (NonceStore.consume s.nonce_store p.nonce consumed_at) e)

  check_recovered-err :
      (s s' : Service) (message : Text) (now consumed_at : Time) (r : Result VerifyError Address)
      (e : VerifyError)
      → check_recovered eth times s message now consumed_at r ≡ (s', err e)
      → (e ≡ bad_nonce) ⊎ (s' ≡ s)
  unfolding check_recovered
  check_recovered-err s s' message now consumed_at (err f) e h = inr (ground (arith))
  check_recovered-err s s' message now consumed_at (ok a) e h =
      check_parsed-err s s' now consumed_at a _ e h

  -- A message that is refused for anything but its nonce leaves the service as it was: a bad
  -- signature, a wrong address, domain, URI or chain, or a time out of range consumes no nonce.
  pub verify-err_unchanged :
      (s s' : Service) (message signature : Text) (now consumed_at : Time) (e : VerifyError)
      → verify eth times s message signature now consumed_at ≡ (s', err e)
      → (e ≡ bad_nonce) ⊎ (s' ≡ s)
  unfolding verify
  verify-err_unchanged s s' message signature now consumed_at e h =
      check_recovered-err s s' message now consumed_at _ e h

  consume-spent :
      (ns ns' : NonceStore) (nonce : Text) (now later : Time)
      → NonceStore.consume ns nonce now ≡ (ns', true)
      → (NonceStore.consume ns' nonce later).1 ≡ false
  consume-spent ns ns' nonce now later h =
      ground
        (arith, consume-is_live ns' nonce later, lookup-consume ns nonce nonce now, beq_refl nonce)

  -- The same message signs in once: at the service as it stands after an accepted sign-in, no
  -- signature for the message is accepted again, at any time.
  pub verify_twice :
      (s s' s'' : Service) (message signature again : Text)
      (now consumed_at later consumed_later : Time) (address other : Address)
      → verify eth times s message signature now consumed_at ≡ (s', ok address)
      → verify eth times s' message again later consumed_later ≢ (s'', ok other)
  verify_twice s s' s'' message signature again now consumed_at later consumed_later address other h
        k =
      let first = verify-SignedIn s s' message signature now consumed_at address h in
      let second = verify-SignedIn s' s'' message again later consumed_later other k in
      let same : ok first.parsed_message ≡ ok second.parsed_message =
        sym first.parsed ∙ second.parsed in
      let spent =
        consume-spent s.nonce_store s'.nonce_store first.parsed_message.nonce consumed_at
          consumed_later first.shown.nonce_consumed in
      ground (arith, spent, second.shown.nonce_consumed, same)
