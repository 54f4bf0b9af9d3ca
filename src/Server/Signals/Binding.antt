-- ===== src/Server/Signals/Binding.antt =====
-- What a vpn_access_v1 proof is bound to: `validateVPNAccessV1Signals`.
use sovereign_vpn.Base.{
  ap, refl, ℕ, ◌<◌, ◌≡◌, subst, false, Option, none, some, List, [], ◌∷◌, nat_eq, text_eq, arith, ℤ,
  ok,
}
use sovereign_vpn.Text.{parse_int, parse_uint, Text, is_empty}
use sovereign_vpn.Clock.{unix, Time}
use sovereign_vpn.Anonauth.Challenges.{Challenge}
use sovereign_vpn.Server.State.{AnonymousConnectRequest}
use sovereign_vpn.Server.Signals.{
  parse_expiry, parse_class, VpnAccessV1Signals, derive_challenge_hash, derive_session_key_hash,
  validate_signals, validate_list, check_signals, with_numbers,
}

-- What accepted signals say: they stand for this challenge, this request and its key, at this time.
pub record Bound (sha256 : Text → Text) (challenge : Challenge) (req : AnonymousConnectRequest)
    (now : Time) (v : VpnAccessV1Signals) : Type 0 where
  pub same_epoch : v.policy_epoch ≡ challenge.policy_epoch
  pub unexpired : now < v.expiry_bucket
  pub same_nullifier : v.nullifier_hash ≡ req.nullifier_hash
  pub for_challenge : v.challenge_hash ≡ derive_challenge_hash sha256 challenge
  pub for_key : v.session_key_hash ≡ derive_session_key_hash sha256 req.public_key
  pub request_for_key : req.session_key_hash ≡ derive_session_key_hash sha256 req.public_key
  pub rooted : is_empty v.root ≡ false

-- What signals read from the request's list say: they are its seven texts, in their order, three of
-- them as numbers.
pub record ReadFrom (public_signals : List Text) (v : VpnAccessV1Signals) : Type 0 where
  pub epoch : Text
  pub class : Text
  pub expiry : Text
  pub bucket : ℕ
  pub seven :
      public_signals
      ≡ v.root ∷ epoch ∷ class ∷ expiry ∷ v.nullifier_hash ∷ v.challenge_hash ∷ v.session_key_hash
        ∷ []
  pub epoch_read : parse_uint epoch ≡ some v.policy_epoch
  pub class_read : parse_uint class ≡ some v.entitlement_class
  pub class_positive : 0 < v.entitlement_class
  pub expiry_read : parse_int expiry ≡ some (ℤ.pos bucket)
  pub bucket_positive : 0 < bucket
  pub expiry_bucket : v.expiry_bucket ≡ unix (ℤ.pos bucket)

parse_class-eq_some : (o : Option ℕ) (n : ℕ) → parse_class o ≡ some n → (o ≡ some n) × (0 < n)
unfolding parse_class
parse_class-eq_some none n h = absurd (ground (arith))
parse_class-eq_some (some m) n h = (ground (arith), ground (arith))

parse_expiry-eq_some :
    (o : Option ℤ) (z : ℤ)
    → parse_expiry o ≡ some z
    → (n : ℕ) × (o ≡ some (ℤ.pos n)) × (0 < n) × (z ≡ ℤ.pos n)
unfolding parse_expiry
parse_expiry-eq_some none z h = absurd (ground (arith))
parse_expiry-eq_some (some (ℤ.pos n)) z h = (n, refl, ground (arith), ground (arith))
parse_expiry-eq_some (some (ℤ.negsuc n)) z h = absurd (ground (arith))

module _ (sha256 : Text → Text) (challenge : Challenge) (req : AnonymousConnectRequest)
    (now : Time) where
  check_signals-Bound :
      (expiry : Text) (s v : VpnAccessV1Signals)
      → check_signals sha256 challenge req now expiry s ≡ ok v
      → Bound sha256 challenge req now v
  unfolding check_signals
  check_signals-Bound expiry s v h =
      subst (λ x. Bound sha256 challenge req now x) same
        (record {
          same_epoch = ground (arith, nat_eq.beq_iff s.policy_epoch challenge.policy_epoch);
          unexpired = ground (arith);
          same_nullifier = ground (arith, text_eq.beq_iff s.nullifier_hash req.nullifier_hash);
          for_challenge =
              ground
                (arith, text_eq.beq_iff s.challenge_hash (derive_challenge_hash sha256 challenge));
          for_key = ground (
            arith,
            text_eq.beq_iff s.session_key_hash (derive_session_key_hash sha256 req.public_key),
          );
          request_for_key = ground (
            arith,
            text_eq.beq_iff req.session_key_hash (derive_session_key_hash sha256 req.public_key),
          );
          rooted = ground (arith);
        })
    where
      same : s ≡ v
      same = ground (arith)

  check_signals-same :
      (expiry : Text) (s v : VpnAccessV1Signals)
      → check_signals sha256 challenge req now expiry s ≡ ok v
      → s ≡ v
  unfolding check_signals
  check_signals-same expiry s v h = ground (arith)

  with_numbers-ReadFrom :
      (root epoch class expiry nullifier hash key : Text) (a b : Option ℕ) (c : Option ℤ)
      (v : VpnAccessV1Signals)
      → parse_uint epoch ≡ a
      → parse_class (parse_uint class) ≡ b
      → parse_expiry (parse_int expiry) ≡ c
      → with_numbers sha256 challenge req now root expiry nullifier hash key a b c ≡ ok v
      → ReadFrom (root ∷ epoch ∷ class ∷ expiry ∷ nullifier ∷ hash ∷ key ∷ []) v
  unfolding with_numbers
  with_numbers-ReadFrom root epoch class expiry nullifier hash key none b c v ea eb ec h =
      absurd (ground (arith))
  with_numbers-ReadFrom root epoch class expiry nullifier hash key (some a) none c v ea eb ec h =
      absurd (ground (arith))
  with_numbers-ReadFrom root epoch class expiry nullifier hash key (some a) (some b) none v ea eb ec
        h =
      absurd (ground (arith))
  with_numbers-ReadFrom root epoch class expiry nullifier hash key (some a) (some b) (some c) v ea
        eb ec h =
      let (class_read, positive) = parse_class-eq_some (parse_uint class) b eb in
      let (n, expiry_read, later, bucket_eq) = parse_expiry-eq_some (parse_int expiry) c ec in
      subst (λ x. ReadFrom (root ∷ epoch ∷ class ∷ expiry ∷ nullifier ∷ hash ∷ key ∷ []) x)
        (check_signals-same expiry _ v h)
        (record {
          epoch = epoch;
          class = class;
          expiry = expiry;
          bucket = n;
          seven = refl;
          epoch_read = ea;
          class_read = class_read;
          class_positive = positive;
          expiry_read = expiry_read;
          bucket_positive = later;
          expiry_bucket = ap unix bucket_eq;
        })

  with_numbers-Bound :
      (root expiry nullifier hash key : Text) (a b : Option ℕ) (c : Option ℤ)
      (v : VpnAccessV1Signals)
      → with_numbers sha256 challenge req now root expiry nullifier hash key a b c ≡ ok v
      → Bound sha256 challenge req now v
  unfolding with_numbers
  with_numbers-Bound root expiry nullifier hash key none b c v h = absurd (ground (arith))
  with_numbers-Bound root expiry nullifier hash key (some a) none c v h = absurd (ground (arith))
  with_numbers-Bound root expiry nullifier hash key (some a) (some b) none v h =
      absurd (ground (arith))
  with_numbers-Bound root expiry nullifier hash key (some a) (some b) (some c) v h =
      check_signals-Bound expiry _ v h

  validate_list-Bound :
      (l : List Text) (v : VpnAccessV1Signals)
      → validate_list sha256 challenge req now l ≡ ok v
      → ReadFrom l v × Bound sha256 challenge req now v
  unfolding validate_list
  validate_list-Bound (root ∷ epoch ∷ class ∷ expiry ∷ nullifier ∷ hash ∷ key ∷ []) v h = (
    with_numbers-ReadFrom root epoch class expiry nullifier hash key _ _ _ v refl refl refl h,
    with_numbers-Bound root expiry nullifier hash key _ _ _ v h,
  )
  validate_list-Bound [] v h = absurd (ground (arith))
  validate_list-Bound (_ ∷ []) v h = absurd (ground (arith))
  validate_list-Bound (_ ∷ _ ∷ []) v h = absurd (ground (arith))
  validate_list-Bound (_ ∷ _ ∷ _ ∷ []) v h = absurd (ground (arith))
  validate_list-Bound (_ ∷ _ ∷ _ ∷ _ ∷ []) v h = absurd (ground (arith))
  validate_list-Bound (_ ∷ _ ∷ _ ∷ _ ∷ _ ∷ []) v h = absurd (ground (arith))
  validate_list-Bound (_ ∷ _ ∷ _ ∷ _ ∷ _ ∷ _ ∷ []) v h = absurd (ground (arith))
  validate_list-Bound (_ ∷ _ ∷ _ ∷ _ ∷ _ ∷ _ ∷ _ ∷ _ ∷ _) v h = absurd (ground (arith))

  -- Signals are accepted only if the request's list has seven texts and they are these, with a policy
  -- epoch, a positive entitlement class and a positive expiry as numbers, and only if they carry the challenge's policy epoch, an expiry later than
  -- now, the request's nullifier hash, the hash of this challenge, the hash of the request's
  -- public key, which the request's own session key hash equals too, and a root that is not empty.
  pub validate_signals-Bound :
      (v : VpnAccessV1Signals)
      → validate_signals sha256 challenge req now ≡ ok v
      → ReadFrom req.public_signals v × Bound sha256 challenge req now v
  unfolding validate_signals
  validate_signals-Bound v h = validate_list-Bound req.public_signals v h
