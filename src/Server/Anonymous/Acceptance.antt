-- ===== src/Server/Anonymous/Acceptance.antt =====
-- Which proofs an anonymous connect accepts.
use sovereign_vpn.Wireguard.Manager.{PeerConfig}
use sovereign_vpn.Base.{
  ◌≡◌, ◌≢◌, refl, ◌⊎◌, inl, inr, Bool, true, false, Option, none, some, ◌==◌, nat_eq, text_eq,
  arith, Bool-cases, Option-cases, ne_of_beq-false, Result, ok, err,
}
use sovereign_vpn.Text.{Text, text}
use sovereign_vpn.Clock.{Time}
use sovereign_vpn.Anonauth.Challenges.{Challenge}
use sovereign_vpn.Nftcheck.Tier.{AccessTier, tier_eq}
use sovereign_vpn.Server.State.{
  anonymous_connected, Server, ZkClient, Reply, error_reply, AnonymousConnectRequest,
}
use sovereign_vpn.Server.Policy.{refresh_policy}
use sovereign_vpn.Server.Signals.{VpnAccessV1Signals, SignalError, validate_signals}
use sovereign_vpn.Server.Signals.Binding.{Bound, validate_signals-Bound, ReadFrom}
use sovereign_vpn.Server.Anonymous.{
  AnonymousTimes, Grant, v1_grant, other_grant, proof_error, other_tier, judge_other, check_root,
  judge_refreshed, judge,
}

-- What an accepted proof of type vpn_access_v1 says: the policy could be refreshed, and the signals
-- are read from the request's list, and bound to the challenge, the request and the current root.
pub record AcceptedV1 (sha256 : Text → Text) (zk : ZkClient) (s : Server)
    (req : AnonymousConnectRequest) (c : Challenge) (t : AnonymousTimes) (g : Grant) : Type 0 where
  pub signals : VpnAccessV1Signals
  pub refreshed : (refresh_policy zk s true t.fetched_at t.fetched_at).1 ≡ true
  pub read_from : ReadFrom req.public_signals signals
  pub bound : Bound sha256 c req t.signals_at signals
  pub current_root :
      signals.root ≡ (refresh_policy zk s true t.fetched_at t.fetched_at).0.policy_root
  pub granted : g ≡ v1_grant signals

-- What any other accepted proof says: the free tier.
pub record AcceptedOther (s : Server) (req : AnonymousConnectRequest) (g : Grant) : Type 0 where
  pub free : other_tier s req ≡ AccessTier.free
  pub granted : g ≡ other_grant req

pub record Accepted (sha256 : Text → Text) (zk : Option ZkClient) (s : Server)
    (req : AnonymousConnectRequest) (c : Challenge) (t : AnonymousTimes) (g : Grant) : Type 0 where
  pub client : ZkClient
  pub configured : zk ≡ some client
  pub proved : client.verify_proof req.proof_type req.proof req.public_signals ≡ some true
  pub kind :
      ((req.proof_type ≡ text "vpn_access_v1") × AcceptedV1 sha256 client s req c t g)
      ⊎ ((req.proof_type ≢ text "vpn_access_v1") × AcceptedOther s req g)

proof_error-eq_none : (o : Option Bool) → proof_error o ≡ none → o ≡ some true
proof_error-eq_none none h = absurd (ground (arith))
proof_error-eq_none (some true) h = refl
proof_error-eq_none (some false) h = absurd (ground (arith))

tier_is_free : (a : AccessTier) → (a == AccessTier.free) ≡ true → a ≡ AccessTier.free
tier_is_free AccessTier.denied h = absurd (ground (arith))
tier_is_free AccessTier.paid h = absurd (ground (arith))
tier_is_free AccessTier.free h = refl

judge_other-Accepted :
    (zk : ZkClient) (s : Server) (req : AnonymousConnectRequest) (g : Grant)
    → judge_other zk s req ≡ ok g
    → (zk.verify_proof req.proof_type req.proof req.public_signals ≡ some true)
      × AcceptedOther s req g
unfolding judge_other
judge_other-Accepted zk s req g h =
    elim (Option-cases
      (proof_error (zk.verify_proof req.proof_type req.proof req.public_signals))) [
        | inr (r, e) ↦ absurd (ground (arith, e))
        | inl e ↦ (
          proof_error-eq_none (zk.verify_proof req.proof_type req.proof req.public_signals) e,
          record {
            free = tier_is_free (other_tier s req) (ground (arith, e));
            granted = ground (arith, e);
          },
        )
      ]

module _ (sha256 : Text → Text) (zk : ZkClient) (req : AnonymousConnectRequest) (c : Challenge)
    (t : AnonymousTimes) (g : Grant) where
  check_root-ok :
      (s : Server) (r : Result SignalError VpnAccessV1Signals)
      → check_root zk s req r ≡ ok g
      → (v : VpnAccessV1Signals) × (r ≡ ok v)
        × (v.root ≡ s.policy_root)
        × (g ≡ v1_grant v)
        × (zk.verify_proof req.proof_type req.proof req.public_signals ≡ some true)
  unfolding check_root
  check_root-ok s (err e) h = absurd (ground (arith))
  check_root-ok s (ok v) h =
      elim (Option-cases
        (proof_error (zk.verify_proof req.proof_type req.proof req.public_signals))) [
          | inr (r, e) ↦ absurd (ground (arith, e))
          | inl e ↦ (
            v,
            refl,
            ground (arith, e, text_eq.beq_iff v.root s.policy_root),
            ground (arith, e),
            proof_error-eq_none (zk.verify_proof req.proof_type req.proof req.public_signals) e,
          )
        ]

  judge_refreshed-ok :
      (r : Server × Bool)
      → (judge_refreshed sha256 zk req c t r).1 ≡ ok g
      → (r.1 ≡ true) × (check_root zk r.0 req (validate_signals sha256 c req t.signals_at) ≡ ok g)
  unfolding judge_refreshed
  judge_refreshed-ok (s, false) h = absurd (ground (arith))
  judge_refreshed-ok (s, true) h = (refl, h)

  judge_v1-Accepted :
      (s : Server)
      → (judge_refreshed sha256 zk req c t (refresh_policy zk s true t.fetched_at t.fetched_at)).1
        ≡ ok g
      → (zk.verify_proof req.proof_type req.proof req.public_signals ≡ some true)
        × AcceptedV1 sha256 zk s req c t g
  judge_v1-Accepted s h =
      let (done, checked) =
        judge_refreshed-ok (refresh_policy zk s true t.fetched_at t.fetched_at) h in
      let (v, valid, root, granted, proved) =
        check_root-ok (refresh_policy zk s true t.fetched_at t.fetched_at).0
          (validate_signals sha256 c req t.signals_at) checked in
      let (from_list, bound) = validate_signals-Bound sha256 c req t.signals_at v valid in
      (
        proved,
        record {
          signals = v;
          refreshed = done;
          read_from = from_list;
          bound = bound;
          current_root = root;
          granted = granted;
        },
      )

-- A grant for an anonymous request comes only from a configured ZK API that verifies the proof. For
-- vpn_access_v1 the policy was refreshed, the signals are read from the request's seven public
-- signals, their root is the refreshed one, and they are bound to the challenge, the request's
-- nullifier and its public key, and not expired; the grant is theirs. For every other type the tier is free, and the hashes are the request's.
pub judge-Accepted :
    (sha256 : Text → Text) (zk : Option ZkClient) (s : Server) (req : AnonymousConnectRequest)
    (c : Challenge) (t : AnonymousTimes) (g : Grant)
    → (judge sha256 zk s req c t).1 ≡ ok g
    → Accepted sha256 zk s req c t g
unfolding judge
judge-Accepted sha256 none s req c t g h = absurd (ground (arith))
judge-Accepted sha256 (some zk) s req c t g h =
    elim (Bool-cases (req.proof_type == text "vpn_access_v1")) [
      | inl v1 ↦
          (let (proved, accepted) = judge_v1-Accepted sha256 zk req c t g s (ground (arith, v1)) in
            record {
              client = zk;
              configured = refl;
              proved = proved;
              kind = inl (
                ground (arith, v1, text_eq.beq_iff req.proof_type (text "vpn_access_v1")),
                accepted,
              );
            })
      | inr other ↦
          (let (proved, accepted) = judge_other-Accepted zk s req g (ground (arith, other)) in
            record {
              client = zk;
              configured = refl;
              proved = proved;
              kind = inr (ne_of_beq-false req.proof_type (text "vpn_access_v1") other, accepted);
            })
    ]

-- Whether a refusal is an error answer.
abbrev is_proper : Result Reply Grant → Bool
is_proper (ok g) = true
is_proper (err (error_reply code message)) = true
is_proper (err _) = false

module _ (zk : ZkClient) (req : AnonymousConnectRequest) where
  proof : Option Bool
  proof = zk.verify_proof req.proof_type req.proof req.public_signals

  judge_other-is_proper : (s : Server) → is_proper (judge_other zk s req) ≡ true
  unfolding judge_other proof
  judge_other-is_proper s = elim (Option-cases proof) [
    | inl e ↦ ground (arith, e)
    | inr (true, e) ↦ ground (arith, e)
    | inr (false, e) ↦ ground (arith, e)
  ]

  check_root-is_proper :
      (s : Server) (r : Result SignalError VpnAccessV1Signals)
      → is_proper (check_root zk s req r) ≡ true
  unfolding check_root proof
  check_root-is_proper s (err e) = refl
  check_root-is_proper s (ok v) = elim (Option-cases proof) [
    | inl e ↦ ground (arith, e)
    | inr (true, e) ↦ ground (arith, e)
    | inr (false, e) ↦ ground (arith, e)
  ]

judge-is_proper :
    (sha256 : Text → Text) (zk : Option ZkClient) (s : Server) (req : AnonymousConnectRequest)
    (c : Challenge) (t : AnonymousTimes)
    → is_proper (judge sha256 zk s req c t).1 ≡ true
unfolding judge judge_refreshed
judge-is_proper sha256 none s req c t = refl
judge-is_proper sha256 (some zk) s req c t =
    elim (Bool-cases (req.proof_type == text "vpn_access_v1")) [
      | inl v1 ↦ rw v1 (refreshed (refresh_policy zk s true t.fetched_at t.fetched_at))
      | inr other ↦ rw other (judge_other-is_proper zk req s)
    ]
  where
    refreshed : (r : Server × Bool) → is_proper (judge_refreshed sha256 zk req c t r).1 ≡ true
    refreshed (s', true) =
        check_root-is_proper zk req s' (validate_signals sha256 c req t.signals_at)
    refreshed (s', false) = refl

pub judge-error :
    (sha256 : Text → Text) (zk : Option ZkClient) (s : Server) (req : AnonymousConnectRequest)
    (c : Challenge) (t : AnonymousTimes) (token : Text) (cfg : PeerConfig) (e : Time) (tier : Text)
    (reply : Reply)
    → (judge sha256 zk s req c t).1 ≡ err reply
    → reply ≢ anonymous_connected token cfg e tier
judge-error sha256 zk s req c t token cfg e tier reply h f =
    absurd (ground (arith, judge-is_proper sha256 zk s req c t))
