-- ===== src/Server/Anonymous/Ownership.antt =====
-- What a successful anonymous connect leaves.
use sovereign_vpn.Base.{
  ◌≡◌, ◌≢◌, refl, sym, ap, subst, ◌∙◌, inl, inr, Bool, true, false, not, Option, none, some, ◌==◌,
  nat_eq, text_eq, arith, Bool-cases, beq_refl, Result, ok, err,
}
use sovereign_vpn.Text.{Text}
use sovereign_vpn.Clock.{Time, sub}
use sovereign_vpn.Map.{lookup}
use sovereign_vpn.Map.Laws.{lookup-insert, lookup-delete}
use sovereign_vpn.Nftgate.Store.{Session}
use sovereign_vpn.Nftgate.Store.Laws.{sessions-set_unbound}
use sovereign_vpn.Nftgate.Gate.{Gate, create_anonymous_session}
use sovereign_vpn.Nftgate.Gate.Anonymous.{Made, create_anonymous_session-Made}
use sovereign_vpn.Wireguard.Manager.{Manager, PeerError, PeerConfig, add_peer}
use sovereign_vpn.Anonauth.Challenges.{Challenge, delete_challenge}
use sovereign_vpn.Anonauth.Service.{Service, service_delete_challenge, service_get_challenge}
use sovereign_vpn.Server.Peers.{set_peer_owner}
use sovereign_vpn.Server.State.{
  Server, Externals, ZkClient, Reply, anonymous_connected, AnonymousConnectRequest,
}
use sovereign_vpn.Server.Anonymous.{
  AnonymousTimes, Grant, session_params, peer_added, session_made, nullifier_consumed, admit, judge,
  admit_judged, with_challenge, challenge_read, handle_anonymous_vpn_connect, lacks_field,
}
use sovereign_vpn.Server.Anonymous.Acceptance.{judge-error, Accepted, judge-Accepted}

-- The state after a connect that was granted: its session is stored under the drawn id and owns the
-- key, and its challenge is gone.
pub record Connected (s : Server) (req : AnonymousConnectRequest) (c : Challenge) (g : Grant)
    (drawn : Option Text) (token : Text) (e : Time) : Type 0 where
  pub session : Session
  pub drawn_id : drawn ≡ some session.id
  pub stored : lookup session.id s.gate.store.sessions ≡ some session
  pub unbound : session.address_bound ≡ false
  pub same_token : session.token ≡ token
  pub same_expiry : session.expires_at ≡ e
  pub level : session.tier ≡ g.tier
  pub key_hash : session.session_key_hash ≡ g.session_key_hash
  pub nullifier : session.nullifier_hash ≡ g.nullifier_hash
  pub epoch : session.policy_epoch ≡ c.policy_epoch
  pub owner : lookup req.public_key s.peer_owners ≡ some session.id
  pub challenge_gone : lookup req.challenge_id s.anon_auth.challenges.challenges ≡ none

module _ (sign : Text → Text) (req : AnonymousConnectRequest) (c : Challenge) (g : Grant)
    (drawn : Option Text) (wg_ok : Bool) (t : AnonymousTimes) (token : Text) (cfg : PeerConfig)
    (e : Time) (tier : Text) where
  peer_added-Connected :
      (s0 s : Server) (session : Session) (r : Manager × Result PeerError PeerConfig)
      → Made sign s0.gate (session_params s0 c g t) drawn t.session_at session
      → s.gate
        ≡ (create_anonymous_session sign s0.gate (session_params s0 c g t) drawn t.session_at).0
      → (peer_added s req g session r).1 ≡ anonymous_connected token cfg e tier
      → Connected (peer_added s req g session r).0 req c g drawn token e
  unfolding peer_added session_params set_peer_owner service_delete_challenge delete_challenge
  peer_added-Connected s0 s session (wg, err x) m made h = absurd (ground (arith))
  peer_added-Connected s0 s session (wg, ok cfg') m made h = record {
    session = session;
    drawn_id = m.drawn_id;
    stored =
        ap (λ x. lookup session.id x.store.sessions) made
        ∙ ap (λ x. lookup session.id x.sessions) m.stored
        ∙ ground (
          arith,
          sessions-set_unbound s0.gate.store session session.id m.unbound,
          beq_refl session.id,
        );
    unbound = m.unbound;
    same_token = ground (arith);
    same_expiry = ground (arith);
    level = m.level;
    key_hash = m.key_hash;
    nullifier = m.nullifier;
    epoch = m.epoch;
    owner = ground (
      arith,
      lookup-insert req.public_key req.public_key session.id s.peer_owners,
      beq_refl req.public_key,
    );
    challenge_gone = ground (
      arith,
      lookup-delete req.challenge_id req.challenge_id s.anon_auth.challenges.challenges,
      beq_refl req.challenge_id,
    );
  }

  session_made-Connected :
      (s0 s : Server) (r : Gate × Option Session)
      → r ≡ create_anonymous_session sign s0.gate (session_params s0 c g t) drawn t.session_at
      → (session_made s req g wg_ok t r).1 ≡ anonymous_connected token cfg e tier
      → Connected (session_made s req g wg_ok t r).0 req c g drawn token e
  unfolding session_made
  session_made-Connected s0 s (gate, none) same h = absurd (ground (arith))
  session_made-Connected s0 s (gate, some session) same h =
      peer_added-Connected s0 (record s { gate = gate }) session
        (add_peer s.wg req.public_key (sub session.expires_at t.until_at) wg_ok t.added_at)
        (create_anonymous_session-Made sign s0.gate (session_params s0 c g t) t.session_at drawn
          session (sym (ap (λ x. x.1) same)))
        (ap (λ x. x.0) same) h

  nullifier_consumed-Connected :
      (s : Server) (r : Service × Bool)
      → (nullifier_consumed sign s req c g drawn wg_ok t r).1 ≡ anonymous_connected token cfg e tier
      → Connected (nullifier_consumed sign s req c g drawn wg_ok t r).0 req c g drawn token e
  unfolding nullifier_consumed
  nullifier_consumed-Connected s (a, false) h = absurd (ground (arith))
  nullifier_consumed-Connected s (a, true) h =
      session_made-Connected s (record s { anon_auth = a }) _ refl h

  admit-Connected :
      (s : Server)
      → (admit sign s req c g drawn wg_ok t).1 ≡ anonymous_connected token cfg e tier
      → Connected (admit sign s req c g drawn wg_ok t).0 req c g drawn token e
  unfolding admit
  admit-Connected s h = nullifier_consumed-Connected s _ h

-- Why an anonymous connect was answered with a session, and the state after it.
pub record Completed (sha256 : Text → Text) (zk : Option ZkClient) (s s' : Server)
    (req : AnonymousConnectRequest) (drawn : Option Text) (t : AnonymousTimes) (token : Text)
    (e : Time) : Type 0 where
  pub challenge : Challenge
  pub grant : Grant
  pub found : (service_get_challenge s.anon_auth req.challenge_id t.challenge_at).1 ≡ some challenge
  pub same_type : req.proof_type ≡ challenge.proof_type
  pub accepted :
      Accepted sha256 zk
        (record s {
          anon_auth = (service_get_challenge s.anon_auth req.challenge_id t.challenge_at).0;
        })
        req
        challenge
        t
        grant
  pub result : Connected s' req challenge grant drawn token e

module _ (sign sha256 : Text → Text) (ext : Externals) (req : AnonymousConnectRequest)
    (drawn : Option Text) (wg_ok : Bool) (t : AnonymousTimes) (token : Text) (cfg : PeerConfig)
    (e : Time) (tier : Text) where
  admit_judged-Connected :
      (c : Challenge) (r : Server × Result Reply Grant)
      → (admit_judged sign req c drawn wg_ok t r).1 ≡ anonymous_connected token cfg e tier
      → ((reply : Reply) → r.1 ≡ err reply → reply ≢ anonymous_connected token cfg e tier)
      → (g : Grant) × (r.1 ≡ ok g)
        × Connected (admit_judged sign req c drawn wg_ok t r).0 req c g drawn token e
  unfolding admit_judged
  admit_judged-Connected c (s, err reply) h errors = absurd (errors reply refl h)
  admit_judged-Connected c (s, ok g) h errors =
      (g, refl, admit-Connected sign req c g drawn wg_ok t token cfg e tier s h)

  with_challenge-Completed :
      (s s1 : Server) (found : Option Challenge)
      → (service_get_challenge s.anon_auth req.challenge_id t.challenge_at).1 ≡ found
      → s1 ≡ record s {
        anon_auth = (service_get_challenge s.anon_auth req.challenge_id t.challenge_at).0;
      }
      → (with_challenge sign sha256 ext.zk_client s1 req drawn wg_ok t found).1
        ≡ anonymous_connected token cfg e tier
      → Completed sha256 ext.zk_client s
          (with_challenge sign sha256 ext.zk_client s1 req drawn wg_ok t found).0
          req
          drawn
          t
          token
          e
  unfolding with_challenge
  with_challenge-Completed s s1 none f same h = absurd (ground (arith))
  with_challenge-Completed s s1 (some c) f same h =
      elim (Bool-cases (not (req.proof_type == c.proof_type))) [
        | inl other ↦ absurd (ground (arith, other))
        | inr equal ↦ rw equal (
            let (g, granted, done) =
              admit_judged-Connected c (judge sha256 ext.zk_client s1 req c t)
                (ground (arith, equal))
                (judge-error sha256 ext.zk_client s1 req c t token cfg e tier) in
            record {
              challenge = c;
              grant = g;
              found = f;
              same_type = ground (arith, equal, text_eq.beq_iff req.proof_type c.proof_type);
              accepted =
                  subst (λ x. Accepted sha256 ext.zk_client x req c t g) same
                    (judge-Accepted sha256 ext.zk_client s1 req c t g granted);
              result = done;
            })
      ]

-- An anonymous connect that answers with a session found the challenge that the request names, of
-- the same proof type, and the ZK API accepted the proof. For vpn_access_v1 the policy was
-- refreshed, and the signals are the request's seven public signals, in their order, with the epoch,
-- a positive class and a positive expiry read as numbers; they have the policy's root and the
-- challenge's epoch, are not expired, and carry the request's nullifier hash and the hashes of the
-- challenge and of the request's key. Every other type is of the free tier. The new session is stored
-- under the drawn id with the grant's tier and hashes and the challenge's policy epoch, the
-- challenge is gone, and the session owns the request's key, whichever session owned it before.
pub handle_anonymous_vpn_connect-Completed :
    (sign sha256 : Text → Text) (ext : Externals) (s : Server) (req : AnonymousConnectRequest)
    (drawn : Option Text) (wg_ok : Bool) (t : AnonymousTimes) (token : Text) (cfg : PeerConfig)
    (e : Time) (tier : Text)
    → (handle_anonymous_vpn_connect sign sha256 ext s (some req) drawn wg_ok t).1
      ≡ anonymous_connected token cfg e tier
    → Completed sha256 ext.zk_client s
        (handle_anonymous_vpn_connect sign sha256 ext s (some req) drawn wg_ok t).0
        req
        drawn
        t
        token
        e
unfolding handle_anonymous_vpn_connect challenge_read
handle_anonymous_vpn_connect-Completed sign sha256 ext s req drawn wg_ok t token cfg e tier h =
    elim (Bool-cases (lacks_field req)) [
      | inl lacks ↦ absurd (ground (arith, lacks))
      | inr full ↦ rw full (
          with_challenge-Completed sign sha256 ext req drawn wg_ok t token cfg e tier s
            (record s {
              anon_auth = (service_get_challenge s.anon_auth req.challenge_id t.challenge_at).0;
            })
            (service_get_challenge s.anon_auth req.challenge_id t.challenge_at).1 refl refl
            (ground (arith, full)))
    ]
