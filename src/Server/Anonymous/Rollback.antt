-- ===== src/Server/Anonymous/Rollback.antt =====
-- What a refused anonymous connect leaves behind.
use sovereign_vpn.Base.{
  ◌≡◌, ◌≢◌, refl, sym, ap, subst, ◌∙◌, inl, inr, Bool, true, false, not, Option, none, some, ◌==◌,
  nat_eq, text_eq, arith, Bool-cases, Result, ok, err,
}
use sovereign_vpn.Text.{Text, text}
use sovereign_vpn.Clock.{Time, Duration, add, sub}
use sovereign_vpn.Map.{lookup}
use sovereign_vpn.Map.Laws.{lookup-insert, lookup-delete}
use sovereign_vpn.Nftgate.Store.{Session, set}
use sovereign_vpn.Nftgate.Store.Laws.{sessions-set_unbound, sessions-delete_by_id}
use sovereign_vpn.Nftgate.Gate.{Gate, create_anonymous_session, delete_session_by_id}
use sovereign_vpn.Wireguard.Manager.{Manager, PeerError, PeerConfig, add_peer}
use sovereign_vpn.Anonauth.Challenges.{Challenge}
use sovereign_vpn.Anonauth.Nullifiers.{consume, release, is_active, lifetime}
use sovereign_vpn.Anonauth.Service.{
  Service, consume_nullifier, release_nullifier, service_get_challenge,
}
use sovereign_vpn.Server.State.{Server, Externals, ZkClient, Reply, status, AnonymousConnectRequest}
use sovereign_vpn.Server.Policy.{refresh_policy}
use sovereign_vpn.Server.Policy.Freshness.{Frame, refresh_policy-Frame}
use sovereign_vpn.Server.Anonymous.{
  lacks_field, AnonymousTimes, Grant, session_params, peer_added, session_made, nullifier_consumed,
  admit, judge, judge_refreshed, admit_judged, with_challenge, challenge_read,
  handle_anonymous_vpn_connect,
}
use sovereign_vpn.Nftgate.Gate.Anonymous.{
  create_anonymous_session-Made, create_anonymous_session-eq_none,
}
use sovereign_vpn.Wireguard.Manager.Failure.{add_peer-eq_err}

-- Two states with the same sessions, peers and key owners, and the same active nullifiers at a
-- time.
pub record Same (now : Time) (s s' : Server) : Type 0 where
  pub sessions : (id : Text) → lookup id s'.gate.store.sessions ≡ lookup id s.gate.store.sessions
  pub peers : s'.wg.peers ≡ s.wg.peers
  pub owners : s'.peer_owners ≡ s.peer_owners
  pub active :
      (n : Text)
      → is_active now (lookup n s'.anon_auth.nullifiers.nullifiers)
        ≡ is_active now (lookup n s.anon_auth.nullifiers.nullifiers)

of_parts :
    (now : Time) (s s' : Server)
    → s'.gate ≡ s.gate
    → s'.wg ≡ s.wg
    → s'.peer_owners ≡ s.peer_owners
    → s'.anon_auth.nullifiers ≡ s.anon_auth.nullifiers
    → Same now s s'
of_parts now s s' g w o n = record {
  sessions = λ id. ap (λ x. lookup id x.store.sessions) g;
  peers = ap (λ x. x.peers) w;
  owners = o;
  active = λ m. ap (λ x. is_active now (lookup m x.nullifiers)) n;
}

Same-trans : (now : Time) (a b c : Server) → Same now a b → Same now b c → Same now a c
Same-trans now a b c x y = record {
  sessions = λ id. y.sessions id ∙ x.sessions id;
  peers = y.peers ∙ x.peers;
  owners = y.owners ∙ x.owners;
  active = λ n. y.active n ∙ x.active n;
}

-- Consuming a nullifier and giving it back changes no active entry.
active-release_consume :
    (a : Service) (n m : Text) (ttl : Duration) (now : Time)
    → (consume_nullifier a n ttl now).1 ≡ true
    → is_active now
        (lookup m (release_nullifier (consume_nullifier a n ttl now).0 n).nullifiers.nullifiers)
      ≡ is_active now (lookup m a.nullifiers.nullifiers)
unfolding consume_nullifier release_nullifier consume release
active-release_consume a n m ttl now h = ground (
  arith,
  lookup-insert m n (add now (lifetime ttl)) a.nullifiers.nullifiers,
  lookup-delete m n (consume a.nullifiers n ttl now).0.nullifiers,
  text_eq.beq_iff n m,
)

consume_nullifier-refused :
    (a : Service) (n : Text) (ttl : Duration) (now : Time)
    → (consume_nullifier a n ttl now).1 ≡ false
    → (consume_nullifier a n ttl now).0.nullifiers ≡ a.nullifiers
unfolding consume_nullifier consume
consume_nullifier-refused a n ttl now h = ground arith

sessions-delete_set :
    (g0 g1 : Gate) (s : Session) (i : Text)
    → g1.store ≡ set g0.store s
    → s.address_bound ≡ false
    → lookup s.id g0.store.sessions ≡ none
    → lookup i (delete_session_by_id g1 s.id).store.sessions ≡ lookup i g0.store.sessions
unfolding delete_session_by_id
sessions-delete_set g0 g1 s i stored unbound fresh = ground (
  arith,
  sessions-delete_by_id g1.store s.id i,
  ap (λ ss. lookup i ss.sessions) stored,
  sessions-set_unbound g0.store s i unbound,
  text_eq.beq_iff s.id i,
)

-- The consequence of an answer's code: the state is as before unless the answer is 200.
abbrev RolledBack : Time → Server → Server × Reply → Type 0
RolledBack now s r = status r.1 ≢ 200 → Same now s r.0

-- The session's id is not in the store.
abbrev pub IsNewId : Option Text → Server → Type 0
IsNewId drawn s = (id : Text) → drawn ≡ some id → lookup id s.gate.store.sessions ≡ none

module _ (sign : Text → Text) (s : Server) (req : AnonymousConnectRequest) (challenge : Challenge)
    (grant : Grant) (drawn : Option Text) (wg_ok : Bool) (t : AnonymousTimes)
    (new_id : IsNewId drawn s) where
  consumed : Service
  consumed = (consume_nullifier s.anon_auth grant.nullifier_hash s.credential_ttl t.nullifier_at).0

  made : Gate × Option Session
  made =
      create_anonymous_session sign s.gate (session_params s challenge grant t) drawn t.session_at

  module _
      (done : (consume_nullifier s.anon_auth grant.nullifier_hash s.credential_ttl t.nullifier_at).1
        ≡ true) where
    peer_added-RolledBack :
        (session : Session) (r : Manager × Result PeerError PeerConfig)
        → made.1 ≡ some session
        → ((e : PeerError) → r.1 ≡ err e → r.0.peers ≡ s.wg.peers)
        → RolledBack t.nullifier_at s
            (peer_added (record s { anon_auth = consumed; gate = made.0 }) req grant session r)
    unfolding consumed made peer_added
    peer_added-RolledBack session (wg, ok cfg) m p h = absurd (h refl)
    peer_added-RolledBack session (wg, err e) m p h =
        let x =
          create_anonymous_session-Made sign s.gate (session_params s challenge grant t)
            t.session_at drawn session m in
        record {
          sessions = λ i.
              sessions-delete_set s.gate made.0 session i x.stored x.unbound
                (new_id session.id x.drawn_id);
          peers = p e refl;
          owners = refl;
          active = λ n.
              active-release_consume s.anon_auth grant.nullifier_hash n s.credential_ttl
                t.nullifier_at done;
        }

    session_made-RolledBack :
        (r : Gate × Option Session)
        → r ≡ made
        → RolledBack t.nullifier_at s
            (session_made (record s { anon_auth = consumed }) req grant wg_ok t r)
    unfolding consumed made session_made
    session_made-RolledBack (gate, none) e h = record {
      sessions = λ i.
          ap (λ g. lookup i g.store.sessions)
            (ap (λ x. x.0) e
              ∙ create_anonymous_session-eq_none sign s.gate (session_params s challenge grant t)
                  t.session_at drawn (sym (ap (λ x. x.1) e)));
      peers = refl;
      owners = refl;
      active = λ n.
          active-release_consume s.anon_auth grant.nullifier_hash n s.credential_ttl t.nullifier_at
            done;
    }
    session_made-RolledBack (gate, some session) e h =
        subst
          (λ g.
            RolledBack t.nullifier_at s (
              session_made (record s { anon_auth = consumed }) req grant wg_ok t (g, some session)))
          (sym (ap (λ x. x.0) e))
          (peer_added-RolledBack session
            (add_peer s.wg req.public_key (sub session.expires_at t.until_at) wg_ok t.added_at)
            (sym (ap (λ x. x.1) e))
            (add_peer-eq_err s.wg req.public_key (sub session.expires_at t.until_at) wg_ok
              t.added_at))
          h

  admit-RolledBack : RolledBack t.nullifier_at s (admit sign s req challenge grant drawn wg_ok t)
  unfolding admit nullifier_consumed made consumed
  admit-RolledBack =
      of_result (consume_nullifier s.anon_auth grant.nullifier_hash s.credential_ttl t.nullifier_at)
        refl
    where
      of_result :
          (r : Service × Bool)
          → consume_nullifier s.anon_auth grant.nullifier_hash s.credential_ttl t.nullifier_at ≡ r
          → RolledBack t.nullifier_at s
              (nullifier_consumed sign s req challenge grant drawn wg_ok t r)
      of_result (a, false) e h =
          of_parts t.nullifier_at s (record s { anon_auth = a }) refl refl refl
            (sym (ap (λ x. x.0.nullifiers) e)
              ∙ consume_nullifier-refused s.anon_auth grant.nullifier_hash s.credential_ttl
                  t.nullifier_at (ap (λ x. x.1) e))
      of_result (a, true) e h =
          subst
            (λ x.
              RolledBack t.nullifier_at s
                (session_made (record s { anon_auth = x }) req grant wg_ok t made))
            (ap (λ x. x.0) e) (session_made-RolledBack (ap (λ x. x.1) e) made refl) h

judge-Same :
    (sha256 : Text → Text) (zk : Option ZkClient) (s : Server) (req : AnonymousConnectRequest)
    (challenge : Challenge) (t : AnonymousTimes) (now : Time)
    → Same now s (judge sha256 zk s req challenge t).0
unfolding judge
judge-Same sha256 none s req challenge t now = of_parts now s s refl refl refl refl
judge-Same sha256 (some zk) s req challenge t now =
    elim (Bool-cases (req.proof_type == text "vpn_access_v1")) [
      | inr other ↦ rw other (of_parts now s s refl refl refl refl)
      | inl v1 ↦ rw v1 (
          refreshed (refresh_policy zk s true t.fetched_at t.fetched_at)
            (refresh_policy-Frame zk s true t.fetched_at t.fetched_at))
    ]
  where
    refreshed :
        (r : Server × Bool)
        → Frame s r.0
        → Same now s (judge_refreshed sha256 zk req challenge t r).0
    refreshed (s', true) f = of_parts now s s' f.gate f.wg f.owners f.nullifiers
    refreshed (s', false) f = of_parts now s s' f.gate f.wg f.owners f.nullifiers

module _ (sign sha256 : Text → Text) (ext : Externals) (req : AnonymousConnectRequest)
    (drawn : Option Text) (wg_ok : Bool) (t : AnonymousTimes) where
  admit_judged-RolledBack :
      (s : Server) (challenge : Challenge) (r : Server × Result Reply Grant)
      → IsNewId drawn s
      → Same t.nullifier_at s r.0
      → RolledBack t.nullifier_at s (admit_judged sign req challenge drawn wg_ok t r)
  unfolding admit_judged
  admit_judged-RolledBack s challenge (s', err reply) new_id same h = same
  admit_judged-RolledBack s challenge (s', ok grant) new_id same h =
      Same-trans t.nullifier_at s s' (admit sign s' req challenge grant drawn wg_ok t).0 same (
        admit-RolledBack sign s' req challenge grant drawn wg_ok t
          (λ id e. same.sessions id ∙ new_id id e) h)

  with_challenge-RolledBack :
      (s : Server) (found : Option Challenge)
      → IsNewId drawn s
      → RolledBack t.nullifier_at s
          (with_challenge sign sha256 ext.zk_client s req drawn wg_ok t found)
  unfolding with_challenge
  with_challenge-RolledBack s none new_id = λ h. of_parts t.nullifier_at s s refl refl refl refl
  with_challenge-RolledBack s (some c) new_id =
      elim (Bool-cases (not (req.proof_type == c.proof_type))) [
        | inl other ↦ rw other (λ h. of_parts t.nullifier_at s s refl refl refl refl)
        | inr same ↦ rw same (
            admit_judged-RolledBack s c (judge sha256 ext.zk_client s req c t) new_id
              (judge-Same sha256 ext.zk_client s req c t t.nullifier_at))
      ]

-- Unless an anonymous connect is answered with 200, it leaves the sessions, the peers and the
-- owners of keys as they were, and the nullifiers that are active at its check of the nullifier,
-- whatever its request, the ZK API, the random source and the `wg` command do. The session id that
-- is drawn, if one is, is not one of a stored session.
pub handle_anonymous_vpn_connect-RolledBack :
    (sign sha256 : Text → Text) (ext : Externals) (s : Server)
    (body : Option AnonymousConnectRequest) (drawn : Option Text) (wg_ok : Bool)
    (t : AnonymousTimes)
    → IsNewId drawn s
    → status (handle_anonymous_vpn_connect sign sha256 ext s body drawn wg_ok t).1 ≢ 200
    → Same t.nullifier_at s (handle_anonymous_vpn_connect sign sha256 ext s body drawn wg_ok t).0
unfolding handle_anonymous_vpn_connect challenge_read service_get_challenge
handle_anonymous_vpn_connect-RolledBack sign sha256 ext s none drawn wg_ok t new_id =
    λ h. of_parts t.nullifier_at s s refl refl refl refl
handle_anonymous_vpn_connect-RolledBack sign sha256 ext s (some req) drawn wg_ok t new_id =
    elim (Bool-cases (lacks_field req)) [
      | inl lacks ↦ rw lacks (λ h. of_parts t.nullifier_at s s refl refl refl refl)
      | inr full ↦ rw full (λ h.
          let a = (service_get_challenge s.anon_auth req.challenge_id t.challenge_at).0 in
          let s' = record s { anon_auth = a } in
          Same-trans t.nullifier_at s s' _ (of_parts t.nullifier_at s s' refl refl refl refl)
            (with_challenge-RolledBack sign sha256 ext req drawn wg_ok t s' _ new_id h))
    ]
