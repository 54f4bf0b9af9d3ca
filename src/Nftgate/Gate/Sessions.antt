-- ===== src/Nftgate/Gate/Sessions.antt =====
-- What the gate's sessions promise: a token stands for one live session, and a revoked or replaced
-- session is gone.
use sovereign_vpn.Nftgate.Token.Laws.{parse_of_minted, NoDot}
use sovereign_vpn.Nftcheck.Tier.{AccessTier}
use sovereign_vpn.Nftgate.Store.Effects.{set-exact, delete_by_address-exact}
use sovereign_vpn.Nftgate.Store.Laws.{binds}
use sovereign_vpn.Nftgate.Store.Invariant.{Consistent}
use sovereign_vpn.Base.{
  ◌==◌, refl, ◌||◌, Bool-cases, subst, none, ℤ, if◌then◌else◌, ◌*◌, ◌^◌, ◌<◌, ◌∙◌, sym, ap, true,
  Option, false, ◌≡◌, some, nat_eq, text_eq, arith, Option-cases, inl, inr, ◌≤◌,
}
use sovereign_vpn.Text.{Text}
use sovereign_vpn.Clock.{unix, after, second, unix_epoch, to_unix, add, Time}
use sovereign_vpn.Map.{lookup}
use sovereign_vpn.Nftgate.Token.{new_session_token, parse_and_verify_token}
use sovereign_vpn.Nftgate.Store.{delete_by_id, SessionStore, set, Address, Session, get_by_id}
use sovereign_vpn.Nftgate.Gate.{
  store_session, wallet_session, with_wallet_token, by_token, at_parsed, create_session,
  revoke_session, Gate, get_session_by_token,
}

module _ (sign : Text → Text) (g : Gate) (token : Text) (now : Time) where
  -- What a token that the gate answers to says: a stored session, under the token's id, whose
  -- expiry and the token's own are not over.
  pub get_session_by_token-eq_some :
      (s : Session)
      → (get_session_by_token sign g token now).1 ≡ some s
      → (id : Text) × (t : Time) × (parse_and_verify_token sign token ≡ some (id, t))
        × (lookup id g.store.sessions ≡ some s)
        × (now ≤ s.expires_at)
        × (now ≤ t)
  unfolding get_session_by_token get_by_id
  get_session_by_token-eq_some s h = elim (Option-cases (parse_and_verify_token sign token)) [
    | inl e ↦ ground (arith, e)
    | inr ((id, t), e) ↦ (id, t, e, ground (arith, e), ground (arith, e), ground (arith, e))
  ]

unix-to_unix-le : (t : Time) → unix_epoch * second ≤ t → unix (ℤ.pos (to_unix t)) ≤ t
unix-to_unix-le t h = omega arith

get_session_by_token-stored :
    (sign : Text → Text) (g : Gate) (token id : Text) (t now : Time) (s : Session)
    → parse_and_verify_token sign token ≡ some (id, t)
    → lookup id g.store.sessions ≡ some s
    → t ≤ s.expires_at
    → (get_session_by_token sign g token now).1 ≡ (if after now t then none else some s)
unfolding get_session_by_token get_by_id
get_session_by_token-stored sign g token id t now s e f h =
    rw (e, get_session_by_token) (rw (f, get_by_id) (ground arith))

-- The answer to a token of a stored session, which is live until its expiry and the token's.
abbrev live_session : Option Session → Time → Time → Option Session
live_session none t now = none
live_session (some s) t now = if after now s.expires_at || after now t then none else some s

get_session_by_token-answer :
    (sign : Text → Text) (g : Gate) (token id : Text) (t now : Time)
    → parse_and_verify_token sign token ≡ some (id, t)
    → (get_session_by_token sign g token now).1 ≡ live_session (lookup id g.store.sessions) t now
unfolding get_session_by_token get_by_id
get_session_by_token-answer sign g token id t now e = ground (arith, e)

-- The session that a sign-in makes, and the store with it.
pub record Created (sign : Text → Text) (g : Gate) (wallet : Address) (tier : AccessTier)
    (drawn : Option Text) (t0 : Time) (s : Session) : Type 0 where
  pub stored : (create_session sign g wallet tier drawn t0).0.store ≡ set g.store s
  pub minted : new_session_token sign drawn (add t0 g.cred_ttl) ≡ some (s.id, s.token)
  pub bound : s.address_bound ≡ true
  pub owner : s.address ≡ wallet
  pub level : s.tier ≡ tier
  pub expiry : s.expires_at ≡ add t0 g.cred_ttl

pub create_session-Created :
    (sign : Text → Text) (g : Gate) (wallet : Address) (tier : AccessTier) (drawn : Option Text)
    (t0 : Time) (s : Session)
    → (create_session sign g wallet tier drawn t0).1 ≡ some s
    → Created sign g wallet tier drawn t0 s
unfolding create_session
create_session-Created sign g wallet tier drawn t0 s h =
    elim (Option-cases (new_session_token sign drawn (add t0 g.cred_ttl))) [
      | inl e ↦ absurd (ground (arith, e))
      | inr ((id, token), e) ↦ record {
        stored = ground (arith, e);
        minted = ground (arith, e);
        bound = ground (arith, e);
        owner = ground (arith, e);
        level = ground (arith, e);
        expiry = ground (arith, e);
      }
    ]

module _ (sign : Text → Text) (g : Gate) (c : Consistent g.store) (wallet : Address) where
  -- Once a wallet is revoked, no token at all yields a session that is bound to it.
  pub revoke_session_lem :
      (token : Text) (now : Time) (s : Session)
      → (get_session_by_token sign (revoke_session g wallet) token now).1 ≡ some s
      → binds (some s) wallet ≡ false
  unfolding revoke_session
  revoke_session_lem token now s h =
      let (id, t, e, found, u, v) =
        get_session_by_token-eq_some sign (revoke_session g wallet) token now s h in
      ground (arith, found, delete_by_address-exact g.store c wallet id)

  -- Where the session store is consistent, after a sign-in every token that verifies is answered as
  -- follows: one with the new session's id by the new session, until its expiry and the token's; one
  -- whose id stood for a session bound to the wallet before by nothing; any other as before.
  pub create_session-replaces :
      (tier : AccessTier) (drawn : Option Text) (t0 : Time) (fresh : Session)
      → (create_session sign g wallet tier drawn t0).1 ≡ some fresh
      → (token id : Text) (t now : Time) → parse_and_verify_token sign token ≡ some (id, t)
      → (get_session_by_token sign (create_session sign g wallet tier drawn t0).0 token now).1 ≡ (
          if fresh.id == id
          then if after now fresh.expires_at || after now t then none else some fresh
          else if binds (lookup id g.store.sessions) wallet
          then none
          else (get_session_by_token sign g token now).1)
  create_session-replaces tier drawn t0 fresh made token id t now e =
      let m = create_session-Created sign g wallet tier drawn t0 fresh made in
      let at : lookup id (create_session sign g wallet tier drawn t0).0.store.sessions ≡ (
          if fresh.id == id
          then some fresh
          else if binds (lookup id g.store.sessions) wallet
          then none
          else lookup id g.store.sessions) =
        ap (λ ss. lookup id ss.sessions) m.stored
        ∙ set-exact g.store c fresh id m.bound
        ∙ ap
            (λ a.
              if fresh.id == id
              then some fresh
              else if binds (lookup id g.store.sessions) a
              then none
              else lookup id g.store.sessions)
            m.owner in
      get_session_by_token-answer sign (create_session sign g wallet tier drawn t0).0 token id t now
        e
      ∙ ground (arith, at, get_session_by_token-answer sign g token id t now e)

  -- Where the session store is consistent, the token of a new session answers with that session
  -- until its expiry, cut to whole seconds, and with nothing after, if the id and all signatures
  -- have no dot and the expiry is not before the Unix epoch and fits an int64.
  pub get_session_by_token-create_session :
      (tier : AccessTier) (id : Text) (t0 : Time) (fresh : Session)
      → NoDot id
      → ((p : Text) → NoDot (sign p))
      → to_unix (add t0 g.cred_ttl) < 2 ^ 63
      → unix_epoch * second ≤ add t0 g.cred_ttl
      → (create_session sign g wallet tier (some id) t0).1 ≡ some fresh
      → (now : Time)
      → (get_session_by_token sign
          (create_session sign g wallet tier (some id) t0).0
          fresh.token
          now).1
        ≡ (if after now (unix (ℤ.pos (to_unix fresh.expires_at))) then none else some fresh)
  get_session_by_token-create_session tier id t0 fresh plain signs fits modern made now =
      let m = create_session-Created sign g wallet tier (some id) t0 fresh made in
      let (own, parsed) =
        parse_of_minted sign id (add t0 g.cred_ttl) fresh.id fresh.token plain signs fits
          m.minted in
      let at : lookup id (set g.store fresh).sessions ≡ some fresh =
        ground (arith, own, set-exact g.store c fresh id m.bound, text_eq.beq_iff fresh.id id) in
      let expires =
        subst (λ e. parse_and_verify_token sign fresh.token ≡ some (id, unix (ℤ.pos (to_unix e))))
          (sym m.expiry) parsed in
      let past_epoch = subst (λ e. unix_epoch * second ≤ e) (sym m.expiry) modern in
      get_session_by_token-stored sign (create_session sign g wallet tier (some id) t0).0
        fresh.token id (unix (ℤ.pos (to_unix fresh.expires_at))) now fresh expires
        (ap (λ ss. lookup id ss.sessions) m.stored ∙ at)
        (unix-to_unix-le fresh.expires_at past_epoch)

-- A reading by token leaves the store as it was, or takes one session out by its id.
pub get_session_by_token-store {ℓ} :
    (P : SessionStore → Type ℓ) (sign : Text → Text) (g : Gate) (token : Text) (now : Time)
    → P g.store
    → ((id : Text) → P (delete_by_id g.store id))
    → P (get_session_by_token sign g token now).0.store
unfolding get_session_by_token
get_session_by_token-store P sign g token now same gone =
    elim (Option-cases (parse_and_verify_token sign token)) [
      | inl e ↦ rw (e, at_parsed) same
      | inr ((id, t), e) ↦
          rw (e, at_parsed)
            (elim (Option-cases (get_by_id g.store id)) [
              | inl f ↦ rw (f, by_token) same
              | inr (s, f) ↦
                  rw (f, by_token)
                    (elim (Bool-cases (after now s.expires_at || after now t)) [
                      | inl old ↦ rw old (gone id)
                      | inr young ↦ rw young same
                    ])
            ])
    ]

-- A sign-in without a session leaves the gate as it was.
pub create_session-none :
    (sign : Text → Text) (g : Gate) (wallet : Address) (tier : AccessTier) (drawn : Option Text)
    (now : Time)
    → (create_session sign g wallet tier drawn now).1 ≡ none
    → (create_session sign g wallet tier drawn now).0 ≡ g
unfolding create_session with_wallet_token store_session
create_session-none sign g wallet tier drawn now h =
    elim (Option-cases (new_session_token sign drawn (add now g.cred_ttl))) [
      | inl e ↦ rw e refl
      | inr (minted, e) ↦ absurd (ground (arith, e))
    ]

-- A sign-in leaves the store as it was, or puts a wallet's session with the drawn id into it.
pub create_session-store {ℓ} :
    (P : SessionStore → Type ℓ) (sign : Text → Text) (g : Gate) (wallet : Address)
    (tier : AccessTier) (drawn : Option Text) (now : Time)
    → P g.store
    → ((s : Session) → s.address_bound ≡ true → drawn ≡ some s.id → P (set g.store s))
    → P (create_session sign g wallet tier drawn now).0.store
unfolding create_session with_wallet_token wallet_session store_session new_session_token
create_session-store P sign g wallet tier none now same stored = same
create_session-store P sign g wallet tier (some id) now same stored = stored _ refl refl
