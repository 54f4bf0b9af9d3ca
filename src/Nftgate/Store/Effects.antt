-- ===== src/Nftgate/Store/Effects.antt =====
-- What the store's methods do, seen as one table of sessions: in a consistent store the address
-- index never shows.
use sovereign_vpn.Base.{
  refl, [], ◌∷◌, List, Bool, ◌≡◌, ◌∙◌, true, none, some, ◌==◌, nat_eq, text_eq, if◌then◌else◌,
  arith, Option-cases, inl, inr, ◌↔◌,
}
use sovereign_vpn.Text.{Text}
use sovereign_vpn.Clock.{Time, after}
use sovereign_vpn.Map.Laws.{lookup_of_contains-false, kept_idem}
use sovereign_vpn.Map.{keys, contains, lookup, kept}
use sovereign_vpn.Nftgate.Store.{
  cleanup, cleanup_keys, Address, Session, SessionStore, set, get_by_address, delete_by_id,
  delete_by_address, is_expired,
}
use sovereign_vpn.Nftgate.Store.Laws.{
  sessions-set, sessions-delete_by_id, binds, is_at, sessions-delete_by_address,
}
use sovereign_vpn.Nftgate.Store.Invariant.{Consistent}

module _ (ss : SessionStore) (c : Consistent ss) where
  -- The entry that the index gives a wallet is the entry that is bound to the wallet.
  is_at-binds :
      (a : Address) (i : Text)
      → is_at (lookup a ss.address_to_id) i ≡ binds (lookup i ss.sessions) a
  is_at-binds a i = elim (Option-cases (lookup i ss.sessions)) [
    | inl gone ↦ elim (Option-cases (lookup a ss.address_to_id)) [
      | inl empty ↦ ground arith
      | inr (id, e) ↦ ground (arith, c.live a id e, text_eq.beq_iff id i)
    ]
    | inr (s, at) ↦ elim (Option-cases (lookup a ss.address_to_id)) [
      | inl empty ↦ ground (arith, c.indexed i s at, nat_eq.beq_iff s.address a)
      | inr (id, e) ↦
          ground (
            arith,
            c.live a id e,
            c.indexed i s at,
            text_eq.beq_iff id i,
            nat_eq.beq_iff s.address a,
          )
    ]
  ]

  -- Deleting by address removes exactly the sessions that are bound to the wallet, and no other
  -- session changes.
  pub delete_by_address-exact :
      (a : Address) (i : Text)
      → lookup i (delete_by_address ss a).sessions
        ≡ (if binds (lookup i ss.sessions) a then none else lookup i ss.sessions)
  delete_by_address-exact a i = sessions-delete_by_address ss a i ∙ rw (is_at-binds a i)

  -- In a consistent store, storing a session that is bound to a wallet replaces every other
  -- session bound to the wallet, and changes no other.
  pub set-exact :
      (s : Session) (i : Text)
      → s.address_bound ≡ true
      → lookup i (set ss s).sessions ≡ (
          if s.id == i
          then some s
          else if binds (lookup i ss.sessions) s.address
          then none
          else lookup i ss.sessions)
  set-exact s i b = elim (Option-cases (lookup s.address ss.address_to_id)) [
    | inl empty ↦ ground (arith, sessions-set ss s i b, is_at-binds s.address i)
    | inr (old, e) ↦ ground (
      arith,
      sessions-set ss s i b,
      is_at-binds s.address i,
      text_eq.beq_iff old i,
      text_eq.beq_iff old s.id,
      text_eq.beq_iff s.id i,
    )
  ]

  -- In a consistent store, looking up by address finds a session exactly if it is stored under its
  -- id and bound to the wallet.
  pub get_by_address_iff :
      (a : Address) (s : Session)
      → (get_by_address ss a ≡ some s)
        ↔ ((lookup s.id ss.sessions ≡ some s) × (binds (some s) a ≡ true))
  unfolding get_by_address
  get_by_address_iff a s = elim (Option-cases (lookup a ss.address_to_id)) [
    | inl empty ↦ ground (arith, c.indexed s.id s, nat_eq.beq_iff s.address a)
    | inr (id, e) ↦
        ground (arith, c.live a id e, c.keyed id s, c.indexed s.id s, nat_eq.beq_iff s.address a)
  ]

cleanup_step :
    (now : Time) (ss : SessionStore) (id i : Text)
    → lookup i (if is_expired now (lookup id ss.sessions) then delete_by_id ss id else ss).sessions
      ≡ (if id == i
          then kept (λ s. after now s.expires_at) (lookup i ss.sessions)
          else lookup i ss.sessions)
cleanup_step now ss id i = elim (Option-cases (lookup id ss.sessions)) [
  | inl gone ↦ ground (arith, sessions-delete_by_id ss id i, text_eq.beq_iff id i)
  | inr (s, at) ↦ ground (arith, sessions-delete_by_id ss id i, text_eq.beq_iff id i)
]

abbrev expired : Time → Session → Bool
expired now s = after now s.expires_at

lookup-cleanup_keys :
    (now : Time) (ids : List Text) (ss : SessionStore) (i : Text)
    → lookup i (cleanup_keys now ids ss).sessions
      ≡ (if contains i ids then kept (expired now) (lookup i ss.sessions) else lookup i ss.sessions)
unfolding cleanup_keys contains
lookup-cleanup_keys now [] ss i = refl
lookup-cleanup_keys now (id ∷ ids) ss i =
    let next = if is_expired now (lookup id ss.sessions) then delete_by_id ss id else ss in
    ground (
      arith,
      lookup-cleanup_keys now ids next i,
      cleanup_step now ss id i,
      kept_idem (expired now) (lookup i ss.sessions),
    )

-- A cleanup removes exactly the sessions whose expiry has passed.
pub lookup-cleanup :
    (ss : SessionStore) (now : Time) (i : Text)
    → lookup i (cleanup ss now).sessions ≡ kept (λ s. after now s.expires_at) (lookup i ss.sessions)
unfolding cleanup
lookup-cleanup ss now i =
    ground (
      arith,
      lookup-cleanup_keys now (keys ss.sessions) ss i,
      lookup_of_contains-false i ss.sessions,
    )
