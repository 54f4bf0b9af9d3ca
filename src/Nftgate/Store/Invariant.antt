-- ===== src/Nftgate/Store/Invariant.antt =====
-- The two maps of the session store stay consistent: a wallet has at most one session, and the
-- address index points at it.
use sovereign_vpn.Base.{
  ne_of_beq-false, beq_refl, ◌≡◌, ◌≢◌, ◌∙◌, true, false, none, some, List, [], ◌∷◌, ◌==◌, nat_eq,
  text_eq, arith, Bool-cases, Option-cases, inl, inr,
}
use sovereign_vpn.Text.{Text}
use sovereign_vpn.Clock.{Time}
use sovereign_vpn.Map.{keys, lookup}
use sovereign_vpn.Nftgate.Store.{
  Address, Session, SessionStore, new_session_store, set, delete_by_id, delete_by_address, cleanup,
  cleanup_keys, is_expired,
}
use sovereign_vpn.Nftgate.Store.Laws.{
  sessions-set, address_to_id-set, sessions-set_unbound, address_to_id-set_unbound,
  sessions-delete_by_id, address_to_id-delete_by_id,
}

pub record Consistent (ss : SessionStore) : Type 0 where
  -- a session is stored under its id
  pub keyed : (i : Text) (s : Session) → lookup i ss.sessions ≡ some s → s.id ≡ i
  -- the index has every session that is bound to a wallet
  pub indexed :
      (i : Text) (s : Session)
      → lookup i ss.sessions ≡ some s
      → s.address_bound ≡ true
      → lookup s.address ss.address_to_id ≡ some i
  -- and nothing else
  pub live :
      (a : Address) (i : Text)
      → lookup a ss.address_to_id ≡ some i
      → (s : Session) × (lookup i ss.sessions ≡ some s) × (s.address_bound ≡ true) × (s.address ≡ a)

-- `rand.Read` gives an id that no stored session has.
abbrev pub IsFresh : SessionStore → Text → Type 0
IsFresh ss id = lookup id ss.sessions ≡ none

module _ (ss : SessionStore) (c : Consistent ss) (s : Session) (fresh : IsFresh ss s.id) where
  set-keyed :
      s.address_bound ≡ true
      → (i : Text) (t : Session) → lookup i (set ss s).sessions ≡ some t
      → t.id ≡ i
  set-keyed b i t h = ground (arith, sessions-set ss s i b, text_eq.beq_iff s.id i, c.keyed i t)

  set-indexed :
      s.address_bound ≡ true
      → (i : Text) (t : Session) → lookup i (set ss s).sessions ≡ some t
      → t.address_bound ≡ true
      → lookup t.address (set ss s).address_to_id ≡ some i
  set-indexed b i t h u = ground (
    arith,
    sessions-set ss s i b,
    address_to_id-set ss s t.address b,
    text_eq.beq_iff s.id i,
    text_eq.beq_iff i s.id,
    beq_refl i,
    nat_eq.beq_iff s.address t.address,
    c.indexed i t,
  )

  -- A wallet's own entry is not the one that makes way for another wallet.
  old_elsewhere :
      s.address_bound ≡ true
      → (a : Address) (i : Text) → s.address ≢ a
      → lookup a ss.address_to_id ≡ some i
      → lookup i (set ss s).sessions ≡ lookup i ss.sessions
  old_elsewhere b a i h e = elim (Option-cases (lookup s.address ss.address_to_id)) [
    | inl gone ↦ ground (arith, c.live a i e, sessions-set ss s i b, text_eq.beq_iff s.id i)
    | inr (old, old_at) ↦ ground (
      arith,
      c.live a i e,
      c.live s.address old old_at,
      sessions-set ss s i b,
      text_eq.beq_iff s.id i,
      text_eq.beq_iff old i,
    )
  ]

  set-live :
      s.address_bound ≡ true
      → (a : Address) (i : Text) → lookup a (set ss s).address_to_id ≡ some i
      → (t : Session) × (lookup i (set ss s).sessions ≡ some t)
        × (t.address_bound ≡ true)
        × (t.address ≡ a)
  set-live b a i h = elim (Bool-cases (s.address == a)) [
    | inl own ↦ (
      s,
      ground (
        arith,
        address_to_id-set ss s a b,
        sessions-set ss s i b,
        text_eq.beq_iff s.id i,
        beq_refl i,
      ),
      b,
      (nat_eq.beq_iff s.address a).0 own,
    )
    | inr other ↦
        let e : lookup a ss.address_to_id ≡ some i = ground (arith, address_to_id-set ss s a b) in
        let (t, f, u, v) = c.live a i e in
        (t, old_elsewhere b a i (ne_of_beq-false s.address a other) e ∙ f, u, v)
  ]

  set-Consistent_bound : s.address_bound ≡ true → Consistent (set ss s)
  set-Consistent_bound b = record {
    keyed = set-keyed b;
    indexed = set-indexed b;
    live = set-live b;
  }

  unbound-live :
      s.address_bound ≡ false
      → (a : Address) (i : Text) → lookup a (set ss s).address_to_id ≡ some i
      → (t : Session) × (lookup i (set ss s).sessions ≡ some t)
        × (t.address_bound ≡ true)
        × (t.address ≡ a)
  unbound-live b a i h =
      let e : lookup a ss.address_to_id ≡ some i = rw (← address_to_id-set_unbound ss s b) h in
      let (t, f, u, v) = c.live a i e in
      (t, ground (arith, sessions-set_unbound ss s i b, text_eq.beq_iff s.id i), u, v)

  set-Consistent_unbound : s.address_bound ≡ false → Consistent (set ss s)
  set-Consistent_unbound b = record {
    keyed =
        λ i t h. ground (arith, sessions-set_unbound ss s i b, text_eq.beq_iff s.id i, c.keyed i t);
    indexed = λ i t h u.
        ground
          (arith, sessions-set_unbound ss s i b, address_to_id-set_unbound ss s b, c.indexed i t);
    live = unbound-live b;
  }

  pub set-Consistent : Consistent (set ss s)
  set-Consistent = elim (Bool-cases s.address_bound) [
    | inl b ↦ set-Consistent_bound b
    | inr b ↦ set-Consistent_unbound b
  ]

delete_by_address_absent :
    (ss : SessionStore) (a : Address)
    → lookup a ss.address_to_id ≡ none
    → delete_by_address ss a ≡ ss
unfolding delete_by_address
delete_by_address_absent ss a h = rw (h, delete_by_address)

module _ (ss : SessionStore) (c : Consistent ss) where
  deleted-live :
      (id : Text) (a : Address) (i : Text)
      → lookup a (delete_by_id ss id).address_to_id ≡ some i
      → (t : Session) × (lookup i (delete_by_id ss id).sessions ≡ some t)
        × (t.address_bound ≡ true)
        × (t.address ≡ a)
  deleted-live id a i h =
      let e : lookup a ss.address_to_id ≡ some i =
        ground (arith, address_to_id-delete_by_id ss id a) in
      let (t, f, u, v) = c.live a i e in
      (
        t,
        ground (
          arith,
          address_to_id-delete_by_id ss id a,
          sessions-delete_by_id ss id i,
          text_eq.beq_iff id i,
          nat_eq.beq_iff t.address a,
        ),
        u,
        v,
      )

  deleted-indexed :
      (id i : Text) (t : Session)
      → lookup i (delete_by_id ss id).sessions ≡ some t
      → t.address_bound ≡ true
      → lookup t.address (delete_by_id ss id).address_to_id ≡ some i
  deleted-indexed id i t h u = elim (Option-cases (lookup id ss.sessions)) [
    | inl gone ↦ ground (
      arith,
      sessions-delete_by_id ss id i,
      address_to_id-delete_by_id ss id t.address,
      c.indexed i t,
    )
    | inr (r, at) ↦ ground (
      arith,
      sessions-delete_by_id ss id i,
      address_to_id-delete_by_id ss id t.address,
      c.indexed i t,
      c.indexed id r at,
      text_eq.beq_iff id i,
      nat_eq.beq_iff r.address t.address,
    )
  ]

  pub delete_by_id-Consistent : (id : Text) → Consistent (delete_by_id ss id)
  delete_by_id-Consistent id = record {
    keyed = λ i t h. ground (arith, sessions-delete_by_id ss id i, c.keyed i t);
    indexed = deleted-indexed id;
    live = deleted-live id;
  }

  -- With consistent maps, deleting by address is deleting the wallet's session by its id.
  delete_by_address-eq_delete_by_id :
      (a : Address) (id : Text)
      → lookup a ss.address_to_id ≡ some id
      → delete_by_address ss a ≡ delete_by_id ss id
  unfolding delete_by_address delete_by_id
  delete_by_address-eq_delete_by_id a id e = ground (arith, c.live a id e)

  pub delete_by_address-Consistent : (a : Address) → Consistent (delete_by_address ss a)
  delete_by_address-Consistent a = elim (Option-cases (lookup a ss.address_to_id)) [
    | inl gone ↦ rw (delete_by_address_absent ss a gone) c
    | inr (id, e) ↦ rw (delete_by_address-eq_delete_by_id a id e) (delete_by_id-Consistent id)
  ]

cleanup_keys-Consistent :
    (now : Time) (ids : List Text) (ss : SessionStore)
    → Consistent ss
    → Consistent (cleanup_keys now ids ss)
unfolding cleanup_keys
cleanup_keys-Consistent now [] ss c = c
cleanup_keys-Consistent now (id ∷ ids) ss c =
    elim (Bool-cases (is_expired now (lookup id ss.sessions))) [
      | inl old ↦
          rw (old, cleanup_keys)
            (cleanup_keys-Consistent now ids (delete_by_id ss id) (delete_by_id-Consistent ss c id))
      | inr young ↦ rw (young, cleanup_keys) (cleanup_keys-Consistent now ids ss c)
    ]

pub cleanup-Consistent :
    (ss : SessionStore) (now : Time) → Consistent ss → Consistent (cleanup ss now)
unfolding cleanup
cleanup-Consistent ss now c = cleanup_keys-Consistent now (keys ss.sessions) ss c

pub new_session_store-Consistent : Consistent new_session_store
unfolding new_session_store lookup
new_session_store-Consistent = record {
  keyed = λ i s h. cc;
  indexed = λ i s h u. cc;
  live = λ a i h. absurd (cc h);
}

-- The stores that the methods make out of the empty one, with fresh ids.
pub data Reach : SessionStore → Type 0 where
  empty : Reach new_session_store
  sets : {ss : SessionStore} → Reach ss → (s : Session) → IsFresh ss s.id → Reach (set ss s)
  deletes_id : {ss : SessionStore} → Reach ss → (id : Text) → Reach (delete_by_id ss id)
  deletes_address : {ss : SessionStore} → Reach ss → (a : Address) → Reach (delete_by_address ss a)
  cleans : {ss : SessionStore} → Reach ss → (now : Time) → Reach (cleanup ss now)

-- In every store that the methods make out of the empty one, each session being stored under an
-- id that is not in use, sessions stand under their ids, the address index has exactly the
-- sessions bound to a wallet, and each entry of the index points at a session of that wallet.
pub Reach-Consistent : {ss : SessionStore} → Reach ss → Consistent ss
Reach-Consistent empty = new_session_store-Consistent
Reach-Consistent (sets {ss} r s fresh) = set-Consistent ss (Reach-Consistent r) s fresh
Reach-Consistent (deletes_id {ss} r id) = delete_by_id-Consistent ss (Reach-Consistent r) id
Reach-Consistent (deletes_address {ss} r a) = delete_by_address-Consistent ss (Reach-Consistent r) a
Reach-Consistent (cleans {ss} r now) = cleanup-Consistent ss now (Reach-Consistent r)
