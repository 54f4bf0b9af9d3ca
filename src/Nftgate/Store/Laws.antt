-- ===== src/Nftgate/Store/Laws.antt =====
-- What each method of the session store does to every entry of its two maps.
use sovereign_vpn.Base.{
  ◌≡◌, refl, Bool, true, false, Option, none, some, ◌==◌, nat_eq, text_eq, if◌then◌else◌, arith,
  not, ◌&&◌,
}
use sovereign_vpn.Text.{Text}
use sovereign_vpn.Map.{lookup}
use sovereign_vpn.Map.Laws.{lookup-insert, lookup-delete}
use sovereign_vpn.Nftgate.Store.{
  Address, Session, SessionStore, set, drop_old, delete_by_id, unbind, delete_by_address,
  drop_address,
}

-- The entry under `i`, when the old session id of the address is `old`.
abbrev pub without_old : Text → Option Text → Text → Option Session → Option Session
without_old id none i o = o
without_old id (some old) i o = if not (old == id) && old == i then none else o

lookup-drop_old :
    (ss : SessionStore) (id : Text) (old : Option Text) (i : Text)
    → lookup i (drop_old ss.sessions id old) ≡ without_old id old i (lookup i ss.sessions)
unfolding drop_old
lookup-drop_old ss id none i = refl
lookup-drop_old ss id (some old) i = ground (arith, lookup-delete i old ss.sessions)

pub sessions-set :
    (ss : SessionStore) (s : Session) (i : Text)
    → s.address_bound ≡ true
    → lookup i (set ss s).sessions ≡ (
        if s.id == i
        then some s
        else without_old s.id (lookup s.address ss.address_to_id) i (lookup i ss.sessions))
unfolding set
sessions-set ss s i h = ground (
  arith,
  lookup-insert i s.id s (drop_old ss.sessions s.id (lookup s.address ss.address_to_id)),
  lookup-drop_old ss s.id (lookup s.address ss.address_to_id) i,
)

pub address_to_id-set :
    (ss : SessionStore) (s : Session) (a : Address)
    → s.address_bound ≡ true
    → lookup a (set ss s).address_to_id
      ≡ (if s.address == a then some s.id else lookup a ss.address_to_id)
unfolding set
address_to_id-set ss s a h = ground (arith, lookup-insert a s.address s.id ss.address_to_id)

pub sessions-set_unbound :
    (ss : SessionStore) (s : Session) (i : Text)
    → s.address_bound ≡ false
    → lookup i (set ss s).sessions ≡ (if s.id == i then some s else lookup i ss.sessions)
unfolding set
sessions-set_unbound ss s i h = ground (arith, lookup-insert i s.id s ss.sessions)

pub address_to_id-set_unbound :
    (ss : SessionStore) (s : Session)
    → s.address_bound ≡ false
    → (set ss s).address_to_id ≡ ss.address_to_id
unfolding set
address_to_id-set_unbound ss s h = rw h

pub sessions-delete_by_id :
    (ss : SessionStore) (id i : Text)
    → lookup i (delete_by_id ss id).sessions ≡ (if id == i then none else lookup i ss.sessions)
unfolding delete_by_id
sessions-delete_by_id ss id i = lookup-delete i id ss.sessions

-- Whether the entry is a session that is bound to the address.
abbrev pub binds : Option Session → Address → Bool
binds none a = false
binds (some s) a = s.address_bound && s.address == a

lookup-unbind :
    (o : Option Session) (ss : SessionStore) (a : Address)
    → lookup a (unbind o ss.address_to_id) ≡ (if binds o a then none else lookup a ss.address_to_id)
unfolding unbind
lookup-unbind none ss a = refl
lookup-unbind (some s) ss a = ground (arith, lookup-delete a s.address ss.address_to_id)

pub address_to_id-delete_by_id :
    (ss : SessionStore) (id : Text) (a : Address)
    → lookup a (delete_by_id ss id).address_to_id
      ≡ (if binds (lookup id ss.sessions) a then none else lookup a ss.address_to_id)
unfolding delete_by_id
address_to_id-delete_by_id ss id a = lookup-unbind (lookup id ss.sessions) ss a

abbrev pub is_at : Option Text → Text → Bool
is_at none i = false
is_at (some id) i = id == i

sessions-drop_address :
    (ss : SessionStore) (a : Address) (o : Option Text) (i : Text)
    → lookup i (drop_address ss a o).sessions ≡ (if is_at o i then none else lookup i ss.sessions)
unfolding drop_address
sessions-drop_address ss a none i = refl
sessions-drop_address ss a (some id) i = lookup-delete i id ss.sessions

pub sessions-delete_by_address :
    (ss : SessionStore) (a : Address) (i : Text)
    → lookup i (delete_by_address ss a).sessions
      ≡ (if is_at (lookup a ss.address_to_id) i then none else lookup i ss.sessions)
unfolding delete_by_address
sessions-delete_by_address ss a i = sessions-drop_address ss a (lookup a ss.address_to_id) i

address_to_id-drop_address :
    (ss : SessionStore) (a : Address) (o : Option Text) (b : Address)
    → lookup a ss.address_to_id ≡ o
    → lookup b (drop_address ss a o).address_to_id
      ≡ (if a == b then none else lookup b ss.address_to_id)
unfolding drop_address
address_to_id-drop_address ss a none b h = ground (arith, nat_eq.beq_iff a b)
address_to_id-drop_address ss a (some id) b h = lookup-delete b a ss.address_to_id

pub address_to_id-delete_by_address :
    (ss : SessionStore) (a b : Address)
    → lookup b (delete_by_address ss a).address_to_id
      ≡ (if a == b then none else lookup b ss.address_to_id)
unfolding delete_by_address
address_to_id-delete_by_address ss a b =
    address_to_id-drop_address ss a (lookup a ss.address_to_id) b refl
