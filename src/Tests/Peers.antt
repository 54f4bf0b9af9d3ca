-- ===== src/Tests/Peers.antt =====
-- The theorems on tokens, sessions and WireGuard peers at concrete inputs.
use sovereign_vpn.Base.{
  ◌≢◌, ℕ, ◌+◌, ◌≤◌, ◌≡◌, refl, ◌↔◌, true, none, some, [], text_eq, nat_eq, if◌then◌else◌, ℤ, arith,
}
use sovereign_vpn.Text.{Text, text, split, parse_int, format_uint}
use sovereign_vpn.Clock.{Time, after, unix, to_unix}
use sovereign_vpn.Map.{lookup, insert}
use sovereign_vpn.Nftcheck.Tier.{AccessTier}
use sovereign_vpn.Nftgate.Store.{Session, set, new_session_store, get_by_id}
use sovereign_vpn.Nftgate.Store.Invariant.{Consistent, empty, sets, Reach-Consistent}
use sovereign_vpn.Nftgate.Token.{new_session_token, parse_and_verify_token}
use sovereign_vpn.Nftgate.Token.Laws.{NoDot, parse_and_verify_token-eq_some, IsSigned}
use sovereign_vpn.Nftgate.Gate.{create_session, get_session_by_token}
use sovereign_vpn.Nftgate.Gate.Sessions.{
  create_session-replaces, get_session_by_token-create_session,
}
use sovereign_vpn.Nftgate.Middleware.{http_middleware}
use sovereign_vpn.Nftgate.Middleware.Admission.{http_middleware-served}
use sovereign_vpn.Wireguard.Pool.{ip_text, is_taken, allocate}
use sovereign_vpn.Wireguard.Pool.Allocation.{allocate_iff_exhausted}
use sovereign_vpn.Wireguard.Manager
use sovereign_vpn.Wireguard.Manager.{
  Peer, PeerConfig, new_manager, add_peer, clean_expired, remove_peer,
}
use sovereign_vpn.Wireguard.Manager.Addresses.{Sound, Reach-new_manager-Sound}
use sovereign_vpn.Wireguard.Manager.Leak.{Leaked, add_peer-leaks}
use sovereign_vpn.Tests.Fixtures.{
  signature, noon, hour, alice, alice_gate, alice_store, wg_config, pool, one_peer, peer,
}

signature-NoDot : (p : Text) → NoDot (signature p)
signature-NoDot p = (ground (arith), (ground (arith), (ground (arith), (ground (arith), tt))))

b1-NoDot : NoDot (text "b1")
b1-NoDot = (ground (arith), (ground (arith), tt))

alice_store-Consistent : Consistent alice_store
unfolding set lookup insert new_session_store
alice_store-Consistent =
    Reach-Consistent (sets {ss = record { sessions = []; address_to_id = [] }} empty alice refl)

parse_and_verify_token-eq_some_example :
    (parse_and_verify_token signature (text "v1.a1.1700003600.c2ln")
      ≡ some (text "a1", noon + hour))
    ↔ IsSigned signature (text "v1.a1.1700003600.c2ln") (text "a1") (noon + hour)
parse_and_verify_token-eq_some_example =
    parse_and_verify_token-eq_some signature (text "v1.a1.1700003600.c2ln") (text "a1")
      (noon + hour)

-- The session that alice's next sign-in makes.
abbrev renewed : Session
renewed = record {
  address = 7;
  address_bound = true;
  nullifier_hash = [];
  session_key_hash = [];
  policy_epoch = 0;
  id = text "b1";
  token = text "v1.b1.1700003600.c2ln";
  tier = AccessTier.free;
  created_at = noon;
  expires_at = noon + hour;
}

made_renewed :
    (create_session signature alice_gate 7 AccessTier.free (some (text "b1")) noon).1 ≡ some renewed
unfolding create_session new_session_token format_uint
made_renewed = refl

get_session_by_token-create_session_example :
    (get_session_by_token signature
      (create_session signature alice_gate 7 AccessTier.free (some (text "b1")) noon).0
      renewed.token
      (noon + 5)).1
    ≡ (if after (noon + 5) (unix (ℤ.pos (to_unix renewed.expires_at))) then none else some renewed)
get_session_by_token-create_session_example =
    get_session_by_token-create_session signature alice_gate alice_store-Consistent 7
      AccessTier.free (text "b1") noon renewed b1-NoDot signature-NoDot (ground (arith))
      (omega arith) made_renewed (noon + 5)

alice_token_read : parse_and_verify_token signature alice.token ≡ some (text "a1", noon + hour)
unfolding parse_and_verify_token split parse_int
alice_token_read = refl

-- The token that alice had before yields nothing.
create_session-replaces_example :
    (get_session_by_token signature
      (create_session signature alice_gate 7 AccessTier.free (some (text "b1")) noon).0
      alice.token
      (noon + 5)).1
    ≡ none
unfolding lookup
create_session-replaces_example =
    create_session-replaces signature alice_gate alice_store-Consistent 7 AccessTier.free
      (some (text "b1")) noon renewed made_renewed alice.token (text "a1") (noon + hour) (noon + 5)
      alice_token_read

allocate_iff_exhausted_example :
    ((allocate pool).1 ≡ none)
    ↔ ((octet : ℕ) → 2 ≤ octet → octet ≤ 254 → is_taken pool (ip_text pool octet) ≡ true)
allocate_iff_exhausted_example = allocate_iff_exhausted pool (omega arith)

Reach-new_manager-Sound_example :
    Sound
      (clean_expired
        (add_peer (new_manager wg_config pool) (text "K") (ℤ.pos hour) true noon).0
        (noon + hour + 1)).0
Reach-new_manager-Sound_example = Reach-new_manager-Sound wg_config pool (omega arith) (
    Manager.Addresses.cleans
      (Manager.Addresses.adds Manager.Addresses.starts (text "K") (ℤ.pos hour) true noon)
      (noon + hour + 1))

one_peer-Sound : Sound one_peer
unfolding add_peer new_manager allocate ip_text insert lookup format_uint
one_peer-Sound =
    Reach-new_manager-Sound wg_config pool (omega arith)
      (Manager.Addresses.adds Manager.Addresses.starts (text "K") (ℤ.pos hour) true noon)

-- Alice connects again with the same key.
second_config : PeerConfig
second_config = record {
  server_public_key = text "S";
  server_endpoint = text "vpn.example:51820";
  client_address = text "10.8.0.3/24";
  dns = text "1.1.1.1";
  allowed_ips = text "0.0.0.0/0, ::/0";
}

add_peer-leaks_example :
    Leaked
      (clean_expired (add_peer one_peer (text "K") (ℤ.pos hour) true noon).0 (noon + hour + 1)).0
      (text "10.8.0.2")
unfolding add_peer allocate ip_text insert lookup format_uint second_config
add_peer-leaks_example =
    add_peer-leaks one_peer (text "K") (ℤ.pos hour) true noon peer second_config one_peer-Sound refl
      refl (Manager.Addresses.cleans Manager.Addresses.starts (noon + hour + 1))

http_middleware-served_example :
    (s : Session) × (id : Text) × (t : Time) × (some alice ≡ some s)
    × (parse_and_verify_token signature alice.token ≡ some (id, t))
    × (lookup id alice_store.sessions ≡ some s)
    × (noon ≤ s.expires_at)
    × (s.tier ≢ AccessTier.denied)
unfolding http_middleware get_session_by_token lookup parse_and_verify_token split parse_int
    get_by_id
http_middleware-served_example =
    http_middleware-served signature alice_gate alice.token noon (some alice) refl
