-- ===== src/Anonauth/Nullifiers/SingleUse.antt =====
-- A nullifier is good for one session until its lifetime is over.
use sovereign_vpn.Base.{
  ◌≤◌, ◌<◌, ◌≡◌, ◌≢◌, true, false, not, Option, none, some, List, [], ◌∷◌, nat_eq, text_eq, arith,
  beq_refl, All,
}
use sovereign_vpn.Text.{Text}
use sovereign_vpn.Clock.{Time, Duration, add, before}
use sovereign_vpn.Map.{lookup}
use sovereign_vpn.Map.Laws.{lookup-insert, lookup-delete, lookup-sweep}
use sovereign_vpn.Anonauth.Nullifiers.{
  NullifierStore, lifetime, consume, check_read, release, cleanup, Call, consumes, checks, releases,
  cleans, step, run,
}

-- A section that runs no later than `now` and does not release the nullifier.
abbrev pub Keeps : Text → Time → Call → Type 0
Keeps n now (consumes m ttl t) = t ≤ now
Keeps n now (checks m t read) = t ≤ now
Keeps n now (releases m) = m ≢ n
Keeps n now (cleans t) = t ≤ now

module _ (n : Text) (now e : Time) (live : now < e) (ns : NullifierStore)
    (held : lookup n ns.nullifiers ≡ some e) where
  consume-Keeps :
      (m : Text) (ttl : Duration) (t : Time)
      → t ≤ now
      → lookup n (consume ns m ttl t).0.nullifiers ≡ some e
  unfolding consume
  consume-Keeps m ttl t h =
      ground (arith, text_eq.beq_iff m n, lookup-insert n m (add t (lifetime ttl)) ns.nullifiers)

  check_read-Keeps :
      (m : Text) (t : Time) (read : Option Time)
      → t ≤ now
      → lookup n (check_read ns m t read).0.nullifiers ≡ some e
  unfolding check_read
  check_read-Keeps m t none h = held
  check_read-Keeps m t (some r) h =
      ground (arith, text_eq.beq_iff m n, lookup-delete n m ns.nullifiers)

  release-keeps : (m : Text) → m ≢ n → lookup n (release ns m).nullifiers ≡ some e
  unfolding release
  release-keeps m h = ground (arith, text_eq.beq_iff m n, lookup-delete n m ns.nullifiers)

  cleanup-keeps : (t : Time) → t ≤ now → lookup n (cleanup ns t).nullifiers ≡ some e
  unfolding cleanup
  cleanup-keeps t h = ground (arith, lookup-sweep (λ (x : Time). not (before t x)) n ns.nullifiers)

  step-Keeps : (c : Call) → Keeps n now c → lookup n (step ns c).nullifiers ≡ some e
  unfolding step
  step-Keeps (consumes m ttl t) h = consume-Keeps m ttl t h
  step-Keeps (checks m t read) h = check_read-Keeps m t read h
  step-Keeps (releases m) h = release-keeps m h
  step-Keeps (cleans t) h = cleanup-keeps t h

run-Keeps :
    (n : Text) (now e : Time) (ns : NullifierStore) (cs : List Call)
    → now < e
    → lookup n ns.nullifiers ≡ some e
    → All (Keeps n now) cs
    → lookup n (run ns cs).nullifiers ≡ some e
unfolding run
run-Keeps n now e ns [] live held h = held
run-Keeps n now e ns (c ∷ cs) live held h =
    run-Keeps n now e (step ns c) cs live (step-Keeps n now e live ns held c h.0) h.1

lookup-consume :
    (ns : NullifierStore) (n : Text) (ttl : Duration) (t : Time)
    → (consume ns n ttl t).1 ≡ true
    → lookup n (consume ns n ttl t).0.nullifiers ≡ some (add t (lifetime ttl))
unfolding consume
lookup-consume ns n ttl t h =
    ground (arith, lookup-insert n n (add t (lifetime ttl)) ns.nullifiers, beq_refl n)

-- Once a nullifier is consumed it is refused until its lifetime is over, whatever other sections
-- run in between up to that time, consumptions and checks of any nullifier and cleanups included,
-- unless one of them releases it. A lifetime that is not positive counts as a minute.
pub consume_twice :
    (ns : NullifierStore) (n : Text) (ttl ttl' : Duration) (t now : Time) (cs : List Call)
    → (consume ns n ttl t).1 ≡ true
    → All (Keeps n now) cs
    → now < add t (lifetime ttl)
    → (consume (run (consume ns n ttl t).0 cs) n ttl' now).1 ≡ false
consume_twice ns n ttl ttl' t now cs h k live = refused (run (consume ns n ttl t).0 cs) (
    run-Keeps n now (add t (lifetime ttl)) (consume ns n ttl t).0 cs live
      (lookup-consume ns n ttl t h) k)
  where
    refused :
        (after : NullifierStore)
        → lookup n after.nullifiers ≡ some (add t (lifetime ttl))
        → (consume after n ttl' now).1 ≡ false
    refused after held = unfold consume in ground arith
