-- ===== src/System/Safety.antt =====
-- What is true in every state that the ring can reach, whatever the order of its steps.
use tenzor_bus.Common.{refl, ℕ, ◌≡◌, ◌≢◌, ◌+◌, u64, none, some, arith}
use tenzor_bus.Errors.{ok}
use tenzor_bus.Host.{Host}
use tenzor_bus.Mem.{Mem, Ring, Consumer}
use tenzor_bus.Producer.{SlotWriter}
use tenzor_bus.Consumer.{release}
use tenzor_bus.Consumer.Release.{release_iff}
use tenzor_bus.System.{
  Held, System, Step, Reach, here, later, sweeps, registers, finds_full, closes, dies, claims,
  resigns, reserves, finds_none, drops, fills, stamps, commits, aborts, deserts, takes, returns,
  refused,
}
use tenzor_bus.System.Invariant.{Inv, SlotHolds, Keeps-Inv}
use tenzor_bus.System.Keep.{
  Keeps-same, Keeps-sweep, Keeps-finds_full, Keeps-finds_none, Keeps-claims, Keeps-resigns,
  Keeps-fills, Keeps-stamps,
}
use tenzor_bus.System.Handles.{
  Inv-registers, Inv-closes, Inv-dies, Inv-reserves, Inv-commits, Inv-aborts, Inv-deserts,
}
use tenzor_bus.System.Leases.{Inv-takes, Inv-returns, Inv-refused}

-- Before any process has opened a handle.
abbrev pub start : Mem → System
start m = record { mem = m; consumers = λ _. none; writers = λ _. none; leases = λ _. none }

pub Inv-start : (r : Ring) (m : Mem) → Inv r (start m)
Inv-start r m = record {
  registered = λ id c e. cc;
  apart = λ i j c d e f q. cc;
  writing = λ id w e. cc;
  alone = λ i j w v e f q. cc;
  leased = λ l x c e known. absurd (cc);
  once = λ l k x y e f o i. cc;
}

Step-Inv : {r : Ring} {s t : System} → Step r s t → Inv r s → Inv r t
Step-Inv {r} {s} (sweeps h sees) inv = Keeps-Inv r s _ (Keeps-sweep r s inv h sees) inv
Step-Inv {r} {s} (registers id h unused unowned sees e) inv =
    Inv-registers r s inv id h unused unowned sees e
Step-Inv {r} {s} (finds_full h sees e) inv = Keeps-Inv r s _ (Keeps-finds_full r s inv h sees e) inv
Step-Inv {r} {s} (closes id h e) inv = Inv-closes r s inv id h e
Step-Inv {r} {s} (dies id) inv = Inv-dies r s inv id
Step-Inv {r} {s} (claims h n) inv = Keeps-Inv r s _ (Keeps-claims r s inv h n) inv
Step-Inv {r} {s} (resigns h n) inv = Keeps-Inv r s _ (Keeps-resigns r s inv h n) inv
Step-Inv {r} {s} (reserves id h hd nbytes unused sees e) inv =
    Inv-reserves r s inv id h hd nbytes unused sees e
Step-Inv {r} {s} (finds_none h hd sees e) inv =
    Keeps-Inv r s _ (Keeps-finds_none r s inv h hd sees e) inv
Step-Inv {r} {s} drops inv =
    let m = record (s.mem) { drop_count = u64 (s.mem.drop_count + 1) } in
    Keeps-Inv r s m (Keeps-same r s inv m (λ j. refl) (λ i. refl)) inv
Step-Inv {r} {s} (fills id bytes e) inv = Keeps-Inv r s _ (Keeps-fills r s inv id bytes e) inv
Step-Inv {r} {s} (stamps id ns e) inv = Keeps-Inv r s _ (Keeps-stamps r s inv id ns e) inv
Step-Inv {r} {s} (commits id e) inv = Inv-commits r s inv id e
Step-Inv {r} {s} (aborts id h e) inv = Inv-aborts r s inv id h e
Step-Inv {r} {s} (deserts id) inv = Inv-deserts r s inv id
Step-Inv {r} {s} (takes id l h known unused stale e) inv =
    Inv-takes r s inv id l h known unused stale e
Step-Inv {r} {s} (returns l h e known done) inv = Inv-returns r s inv l h e known done
Step-Inv {r} {s} (refused l h c e gone no_release) inv = Inv-refused r s inv l

pub Reach-Inv : {r : Ring} {s t : System} → Inv r s → Reach r s t → Inv r t
Reach-Inv inv here = inv
Reach-Inv inv (later p st) = Step-Inv st (Reach-Inv inv p)

module _ {r : Ring} {m : Mem} {s : System} (p : Reach r (start m) s) where
  reached : Inv r s
  reached = Reach-Inv (Inv-start r m) p

  -- In every state that steps reach from one without open handles: the slot of a lease that is held
  -- and whose consumer has not been closed is committed with the leased sequence number, still has
  -- the consumer's reader bit, and shows the bytes that it showed when the lease was taken. The
  -- steps assume that no process with an open handle is reported dead, and that a consumer takes
  -- nothing while it holds a lease from 2^63 publications ago.
  pub lease_holds :
      (l : ℕ) (x : Held) (c : Consumer)
      → s.leases l ≡ some x
      → s.consumers x.owner ≡ some c
      → SlotHolds r s.mem c x
  lease_holds = reached.leased

  -- In every state that steps reach from one without open handles, no writer holds a slot that is
  -- leased to a consumer which has not been closed. The assumptions on the steps are those of
  -- `Sees` and `NoneStale`: live processes are seen alive, and no take beside a lease from 2^63
  -- publications ago.
  pub writer_not_leased :
      (i l : ℕ) (w : SlotWriter) (x : Held) (c : Consumer)
      → s.writers i ≡ some w
      → s.leases l ≡ some x
      → s.consumers x.owner ≡ some c
      → w.slot ≢ x.meta.slot_index
  writer_not_leased i l w x c e q known same =
      let hold = reached.leased l x c q known in let written = reached.writing i w e in ground arith

  -- In every state that steps reach from one without open handles, two writers that hold the same
  -- slot are one.
  pub writers_exclusive :
      (i j : ℕ) (w v : SlotWriter)
      → s.writers i ≡ some w
      → s.writers j ≡ some v
      → w.slot ≡ v.slot
      → i ≡ j
  writers_exclusive i j w v e q same = reached.alone i j w v e q same

  -- In every state that steps reach from one without open handles, the release of a lease that is
  -- held succeeds if its consumer has not been closed: `LeaseViolation` is left for the leases of
  -- closed consumers. The assumptions on the steps are those of `Sees` and `NoneStale`: live
  -- processes are seen alive, and no take beside a lease from 2^63 publications ago.
  pub release_succeeds :
      (l : ℕ) (x : Held) (c : Consumer) (h : Host)
      → s.leases l ≡ some x
      → s.consumers x.owner ≡ some c
      → (release h c x.meta s.mem).0 ≡ ok tt
  release_succeeds l x c h q known =
      let hold = reached.leased l x c q known in
      (release_iff h c x.meta s.mem).1 (hold.sequence, hold.addressed)
