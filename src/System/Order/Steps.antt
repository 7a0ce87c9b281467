-- ===== src/System/Order/Steps.antt =====
-- The steps and the order of the numbers.
use tenzor_bus.Common.{◌+◌, ◌≤◌, refl, ap, arith}
use tenzor_bus.Mem.{Ring}
use tenzor_bus.Producer.{commit, commit_slot, abort, release_slot, set_timestamp_ns}
use tenzor_bus.Producer.Reserve.{attempt-Reservation, attempt-none-Reaped}
use tenzor_bus.Consumer.Release.{release-Released}
use tenzor_bus.System.{
  without_owner, System, Step, sweeps, registers, finds_full, closes, dies, claims, resigns,
  reserves, finds_none, drops, fills, stamps, commits, aborts, deserts, takes, returns, refused,
}
use tenzor_bus.System.Invariant.{Inv}
use tenzor_bus.System.Order.{Young, Ordered, Ordered-Shrinks, Ordered-Keeps}
use tenzor_bus.System.Order.Shrink.{
  Shrinks-Reaped, Shrinks-locked_reap, Shrinks-finds_full, Shrinks-registers, Shrinks-closes,
  Shrinks-written, Shrinks-stamps, Shrinks-commits, Shrinks-claims, Shrinks-resigns,
}
use tenzor_bus.System.Order.Keep.{
  Ordered-registers, Ordered-gone, Ordered-reserves, Ordered-ended, Ordered-aborts, Ordered-takes,
  Ordered-returns,
}

-- A step keeps the numbers in order, as long as none has wrapped.
pub Step-Ordered :
    {r : Ring} {s t : System} → Step r s t → Inv r s → Inv r t → Young s → Ordered r s → Ordered r t
Step-Ordered {r} {s} (sweeps h sees) inv inv' young ord =
    Ordered-Keeps r s ord _ inv' (Shrinks-locked_reap h r s.mem)
Step-Ordered {r} {s} (registers id h unused unowned sees e) inv inv' young ord =
    Ordered-registers r s inv ord id h young unused unowned e inv'
Step-Ordered {r} {s} (finds_full h sees e) inv inv' young ord =
    Ordered-Keeps r s ord _ inv' (Shrinks-finds_full h r s.mem e)
Step-Ordered {r} {s} (closes id h {c} e) inv inv' young ord =
    Ordered-gone r s inv ord id _ s.leases (λ l x q. q) (Shrinks-closes h r c s.mem) inv'
Step-Ordered {r} {s} (dies id) inv inv' young ord =
    Ordered-gone r s inv ord id s.mem (without_owner id s.leases) (λ l x q. ground arith)
      (record { next_seq = refl; used = λ j lt u. (u, refl) }) inv'
Step-Ordered {r} {s} (claims h n) inv inv' young ord =
    Ordered-Keeps r s ord _ inv' (Shrinks-claims h n r s.mem)
Step-Ordered {r} {s} (resigns h n) inv inv' young ord =
    Ordered-Keeps r s ord _ inv' (Shrinks-resigns h n r s.mem)
Step-Ordered {r} {s} (reserves id h hd nbytes unused sees e) inv inv' young ord =
    Ordered-reserves r s inv ord id h hd nbytes young sees e
Step-Ordered {r} {s} (finds_none h hd sees e) inv inv' young ord =
    Ordered-Keeps r s ord _ inv' (Shrinks-Reaped h r s.mem _ (attempt-none-Reaped h r hd s.mem e))
Step-Ordered {r} {s} drops inv inv' young ord =
    Ordered-Keeps r s ord _ inv' (record { next_seq = refl; used = λ j lt u. (u, refl) })
Step-Ordered {r} {s} (fills id {w} bytes e) inv inv' young ord = Ordered-Keeps r s ord _ inv' (
    Shrinks-written r s.mem _ w.slot (inv.writing id w e) refl (λ j. ground arith)
      (λ j ne. ground arith))
Step-Ordered {r} {s} (stamps id {w} ns e) inv inv' young ord =
    Ordered-Keeps r s ord _ inv' (Shrinks-stamps r s.mem w ns (inv.writing id w e))
Step-Ordered {r} {s} (commits id {w} e) inv inv' young ord =
    Ordered-ended r s inv ord id _ e (Shrinks-commits r s.mem w (inv.writing id w e)) inv'
Step-Ordered {r} {s} (aborts id h e) inv inv' young ord = Ordered-aborts r s inv ord id h young e
Step-Ordered {r} {s} (deserts id) inv inv' young ord =
    Ordered-Shrinks r s ord _ inv' (record { next_seq = refl; used = λ j lt u. (u, refl) })
      (λ i v q. ground arith) ord.low ord.seen
Step-Ordered {r} {s} (takes id l h known unused stale e) inv inv' young ord =
    Ordered-takes r s inv ord id l h young known e inv'
Step-Ordered {r} {s} (returns l h {x} {c} e known done) inv inv' young ord =
    Ordered-returns r s inv ord l h x c done inv'
Step-Ordered {r} {s} (refused l h c e gone no_release) inv inv' young ord =
    Ordered-Shrinks r s ord _ inv' (record { next_seq = refl; used = λ j lt u. (u, refl) })
      (λ i w q. q) ord.low (λ k y d q known. ord.seen k y d (ground arith) known)

-- No step counts more than one publication.
pub Step-counts :
    {r : Ring} {s t : System}
    → Step r s t
    → Inv r s
    → Ordered r s
    → Young s
    → t.mem.next_seq ≤ s.mem.next_seq + 1
unfolding abort release_slot set_timestamp_ns commit commit_slot
Step-counts {r} {s} (sweeps h sees) inv ord young =
    omega (arith, (Shrinks-locked_reap h r s.mem).next_seq)
Step-counts {r} {s} (registers id h unused unowned sees e) inv ord young =
    omega (arith, (Shrinks-registers h r s.mem e).next_seq)
Step-counts {r} {s} (finds_full h sees e) inv ord young =
    omega (arith, (Shrinks-finds_full h r s.mem e).next_seq)
Step-counts {r} {s} (closes id h {c} e) inv ord young =
    omega (arith, (Shrinks-closes h r c s.mem).next_seq)
Step-counts {r} {s} (dies id) inv ord young = omega arith
Step-counts {r} {s} (claims h n) inv ord young =
    omega (arith, (Shrinks-claims h n r s.mem).next_seq)
Step-counts {r} {s} (resigns h n) inv ord young =
    omega (arith, (Shrinks-resigns h n r s.mem).next_seq)
Step-counts {r} {s} (reserves id h hd nbytes unused sees e) inv ord young =
    omega (arith, (attempt-Reservation h r hd s.mem e).next_seq)
Step-counts {r} {s} (finds_none h hd sees e) inv ord young =
    omega (arith, (attempt-none-Reaped h r hd s.mem e).next_seq)
Step-counts {r} {s} drops inv ord young = omega arith
Step-counts {r} {s} (fills id bytes e) inv ord young = omega arith
Step-counts {r} {s} (stamps id {w} ns e) inv ord young = omega arith
Step-counts {r} {s} (commits id {w} e) inv ord young = omega arith
Step-counts {r} {s} (aborts id h {w} e) inv ord young =
    let here = ord.writer id w e in
    let mine = ord.numbered w.slot here.0 (ground (arith, inv.writing id w e)) in
    ground (arith, mine, here)
Step-counts {r} {s} (deserts id) inv ord young = omega arith
Step-counts {r} {s} (takes id l h known unused stale e) inv ord young = omega arith
Step-counts {r} {s} (returns l h {x} {c} e known done) inv ord young =
    let counted = (release-Released h c x.meta s.mem (ap (λ z. z.0) done)).next_seq in ground arith
Step-counts {r} {s} (refused l h c e gone no_release) inv ord young = omega arith
