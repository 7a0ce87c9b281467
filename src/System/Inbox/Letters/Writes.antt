-- ===== src/System/Inbox/Letters/Writes.antt =====
-- Every step against what its action does to the letters.
use tenzor_bus.Common.{refl, subst, ap, none, some, arith}
use tenzor_bus.Mem.{Ring}
use tenzor_bus.Registry.{sweep, producer, drop_producer}
use tenzor_bus.Registry.Reap.{locked_reap-Reaped}
use tenzor_bus.Registry.Register.{consumer-full}
use tenzor_bus.Producer.{write_payload, set_timestamp_ns, commit, commit_slot, abort, release_slot}
use tenzor_bus.Producer.Reserve.{attempt-none-Reaped}
use tenzor_bus.Consumer.Release.{Released, release-Released}
use tenzor_bus.System.{
  System, Step, sweeps, registers, finds_full, closes, dies, claims, resigns, reserves, finds_none,
  drops, fills, stamps, commits, aborts, deserts, takes, returns, refused, writer_of,
}
use tenzor_bus.System.Invariant.{Inv}
use tenzor_bus.System.Order.{Young, Ordered}
use tenzor_bus.System.Inbox.{message_of, Writes, view, action_of}
use tenzor_bus.System.Inbox.Letters.{
  Posts-letter, Posts-same, Posts-Reaped, Posts-registers, Posts-Released, other_letter,
}
use tenzor_bus.System.Inbox.Letters.Kept.{
  closed-letter, Posts-reserves, reserved-IsDraft, mine, update-letter,
}

pub Step-Writes :
    {r : Ring} {s t : System} (st : Step r s t)
    → Inv r s
    → Ordered r s
    → Young s
    → Writes (action_of st) (view r s).letter (view r t).letter
unfolding sweep producer drop_producer set_timestamp_ns commit commit_slot abort release_slot
Step-Writes {r} {s} (sweeps h sees) inv ord young =
    Posts-letter r s inv ord young
      (Posts-Reaped r s inv ord young h _ sees (locked_reap-Reaped h r s.mem))
Step-Writes {r} {s} (registers id h unused unowned sees e) inv ord young =
    Posts-letter r s inv ord young (Posts-registers r s inv ord young h sees e)
Step-Writes {r} {s} (finds_full h sees e) inv ord young =
    rw (consumer-full h r s.mem 0 e (omega arith)).0 (
      Posts-letter r s inv ord young
        (Posts-Reaped r s inv ord young h _ sees (locked_reap-Reaped h r s.mem)))
Step-Writes {r} {s} (closes id h {c} e) inv ord young =
    λ i. closed-letter r s inv ord young h c i (s.writers i)
Step-Writes {r} {s} (dies id) inv ord young = λ i. refl
Step-Writes {r} {s} (claims h n) inv ord young =
    Posts-letter r s inv ord young
      (Posts-same r s inv ord young (producer h n s.mem).1 (λ j. ground arith))
Step-Writes {r} {s} (resigns h n) inv ord young =
    Posts-letter r s inv ord young
      (Posts-same r s inv ord young (drop_producer h n s.mem).1 (λ j. ground arith))
Step-Writes {r} {s} (reserves id h hd nbytes {a} {m} unused sees e) inv ord young = (
  message_of (m.slots a.slot),
  rw (mine r s inv ord young id (some (writer_of a nbytes)) m) refl,
  reserved-IsDraft r s inv ord young h hd e,
  update-letter r s inv ord young id (some (writer_of a nbytes)) m
      (λ j ne. Posts-letter r s inv ord young (Posts-reserves r s inv ord young h hd sees e) j),
)
Step-Writes {r} {s} (finds_none h hd sees e) inv ord young =
    Posts-letter r s inv ord young
      (Posts-Reaped r s inv ord young h _ sees (attempt-none-Reaped h r hd s.mem e))
Step-Writes {r} {s} drops inv ord young = λ i. refl
Step-Writes {r} {s} (fills id {w} bytes e) inv ord young = (
  message_of (s.mem.slots w.slot),
  rw e refl,
  rw e (ground arith),
  other_letter r s inv ord young id (write_payload w.slot bytes s.mem) e (λ j ne. ground arith),
)
Step-Writes {r} {s} (stamps id {w} ns e) inv ord young = (
  message_of (s.mem.slots w.slot),
  rw e refl,
  rw e (ground arith),
  other_letter r s inv ord young id (set_timestamp_ns w ns s.mem) e (λ j ne. ground arith),
)
Step-Writes {r} {s} (commits id {w} e) inv ord young = (
  rw e refl,
  rw (mine r s inv ord young id none s.mem) refl,
  update-letter r s inv ord young id none (commit w s.mem).1
      (other_letter r s inv ord young id (commit w s.mem).1 e (λ j ne. ground arith)),
)
Step-Writes {r} {s} (aborts id h {w} e) inv ord young = (
  rw (mine r s inv ord young id none s.mem) refl,
  update-letter r s inv ord young id none (abort h w s.mem).1
      (other_letter r s inv ord young id (abort h w s.mem).1 e (λ j ne. ground arith)),
)
Step-Writes {r} {s} (deserts id) inv ord young = (
  rw (mine r s inv ord young id none s.mem) refl,
  update-letter r s inv ord young id none s.mem (λ j ne. refl),
)
Step-Writes {r} {s} (takes id l h known unused stale e) inv ord young = λ i. refl
Step-Writes {r} {s} (returns l h {x} {c} {m} e known done) inv ord young =
    let p : Released h c x.meta s.mem m =
      subst (λ z. Released h c x.meta s.mem z) (ap (λ z. z.1) done)
        (release-Released h c x.meta s.mem (ap (λ z. z.0) done)) in
    Posts-letter r s inv ord young (Posts-Released r s inv ord young l h x c e known p)
Step-Writes {r} {s} (refused l h c e gone no_release) inv ord young = λ i. refl
