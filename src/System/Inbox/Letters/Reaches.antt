-- ===== src/System/Inbox/Letters/Reaches.antt =====
-- Every step against what its action does to whom the letters are for, and to the consumers' last
-- numbers.
use native.Mathlib.Decide.{ℕ_discrete}
use tenzor_bus.Common.{◌≡◌, refl, sym, subst, ap, ◌∙◌, none, some, arith, update}
use tenzor_bus.Mem.{Ring}
use tenzor_bus.Registry.{close, sweep, producer, drop_producer}
use tenzor_bus.Registry.Reap.{locked_reap-Reaped}
use tenzor_bus.Registry.Register.{consumer-full}
use tenzor_bus.Producer.{write_payload, set_timestamp_ns, commit, commit_slot, abort, release_slot}
use tenzor_bus.Producer.Reserve.{attempt-none-Reaped}
use tenzor_bus.Consumer.{taken}
use tenzor_bus.Consumer.Release.{Released, release-Released}
use tenzor_bus.System.{
  System, Step, sweeps, registers, finds_full, closes, dies, claims, resigns, reserves, finds_none,
  drops, fills, stamps, commits, aborts, deserts, takes, returns, refused, writer_of,
}
use tenzor_bus.System.Invariant.{Inv}
use tenzor_bus.System.Order.{Young, Ordered}
use tenzor_bus.System.Inbox.{Addresses, Opens, view, action_of}
use tenzor_bus.System.Inbox.Letters.{
  Posts-for, Posts-same, Posts-Reaped, Posts-registers, Posts-Released, new_consumer-for, other_for,
  kept_for,
}
use tenzor_bus.System.Inbox.Letters.Kept.{
  closed-for, Posts-reserves, reserved-for, taken-for, mine, update-for, nobody-for, my_handle,
  their_handle, Opens-update,
}

pub Step-Addresses :
    {r : Ring} {s t : System} (st : Step r s t)
    → Inv r s
    → Ordered r s
    → Young s
    → Addresses (action_of st) (view r s) (view r t)
unfolding sweep producer drop_producer set_timestamp_ns commit commit_slot abort release_slot
Step-Addresses {r} {s} (sweeps h sees) inv ord young =
    Posts-for r s inv ord young
      (Posts-Reaped r s inv ord young h _ sees (locked_reap-Reaped h r s.mem))
Step-Addresses {r} {s} (registers id h {c} {m} unused unowned sees e) inv ord young = λ i j.
    elim (ℕ_discrete id j) [
      | yes same ↦
          let before : s.consumers j ≡ none = rw (sym same) unused in
          let after : update s.consumers id (some c) j ≡ some c = ground arith in
          rw (after, before)
            (new_consumer-for r s inv ord young h i (s.writers i) sees e refl
              ∙ sym (nobody-for r s inv ord young s.mem (s.writers i)))
      | no other ↦
          rw (their_handle r s inv ord young id (some c) j other)
            (Posts-for r s inv ord young (Posts-registers r s inv ord young h sees e) i j)
    ]
Step-Addresses {r} {s} (finds_full h sees e) inv ord young =
    rw (consumer-full h r s.mem 0 e (omega arith)).0 (
      Posts-for r s inv ord young
        (Posts-Reaped r s inv ord young h _ sees (locked_reap-Reaped h r s.mem)))
Step-Addresses {r} {s} (closes id h {c} e) inv ord young = (
  λ i.
      rw (my_handle r s inv ord young id none)
        (nobody-for r s inv ord young (close h r c s.mem).1 (s.writers i)),
  λ i j ne.
      rw (their_handle r s inv ord young id none j ne)
        (closed-for r s inv ord young h id c i j e ne),
)
Step-Addresses {r} {s} (dies id) inv ord young = (
  λ i. rw (my_handle r s inv ord young id none) (nobody-for r s inv ord young s.mem (s.writers i)),
  λ i j ne. rw (their_handle r s inv ord young id none j ne) refl,
)
Step-Addresses {r} {s} (claims h n) inv ord young =
    Posts-for r s inv ord young
      (Posts-same r s inv ord young (producer h n s.mem).1 (λ j. ground arith))
Step-Addresses {r} {s} (resigns h n) inv ord young =
    Posts-for r s inv ord young
      (Posts-same r s inv ord young (drop_producer h n s.mem).1 (λ j. ground arith))
Step-Addresses {r} {s} (reserves id h hd nbytes {a} {m} unused sees e) inv ord young = (
  λ i.
      rw (mine r s inv ord young id (some (writer_of a nbytes)) m)
        (reserved-for r s inv ord young h hd i (s.consumers i) sees e refl),
  update-for r s inv ord young id (some (writer_of a nbytes)) m
      (λ j i ne. Posts-for r s inv ord young (Posts-reserves r s inv ord young h hd sees e) j i),
)
Step-Addresses {r} {s} (finds_none h hd sees e) inv ord young =
    Posts-for r s inv ord young
      (Posts-Reaped r s inv ord young h _ sees (attempt-none-Reaped h r hd s.mem e))
Step-Addresses {r} {s} drops inv ord young = λ i j. refl
Step-Addresses {r} {s} (fills id {w} bytes e) inv ord young = λ i j.
    kept_for r s inv ord young (write_payload w.slot bytes s.mem) (s.writers i) (s.consumers j)
      (λ v c q p. ground arith)
Step-Addresses {r} {s} (stamps id {w} ns e) inv ord young = λ i j.
    kept_for r s inv ord young (set_timestamp_ns w ns s.mem) (s.writers i) (s.consumers j)
      (λ v c q p. ground arith)
Step-Addresses {r} {s} (commits id {w} e) inv ord young = (
  λ i. rw e refl,
  λ i. rw (mine r s inv ord young id none s.mem) refl,
  update-for r s inv ord young id none (commit w s.mem).1
      (other_for r s inv ord young id (commit w s.mem).1 e (λ j ne. ground arith)),
)
Step-Addresses {r} {s} (aborts id h {w} e) inv ord young = (
  λ i. rw (mine r s inv ord young id none s.mem) refl,
  update-for r s inv ord young id none (abort h w s.mem).1
      (other_for r s inv ord young id (abort h w s.mem).1 e (λ j ne. ground arith)),
)
Step-Addresses {r} {s} (deserts id) inv ord young = (
  λ i. rw (mine r s inv ord young id none s.mem) refl,
  update-for r s inv ord young id none s.mem (λ j i ne. refl),
)
Step-Addresses {r} {s} (takes id l h {c} {t} known unused stale e) inv ord young = (
  λ i.
      rw (my_handle r s inv ord young id (some (taken h c t s.mem).0), known)
        (taken-for r s inv ord young id h i (s.writers i) known e refl),
  λ i j ne. rw (their_handle r s inv ord young id (some (taken h c t s.mem).0) j ne) refl,
)
Step-Addresses {r} {s} (returns l h {x} {c} {m} e known done) inv ord young =
    let p : Released h c x.meta s.mem m =
      subst (λ z. Released h c x.meta s.mem z) (ap (λ z. z.1) done)
        (release-Released h c x.meta s.mem (ap (λ z. z.0) done)) in
    Posts-for r s inv ord young (Posts-Released r s inv ord young l h x c e known p)
Step-Addresses {r} {s} (refused l h c e gone no_release) inv ord young = λ i j. refl

pub Step-Opens :
    {r : Ring} {s t : System} (st : Step r s t)
    → Inv r s
    → Ordered r s
    → Young s
    → Opens (action_of st) (view r s).last (view r t).last
Step-Opens {r} {s} (registers id h {c} unused unowned sees e) inv ord young = (
  rw unused refl,
  rw (my_handle r s inv ord young id (some c)) refl,
  Opens-update r s inv ord young id (some c),
)
Step-Opens {r} {s} (closes id h e) inv ord young =
    (rw (my_handle r s inv ord young id none) refl, Opens-update r s inv ord young id none)
Step-Opens {r} {s} (dies id) inv ord young =
    (rw (my_handle r s inv ord young id none) refl, Opens-update r s inv ord young id none)
Step-Opens {r} {s} (takes id l h {c} {t} known unused stale e) inv ord young = (
  rw (my_handle r s inv ord young id (some (taken h c t s.mem).0)) refl,
  Opens-update r s inv ord young id (some (taken h c t s.mem).0),
)
Step-Opens {r} {s} (sweeps h sees) inv ord young = λ j. refl
Step-Opens {r} {s} (finds_full h sees e) inv ord young = λ j. refl
Step-Opens {r} {s} (claims h n) inv ord young = λ j. refl
Step-Opens {r} {s} (resigns h n) inv ord young = λ j. refl
Step-Opens {r} {s} (reserves id h hd nbytes unused sees e) inv ord young = λ j. refl
Step-Opens {r} {s} (finds_none h hd sees e) inv ord young = λ j. refl
Step-Opens {r} {s} drops inv ord young = λ j. refl
Step-Opens {r} {s} (fills id bytes e) inv ord young = λ j. refl
Step-Opens {r} {s} (stamps id ns e) inv ord young = λ j. refl
Step-Opens {r} {s} (commits id e) inv ord young = λ j. refl
Step-Opens {r} {s} (aborts id h e) inv ord young = λ j. refl
Step-Opens {r} {s} (deserts id) inv ord young = λ j. refl
Step-Opens {r} {s} (returns l h e known done) inv ord young = λ j. refl
Step-Opens {r} {s} (refused l h c e gone no_release) inv ord young = λ j. refl
