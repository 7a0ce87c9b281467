-- ===== src/System/Inbox/Refine/Taken.antt =====
-- The steps that take a lease and give it back.
use native.Mathlib.Decide.{ℕ_discrete}
use tenzor_bus.Common.{
  ℕ, ◌^◌, ◌<◌, ◌≡◌, ◌≢◌, refl, sym, subst, ap, true, false, if◌then◌else◌, Option, none, some,
  arith, update,
}
use tenzor_bus.Errors.{ok}
use tenzor_bus.Host.{Host}
use tenzor_bus.Mem.{Mem, Ring, Consumer}
use tenzor_bus.Producer.Oldest.{Oldest}
use tenzor_bus.Consumer.{TensorMeta, try_take, steady, taken, lease_data, release}
use tenzor_bus.Consumer.Scan.{is_pending}
use tenzor_bus.Consumer.Take.{Taking, try_take-Taking, try_take-Oldest}
use tenzor_bus.Consumer.Release.{Released, release-Released}
use tenzor_bus.System.{Held, System}
use tenzor_bus.System.Invariant.{Inv}
use tenzor_bus.System.Order.{Young, Ordered}
use tenzor_bus.System.Order.Shrink.{newer-lt}
use tenzor_bus.System.Inbox.{message_of, waiting_for, inboxes, Shows, Shifts, silent, hands_out}
use tenzor_bus.System.Inbox.Same.{
  waiting_for-same, waiting_for-seen, inboxes-at, inboxes-none, inboxes-message, inboxes-some,
  inboxes-same,
}
use tenzor_bus.System.Inbox.Refine.Quiet.{newer-low}

module _ (r : Ring) (s : System) (inv : Inv r s) (ord : Ordered r s) (young : Young s) where
  -- What is pending is numbered below 2^62.
  pub pending-low :
      (c : Consumer) (j : ℕ)
      → j < r.slot_count
      → is_pending c (s.mem.slots j) ≡ true
      → (s.mem.slots j).sequence < 2 ^ 62
  pending-low c j lt p = ground (arith, ord.numbered j lt)

  module _ (id l : ℕ) (h : Host) {c : Consumer} {t : TensorMeta} (known : s.consumers id ≡ some c)
      (e : try_take r c (steady s.mem) ≡ some t) where
    pub taking : Taking r c s.mem t
    taking = try_take-Taking r c s.mem e

    abbrev after : System
    after = record s {
      mem = (taken h c t s.mem).1;
      consumers = update s.consumers id (some (taken h c t s.mem).0);
      leases =
          update s.leases l (some (record { owner = id; meta = t; bytes = lease_data t s.mem }));
    }

    taken-Shows : Shows t (lease_data t s.mem) (message_of (s.mem.slots t.slot_index))
    unfolding lease_data
    taken-Shows =
        let v = taking.valid in
        record {
          sequence = v.sequence_before;
          timestamp_ns = sym v.timestamp_ns;
          nbytes = sym v.nbytes;
          dtype = sym v.dtype;
          ndim = sym v.ndim;
          shape = sym v.shape;
          strides = sym v.strides;
          payload = refl;
        }

    pub taken-low : t.sequence < 2 ^ 62
    taken-low =
        let v = taking.valid in
        ground
          (arith, ord.numbered t.slot_index taking.in_range, v.committed_before, v.sequence_before)

    oldest :
        Oldest
          (is_pending c)
          s.mem.slots
          (λ j. (s.mem.slots j).sequence)
          r.slot_count
          (some (t.sequence, t.slot_index))
    oldest = try_take-Oldest r c s.mem (pending-low c) e

    pub taken-newer : c.last_sequence < t.sequence
    taken-newer = newer-lt (ord.low id c known) taken-low taking.newer

    -- The consumer's other messages are still pending, and nothing else has become so.
    others-pending :
        (k : ℕ)
        → k < r.slot_count
        → t.slot_index ≢ k
        → is_pending (taken h c t s.mem).0 (s.mem.slots k) ≡ is_pending c (s.mem.slots k)
    others-pending k lt ne = ground (
      arith,
      newer-low (s.mem.slots k).sequence c.last_sequence,
      newer-low (s.mem.slots k).sequence t.sequence,
      ord.low id c known,
      taken-low,
      taken-newer,
      ord.numbered k lt,
      ord.distinct k t.slot_index lt taking.in_range,
      oldest.3 k lt,
      taking.valid.sequence_before,
      taking.valid.committed_before,
    )

    taken-seen : is_pending (taken h c t s.mem).0 (s.mem.slots t.slot_index) ≡ false
    taken-seen =
        ground (arith, newer-low t.sequence t.sequence, taken-low, taking.valid.sequence_before)

    mine : update s.consumers id (some (taken h c t s.mem).0) id ≡ some (taken h c t s.mem).0
    mine = ground arith

    pub hands_out-takes :
        Shifts (hands_out id t (lease_data t s.mem)) (inboxes r s) (inboxes r after)
    hands_out-takes = (
      message_of (s.mem.slots t.slot_index),
      inboxes-some r s id t.slot_index taking.in_range (rw (known, oldest.1) refl),
      taken-Shows,
      λ k y q.
          let (lt, p, same) = inboxes-message r s id k c known q in
          ground (arith, oldest.3 k lt p, taking.valid.sequence_before, same),
      inboxes-none r after id t.slot_index
          (rw mine (waiting_for-seen (taken h c t s.mem).0 (s.mem.slots t.slot_index) taken-seen)),
      λ k ne. inboxes-at r s after id k (λ lt.
          rw (mine, known)
            (ap (λ b. if b then some (message_of (s.mem.slots k)) else none)
              (others-pending k lt ne))),
      λ other k ne. inboxes-at r s after other k (λ lt.
          let theirs : update s.consumers id (some (taken h c t s.mem).0) other
              ≡ s.consumers other =
            ground arith in
          rw theirs),
    )

  -- A slot whose lease was given back is in the same inboxes: the consumer had taken it already.
  returned-inbox :
      (l : ℕ) (h : Host) (x : Held) (c : Consumer) {m : Mem} (id k : ℕ) (o : Option Consumer)
      → s.leases l ≡ some x
      → s.consumers x.owner ≡ some c
      → Released h c x.meta s.mem m
      → s.consumers id ≡ o
      → k < r.slot_count
      → waiting_for o (m.slots k) ≡ waiting_for o (s.mem.slots k)
  returned-inbox l h x c id k none e known p q lt = refl
  returned-inbox l h x c {m} id k (some d) e known p q lt = elim (ℕ_discrete x.meta.slot_index k) [
    | no other ↦
        waiting_for-same d (s.mem.slots k) (m.slots k) (p.tensors k)
          (ground (arith, p.bits k d.index))
    | yes slot ↦ elim (ℕ_discrete c.index d.index) [
      | no other ↦
          waiting_for-same d (s.mem.slots k) (m.slots k) (p.tensors k)
            (ground (arith, p.bits k d.index))
      | yes reader ↦
          let owner : x.owner ≡ id = inv.apart x.owner id c d known q reader in
          let own : c ≡ d = cc in
          let hold = inv.leased l x c e known in
          let before : is_pending d (s.mem.slots k) ≡ false = ground (
            arith,
            hold,
            own,
            ord.seen l x c e known,
            ord.low x.owner c known,
            ord.numbered k lt,
            newer-low (s.mem.slots k).sequence d.last_sequence,
          ) in
          let after_ : is_pending d (m.slots k) ≡ false = ground (arith, before, p.tensors k) in
          rw (waiting_for-seen d (m.slots k) after_, waiting_for-seen d (s.mem.slots k) before)
    ]
  ]

  pub silent-returns :
      (l : ℕ) (h : Host) (x : Held) (c : Consumer) {m : Mem}
      → s.leases l ≡ some x
      → s.consumers x.owner ≡ some c
      → release h c x.meta s.mem ≡ (ok tt, m)
      → Shifts silent
          (inboxes r s)
          (inboxes r (record s { mem = m; leases = update s.leases l none }))
  silent-returns l h x c {m} e known done =
      let p : Released h c x.meta s.mem m =
        subst (λ z. Released h c x.meta s.mem z) (ap (λ z. z.1) done)
          (release-Released h c x.meta s.mem (ap (λ z. z.0) done)) in
      inboxes-same r s (record s { mem = m; leases = update s.leases l none })
        (λ id k lt. returned-inbox l h x c id k (s.consumers id) e known p refl lt)
