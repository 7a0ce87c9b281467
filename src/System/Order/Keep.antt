-- ===== src/System/Order/Keep.antt =====
-- The operations that number a slot, take a message or end a handle keep the numbers in order.
use tenzor_bus.Common.{
  Option, ℕ, ◌+◌, ◌^◌, ◌<◌, ◌≡◌, ◌≢◌, refl, subst, ap, false, update, some, none, arith, Bool-cases,
  inl, inr,
}
use native.Mathlib.Decide.{ℕ_discrete}
use tenzor_bus.Errors.{ok}
use tenzor_bus.Host.{Host}
use tenzor_bus.Mem.{Mem, Ring, Consumer}
use tenzor_bus.Registry.{is_abandoned, consumer}
use tenzor_bus.Registry.Register.{consumer-Registration}
use tenzor_bus.Producer.{SlotWriter, Header, Reserved, attempt, abort, release_slot}
use tenzor_bus.Producer.Reserve.{attempt-Reservation}
use tenzor_bus.Producer.Select.{is_free}
use tenzor_bus.Consumer.{TensorMeta, try_take, steady, taken, lease_data, release}
use tenzor_bus.Consumer.Take.{try_take-Taking}
use tenzor_bus.Consumer.Release.{Released, release-Released}
use tenzor_bus.System.{Held, System, Sees, writer_of}
use tenzor_bus.System.Invariant.{Inv}
use tenzor_bus.System.Order.{Young, Ordered, Shrinks, Ordered-Shrinks}
use tenzor_bus.System.Order.Shrink.{Shrinks-registers, newer-lt}

module _ (r : Ring) (s : System) (inv : Inv r s) (ord : Ordered r s) where
  pub Ordered-registers :
      (id : ℕ) (h : Host) {c : Consumer} {m : Mem}
      → Young s
      → s.consumers id ≡ none
      → ((l : ℕ) (x : Held) → s.leases l ≡ some x → x.owner ≢ id)
      → consumer h r s.mem ≡ (ok c, m)
      → Inv r (record s { mem = m; consumers = update s.consumers id (some c) })
      → Ordered r (record s { mem = m; consumers = update s.consumers id (some c) })
  Ordered-registers id h {c} {m} young unused unowned e inv' =
      let reg = consumer-Registration h r s.mem e in
      Ordered-Shrinks r s ord _ inv' (Shrinks-registers h r s.mem e) (λ i w q. q)
        (λ i d q. ground (arith, ord.low i d, reg.from_now, ord.counting))
        (λ l x d q known. ground (arith, unowned l x q, ord.seen l x d q))

  pub Ordered-gone :
      (id : ℕ) (m : Mem) (leases : ℕ → Option Held)
      → ((l : ℕ) (x : Held) → leases l ≡ some x → s.leases l ≡ some x)
      → Shrinks r s.mem m
      → Inv r (record s { mem = m; consumers = update s.consumers id none; leases = leases })
      → Ordered r (record s { mem = m; consumers = update s.consumers id none; leases = leases })
  Ordered-gone id m leases old p inv' =
      Ordered-Shrinks r s ord _ inv' p (λ i w q. q) (λ i d q. ground (arith, ord.low i d))
        (λ l x d q known. ground (arith, ord.seen l x d (old l x q)))

  -- The other slots that are in use after a reservation, and their numbers.
  reserved-others :
      (h : Host) (hd : Header) {a : Reserved} {m : Mem}
      → attempt h r hd s.mem ≡ (some a, m)
      → (j : ℕ) → j < r.slot_count
      → a.slot ≢ j
      → is_free (m.slots j) ≡ false
      → (is_free (s.mem.slots j) ≡ false) × ((m.slots j).sequence ≡ (s.mem.slots j).sequence)
  reserved-others h hd {a} {m} e j lt ne u =
      let v = attempt-Reservation h r hd s.mem e in
      elim (Bool-cases (is_abandoned h (s.mem.slots j))) [
        | inl dead ↦ absurd (ground (arith, v.abandoned j lt ne dead))
        | inr alive ↦ let q = v.others j ne alive in ground (arith, q)
      ]

  pub Ordered-reserves :
      (id : ℕ) (h : Host) (hd : Header) (nbytes : ℕ) {a : Reserved} {m : Mem}
      → Young s
      → Sees h r s
      → attempt h r hd s.mem ≡ (some a, m)
      → Ordered r (record s { mem = m; writers = update s.writers id (some (writer_of a nbytes)) })
  Ordered-reserves id h hd nbytes {a} {m} young sees e =
      let v = attempt-Reservation h r hd s.mem e in
      let next : m.next_seq ≡ s.mem.next_seq + 1 = omega (arith, v.next_seq) in
      record {
        counting = omega (arith, next);
        numbered = λ j lt u. elim (ℕ_discrete a.slot j) [
          | yes q ↦ ground (arith, v.written, ord.counting)
          | no q ↦ ground (arith, reserved-others h hd e j lt q u, ord.numbered j lt)
        ];
        distinct = λ i j lt lt' u u' q. elim (ℕ_discrete a.slot i) [
          | yes x ↦ elim (ℕ_discrete a.slot j) [
            | yes y ↦ omega arith
            | no y ↦
                absurd
                  (ground (arith, v.written, reserved-others h hd e j lt' y u', ord.numbered j lt'))
          ]
          | no x ↦ elim (ℕ_discrete a.slot j) [
            | yes y ↦
                absurd
                  (ground (arith, v.written, reserved-others h hd e i lt x u, ord.numbered i lt))
            | no y ↦ ground (
              arith,
              reserved-others h hd e i lt x u,
              reserved-others h hd e j lt' y u',
              ord.distinct i j lt lt',
            )
          ]
        ];
        writer = λ i w q. ground (
          arith,
          v.in_range,
          v.sequence,
          v.written,
          v.origin,
          inv.writing i w,
          sees.reserving i w,
          ord.writer i w,
          v.others w.slot,
        );
        low = ord.low;
        seen = ord.seen;
      }

  pub Ordered-ended :
      (id : ℕ) {w : SlotWriter} (m : Mem)
      → s.writers id ≡ some w
      → Shrinks r s.mem m
      → Inv r (record s { mem = m; writers = update s.writers id none })
      → Ordered r (record s { mem = m; writers = update s.writers id none })
  Ordered-ended id m e p inv' =
      Ordered-Shrinks r s ord _ inv' p (λ i v q. ground arith) ord.low ord.seen

  pub Ordered-aborts :
      (id : ℕ) (h : Host) {w : SlotWriter}
      → Young s
      → s.writers id ≡ some w
      → Ordered r (record s { mem = (abort h w s.mem).1; writers = update s.writers id none })
  unfolding abort release_slot
  Ordered-aborts id h {w} young e =
      let here = ord.writer id w e in
      let mine = ord.numbered w.slot here.0 (ground (arith, inv.writing id w e)) in
      record {
        counting = ground (arith, mine, here, ord.counting);
        numbered = λ j lt u. ground (
          arith,
          mine,
          here,
          ord.numbered j lt,
          ord.distinct w.slot j here.0 lt,
          inv.writing id w e,
        );
        distinct = λ i j lt lt' u u' q. ground (arith, ord.distinct i j lt lt');
        writer = λ i v q. ground (arith, ord.writer i v);
        low = ord.low;
        seen = ord.seen;
      }

  pub Ordered-takes :
      (id l : ℕ) (h : Host) {c : Consumer} {t : TensorMeta}
      → Young s
      → s.consumers id ≡ some c
      → try_take r c (steady s.mem) ≡ some t
      → Inv r (record s {
        mem = (taken h c t s.mem).1;
        consumers = update s.consumers id (some (taken h c t s.mem).0);
        leases =
            update s.leases l (some (record { owner = id; meta = t; bytes = lease_data t s.mem }));
      })
      → Ordered r (record s {
        mem = (taken h c t s.mem).1;
        consumers = update s.consumers id (some (taken h c t s.mem).0);
        leases =
            update s.leases l (some (record { owner = id; meta = t; bytes = lease_data t s.mem }));
      })
  Ordered-takes id l h {c} {t} young known e inv' =
      let taking = try_take-Taking r c s.mem e in
      let v = taking.valid in
      let small : t.sequence < 2 ^ 62 =
        ground (
          arith,
          ord.numbered t.slot_index taking.in_range,
          v.committed_before,
          v.sequence_before,
        ) in
      let rises : c.last_sequence < t.sequence = newer-lt (ord.low id c known) small taking.newer in
      Ordered-Shrinks r s ord _ inv' (record { next_seq = refl; used = λ j lt u. (u, refl) })
        (λ i w q. q) (λ i d q. ground (arith, ord.low i d))
        (λ k x d q known'. ground (arith, ord.seen k x d, ord.seen k x c))

  pub Ordered-returns :
      (l : ℕ) (h : Host) (x : Held) (c : Consumer) {m : Mem}
      → release h c x.meta s.mem ≡ (ok tt, m)
      → Inv r (record s { mem = m; leases = update s.leases l none })
      → Ordered r (record s { mem = m; leases = update s.leases l none })
  Ordered-returns l h x c {m} done inv' =
      let p : Released h c x.meta s.mem m =
        subst (λ z. Released h c x.meta s.mem z) (ap (λ z. z.1) done)
          (release-Released h c x.meta s.mem (ap (λ z. z.0) done)) in
      Ordered-Shrinks r s ord _ inv'
        (record { next_seq = p.next_seq; used = λ j lt u. ground (arith, p.tensors j) })
        (λ i w q. q) ord.low (λ k y d q known. ground (arith, ord.seen k y d))
