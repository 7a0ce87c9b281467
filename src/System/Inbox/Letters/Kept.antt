-- ===== src/System/Inbox/Letters/Kept.antt =====
-- What closes, reservations and takes do to the letters, and the writers' and the consumers' tables
-- after an update.
use tenzor_bus.Common.{
  ℕ, ◌≡◌, ◌≢◌, refl, sym, ◌∙◌, false, ◌&&◌, Bool-cases, inl, inr, Option, none, some, arith, update,
}
use tenzor_bus.Host.{Host}
use tenzor_bus.Mem.{Mem, Ring, Consumer}
use tenzor_bus.Registry.{close}
use tenzor_bus.Registry.Close.{close-Closed, close_twice}
use tenzor_bus.Registry.Drop.{test_bit-clear_reader}
use tenzor_bus.Producer.{SlotWriter, Header, Reserved, attempt}
use tenzor_bus.Producer.Reserve.{attempt-Reservation}
use tenzor_bus.Consumer.{TensorMeta, try_take, steady, taken}
use tenzor_bus.System.{System, Sees}
use tenzor_bus.System.Invariant.{Inv}
use tenzor_bus.System.Order.{Young, Ordered}
use tenzor_bus.System.Inbox.{
  letter_of, addresses, is_for, last_of, is_later, is_before, IsDraft, message_of,
}
use tenzor_bus.System.Inbox.Refine.Quiet.{newer-low}
use tenzor_bus.System.Inbox.Refine.Taken.{taken-low, taken-newer}
use tenzor_bus.System.Inbox.Letters.{Posts, kept_for}

module _ (r : Ring) (s : System) (inv : Inv r s) (ord : Ordered r s) (young : Young s) where
  -- A close takes the bit of its consumer only.
  pub closed-letter :
      (h : Host) (c : Consumer) (i : ℕ) (o : Option SlotWriter)
      → letter_of (close h r c s.mem).1 o ≡ letter_of s.mem o
  closed-letter h c i none = refl
  closed-letter h c i (some w) = elim (Bool-cases c.closed) [
    | inl e ↦ rw (close_twice h r c s.mem e) refl
    | inr e ↦ let closed = close-Closed h r c s.mem e in ground (arith, closed.slots w.slot)
  ]

  pub closed-for :
      (h : Host) (id : ℕ) (c : Consumer) (i other : ℕ)
      → s.consumers id ≡ some c
      → id ≢ other
      → is_for (close h r c s.mem).1 (s.writers i) (s.consumers other)
        ≡ is_for s.mem (s.writers i) (s.consumers other)
  closed-for h id c i other known ne = elim (Bool-cases c.closed) [
    | inl e ↦ rw (close_twice h r c s.mem e) refl
    | inr e ↦
        let closed = close-Closed h r c s.mem e in
        kept_for r s inv ord young (close h r c s.mem).1 (s.writers i) (s.consumers other)
          (λ w d q q'. ground (
            arith,
            closed.slots w.slot,
            inv.apart id other c d,
            test_bit-clear_reader c.index (s.mem.slots w.slot) d.index,
          ))
  ]

  reserved-elsewhere :
      (h : Host) (hd : Header) {a : Reserved} {m : Mem}
      → Sees h r s
      → attempt h r hd s.mem ≡ (some a, m)
      → (i : ℕ) (w : SlotWriter) → s.writers i ≡ some w
      → a.slot ≢ w.slot
  reserved-elsewhere h hd sees e i w q =
      let v = attempt-Reservation h r hd s.mem e in
      ground (arith, v.origin, inv.writing i w, sees.reserving i w)

  pub Posts-reserves :
      (h : Host) (hd : Header) {a : Reserved} {m : Mem}
      → Sees h r s
      → attempt h r hd s.mem ≡ (some a, m)
      → Posts r s inv ord young m
  Posts-reserves h hd {a} {m} sees e =
      let v = attempt-Reservation h r hd s.mem e in
      record {
        tensors =
            λ i w q. v.others w.slot (reserved-elsewhere h hd sees e i w q) (sees.reserving i w q);
        bits = λ i id w c q known. ground (
          arith,
          v.bits w.slot c.index (ord.writer i w q).0 (reserved-elsewhere h hd sees e i w q)
              (sees.reserving i w q),
          sees.readers id c known,
        );
      }

  -- A new letter is for all open consumers that have not taken its number.
  pub reserved-for :
      (h : Host) (hd : Header) {a : Reserved} {m : Mem} (id : ℕ) (o : Option Consumer)
      → Sees h r s
      → attempt h r hd s.mem ≡ (some a, m)
      → s.consumers id ≡ o
      → addresses (m.slots a.slot) o ≡ is_before (last_of o) a.sequence
  reserved-for h hd id none sees e q = refl
  reserved-for h hd {a} {m} id (some c) sees e q =
      let v = attempt-Reservation h r hd s.mem e in
      ground (
        arith,
        v.drafted.readers c.index,
        v.drafted.number,
        v.sequence,
        inv.registered id c q,
        sees.readers id c q,
        newer-low s.mem.next_seq c.last_sequence,
        ord.low id c q,
      )

  pub reserved-IsDraft :
      (h : Host) (hd : Header) {a : Reserved} {m : Mem}
      → attempt h r hd s.mem ≡ (some a, m)
      → IsDraft h hd a.sequence (message_of (m.slots a.slot))
  reserved-IsDraft h hd e =
      let v = attempt-Reservation h r hd s.mem e in
      record {
        number = v.drafted.number ∙ sym v.sequence;
        time = v.drafted.time;
        nbytes = v.drafted.nbytes;
        dtype = v.drafted.dtype;
        ndim = v.drafted.ndim;
        shape = v.drafted.shape;
        strides = v.drafted.strides;
      }

  -- A consumer that has taken a number is addressed by later letters only.
  pub taken-for :
      (id : ℕ) (h : Host) {c : Consumer} {t : TensorMeta} (i : ℕ) (o : Option SlotWriter)
      → s.consumers id ≡ some c
      → try_take r c (steady s.mem) ≡ some t
      → s.writers i ≡ o
      → is_for s.mem o (some (taken h c t s.mem).0)
        ≡ (is_for s.mem o (some c) && is_later t.sequence (letter_of s.mem o))
  taken-for id h i none known e q = refl
  taken-for id h {c} {t} i (some w) known e q =
      let low = taken-low r s inv ord young id 0 h known e in
      let newer = taken-newer r s inv ord young id 0 h known e in
      ground (
        arith,
        low,
        newer,
        newer-low (s.mem.slots w.slot).sequence c.last_sequence,
        newer-low (s.mem.slots w.slot).sequence t.sequence,
        ord.low id c known,
        ord.writer i w q,
        ord.numbered w.slot (ord.writer i w q).0 (ground (arith, inv.writing i w q)),
      )

  -- The writers' letters when writer `id` gets or loses its slot.
  module _ (id : ℕ) (o : Option SlotWriter) (m : Mem) where
    pub mine : update s.writers id o id ≡ o
    mine = ground arith

    theirs : (j : ℕ) → id ≢ j → update s.writers id o j ≡ s.writers j
    theirs j ne = ground arith

    pub update-letter :
        ((j : ℕ) → id ≢ j → letter_of m (s.writers j) ≡ letter_of s.mem (s.writers j))
        → (j : ℕ) → id ≢ j
        → letter_of m (update s.writers id o j) ≡ letter_of s.mem (s.writers j)
    update-letter kept j ne = rw (theirs j ne) (kept j ne)

    pub update-for :
        ((j i : ℕ)
          → id ≢ j
          → is_for m (s.writers j) (s.consumers i) ≡ is_for s.mem (s.writers j) (s.consumers i))
        → (j i : ℕ) → id ≢ j
        → is_for m (update s.writers id o j) (s.consumers i)
          ≡ is_for s.mem (s.writers j) (s.consumers i)
    update-for kept j i ne = rw (theirs j ne) (kept j i ne)

  -- A consumer that is not there is addressed by nothing.
  pub nobody-for : (m : Mem) (o : Option SlotWriter) → is_for m o none ≡ false
  nobody-for m none = refl
  nobody-for m (some w) = refl

  module _ (id : ℕ) (o : Option Consumer) where
    pub my_handle : update s.consumers id o id ≡ o
    my_handle = ground arith

    pub their_handle : (j : ℕ) → id ≢ j → update s.consumers id o j ≡ s.consumers j
    their_handle j ne = ground arith

  pub Opens-update :
      (id : ℕ) (o : Option Consumer) (j : ℕ)
      → id ≢ j
      → last_of (update s.consumers id o j) ≡ last_of (s.consumers j)
  Opens-update id o j ne = rw (their_handle id o j ne) refl
