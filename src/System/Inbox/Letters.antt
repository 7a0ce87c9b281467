-- ===== src/System/Inbox/Letters.antt =====
-- What the steps of the ring do to the letters that are being written, and to whom they are for.
pub mod Kept
pub mod Writes
pub mod Reaches
use tenzor_bus.Common.{
  ℕ, ◌<◌, ◌≡◌, ◌≢◌, refl, true, false, ltb, ◌&&◌, Bool-cases, inl, inr, Option, none, some, List,
  arith, update,
}
use tenzor_bus.Common.Bits.{test_bit}
use tenzor_bus.Proto.{seq_newer}
use tenzor_bus.Host.{Host}
use tenzor_bus.Mem.{Mem, Ring, Slot, Consumer}
use tenzor_bus.Registry.{consumer, close}
use tenzor_bus.Registry.Reap.{SameTensor, Reaped, locked_reap-Reaped}
use tenzor_bus.Registry.Register.{consumer-Registration}
use tenzor_bus.Registry.Close.{close-Closed, close_twice}
use tenzor_bus.Registry.Drop.{test_bit-clear_reader}
use tenzor_bus.Producer.{SlotWriter, Header, attempt}
use tenzor_bus.Producer.Reserve.{attempt-Reservation}
use tenzor_bus.Consumer.{TensorMeta}
use tenzor_bus.Consumer.Release.{Released}
use tenzor_bus.System.{ok, Held, System, Sees, writer_of}
use tenzor_bus.System.Invariant.{Inv}
use tenzor_bus.System.Order.{Young, Ordered}
use tenzor_bus.System.Inbox.Refine.Quiet.{newer-low}
use tenzor_bus.System.Inbox.{
  Message, letter_of, addresses, is_for, last_of, is_later, is_before, IsDraft, message_of,
}

module _ (r : Ring) (s : System) (inv : Inv r s) (ord : Ordered r s) (young : Young s) where
  -- A memory that keeps the writers' slots, and the bits of the open consumers in them.
  pub record Posts (m : Mem) : Type 0 where
    pub tensors :
        (i : ℕ) (w : SlotWriter)
        → s.writers i ≡ some w
        → SameTensor (s.mem.slots w.slot) (m.slots w.slot)
    pub bits :
        (i id : ℕ) (w : SlotWriter) (c : Consumer)
        → s.writers i ≡ some w
        → s.consumers id ≡ some c
        → test_bit (m.slots w.slot).mask c.index ≡ test_bit (s.mem.slots w.slot).mask c.index

  kept_letter :
      (m : Mem) (o : Option SlotWriter)
      → ((w : SlotWriter) → o ≡ some w → SameTensor (s.mem.slots w.slot) (m.slots w.slot))
      → letter_of m o ≡ letter_of s.mem o
  kept_letter m none f = refl
  kept_letter m (some w) f = ground (arith, f w refl)

  kept_for :
      (m : Mem) (o : Option SlotWriter) (p : Option Consumer)
      → ((w : SlotWriter) (c : Consumer)
          → o ≡ some w
          → p ≡ some c
          → ((m.slots w.slot).sequence ≡ (s.mem.slots w.slot).sequence)
            × (test_bit (m.slots w.slot).mask c.index ≡ test_bit (s.mem.slots w.slot).mask c.index))
      → is_for m o p ≡ is_for s.mem o p
  kept_for m none p f = refl
  kept_for m (some w) none f = refl
  kept_for m (some w) (some c) f = ground (arith, f w c refl refl)

  pub Posts-letter :
      {m : Mem} → Posts m → (i : ℕ) → letter_of m (s.writers i) ≡ letter_of s.mem (s.writers i)
  Posts-letter {m} p i = kept_letter m (s.writers i) (λ w e. p.tensors i w e)

  pub Posts-for :
      {m : Mem}
      → Posts m
      → (i id : ℕ)
      → is_for m (s.writers i) (s.consumers id) ≡ is_for s.mem (s.writers i) (s.consumers id)
  Posts-for {m} p i id =
      kept_for m (s.writers i) (s.consumers id)
        (λ w c e q. ground (arith, p.tensors i w e, p.bits i id w c e q))

  pub Posts-same : (m : Mem) → ((j : ℕ) → m.slots j ≡ s.mem.slots j) → Posts m
  Posts-same m same = record {
    tensors = λ i w e. ground (arith, same w.slot);
    bits = λ i id w c e q. ground (arith, same w.slot);
  }

  pub Posts-Reaped : (h : Host) (m : Mem) → Sees h r s → Reaped h r s.mem m → Posts m
  Posts-Reaped h m sees p = record {
    tensors = λ i w e. p.tensors w.slot (sees.reserving i w e);
    bits = λ i id w c e q. ground (
      arith,
      p.bits w.slot c.index (ord.writer i w e).0 (sees.reserving i w e),
      sees.readers id c q,
    );
  }

  pub Posts-registers :
      (h : Host) {c : Consumer} {m : Mem} → Sees h r s → consumer h r s.mem ≡ (ok c, m) → Posts m
  Posts-registers h {m} sees e =
      let reg = consumer-Registration h r s.mem e in
      let p = Posts-Reaped h _ sees (locked_reap-Reaped h r s.mem) in
      record {
        tensors = λ i w q. rw (reg.slots w.slot) (p.tensors i w q);
        bits = λ i id w c q known. rw (reg.slots w.slot) (p.bits i id w c q known);
      }

  pub Posts-Released :
      (l : ℕ) (h : Host) (x : Held) (c : Consumer) {m : Mem}
      → s.leases l ≡ some x
      → s.consumers x.owner ≡ some c
      → Released h c x.meta s.mem m
      → Posts m
  Posts-Released l h x c e known p = record {
    tensors = λ i w q. p.tensors w.slot;
    bits = λ i id w d q q'.
        let hold = inv.leased l x c e known in
        ground (arith, hold, inv.writing i w q, p.bits w.slot d.index);
  }

  -- No letter is for a consumer that has just been registered.
  pub new_consumer-for :
      (h : Host) {c : Consumer} {m : Mem} (i : ℕ) (o : Option SlotWriter)
      → Sees h r s
      → consumer h r s.mem ≡ (ok c, m)
      → s.writers i ≡ o
      → is_for m o (some c) ≡ false
  new_consumer-for h i none sees e q = refl
  new_consumer-for h {c} {m} i (some w) sees e q =
      let reg = consumer-Registration h r s.mem e in
      let p = Posts-registers h sees e in
      ground (
        arith,
        p.tensors i w q,
        reg.from_now,
        (locked_reap-Reaped h r s.mem).next_seq,
        ord.counting,
        ord.writer i w q,
        ord.numbered w.slot (ord.writer i w q).0 (ground (arith, inv.writing i w q)),
        newer-low (s.mem.slots w.slot).sequence c.last_sequence,
      )

  -- The letters of the others, and whom they are for, after stores to the slot of writer `id`.
  module _ (id : ℕ) {w : SlotWriter} (m : Mem) (e : s.writers id ≡ some w)
      (others : (j : ℕ) → w.slot ≢ j → m.slots j ≡ s.mem.slots j) where
    pub other_letter : (j : ℕ) → id ≢ j → letter_of m (s.writers j) ≡ letter_of s.mem (s.writers j)
    other_letter j ne =
        kept_letter m (s.writers j) (λ v q. ground (arith, inv.alone id j w v e q, others v.slot))

    pub other_for :
        (j i : ℕ)
        → id ≢ j
        → is_for m (s.writers j) (s.consumers i) ≡ is_for s.mem (s.writers j) (s.consumers i)
    other_for j i ne =
        kept_for m (s.writers j) (s.consumers i)
          (λ v c q p. ground (arith, inv.alone id j w v e q, others v.slot))
