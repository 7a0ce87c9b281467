-- ===== src/System/Keep.antt =====
-- Each operation on the memory keeps the open consumers registered, the reserved slots reserved
-- and the leased slots leased.
use tenzor_bus.Common.{ℕ, ◌≡◌, ◌≢◌, refl, none, some, List, arith}
use tenzor_bus.Proto.{state_writing}
use tenzor_bus.Host.{Host}
use tenzor_bus.Mem.{Mem, Ring}
use tenzor_bus.Registry.{consumer, sweep, producer, drop_producer}
use tenzor_bus.Registry.Register.{consumer-full}
use tenzor_bus.Producer.Reserve.{attempt-none-Reaped}
use tenzor_bus.Registry.Reap.{locked_reap-Reaped, Reaped}
use tenzor_bus.Producer.{SlotWriter, Header, attempt, write_payload, set_timestamp_ns}
use tenzor_bus.System.{err, Error, System, Sees}
use tenzor_bus.System.Invariant.{Inv, SlotHolds-same, Keeps}

module _ (r : Ring) (s : System) (inv : Inv r s) where
  -- A memory with the same slots and the same registry, whatever its counters are.
  pub Keeps-same :
      (m : Mem)
      → ((j : ℕ) → m.slots j ≡ s.mem.slots j)
      → ((i : ℕ) → (m.entries i).state ≡ (s.mem.entries i).state)
      → Keeps r s m
  Keeps-same m slots states = record {
    active = λ id c e. ground (arith, inv.registered id c e, states c.index);
    reserved = λ id w e. ground (arith, inv.writing id w e, slots w.slot);
    holds = λ l x c e known hold. ground (arith, hold, slots x.meta.slot_index);
  }

  pub Keeps-Reaped : (h : Host) (m : Mem) → Sees h r s → Reaped h r s.mem m → Keeps r s m
  Keeps-Reaped h m sees p = record {
    active =
        λ id c e. ground (arith, inv.registered id c e, sees.readers id c e, p.entries c.index);
    reserved =
        λ id w e. ground (arith, inv.writing id w e, sees.reserving id w e, p.tensors w.slot);
    holds = λ l x c e known hold.
        SlotHolds-same r s.mem m c x (p.tensors x.meta.slot_index (ground (arith, hold)))
          (ground (arith, hold, p.bits x.meta.slot_index c.index, sees.readers x.owner c known))
          hold;
  }

  -- A store to a slot that is being written touches no lease.
  pub Keeps-written :
      (m : Mem) (id : ℕ) (w : SlotWriter)
      → s.writers id ≡ some w
      → ((j : ℕ) → w.slot ≢ j → m.slots j ≡ s.mem.slots j)
      → (m.slots w.slot).state ≡ state_writing
      → ((i : ℕ) → (m.entries i).state ≡ (s.mem.entries i).state)
      → Keeps r s m
  Keeps-written m id w e others same states = record {
    active = λ id' c e'. ground (arith, inv.registered id' c e', states c.index);
    reserved = λ id' v e'. ground (arith, inv.writing id' v e', others v.slot);
    holds =
        λ l x c e' known hold. ground (arith, hold, inv.writing id w e, others x.meta.slot_index);
  }

  pub Keeps-sweep : (h : Host) → Sees h r s → Keeps r s (sweep h r s.mem)
  unfolding sweep
  Keeps-sweep h sees = Keeps-Reaped h _ sees (locked_reap-Reaped h r s.mem)

  pub Keeps-finds_full :
      (h : Host) {e : Error} {m : Mem} → Sees h r s → consumer h r s.mem ≡ (err e, m) → Keeps r s m
  Keeps-finds_full h {m} sees eq =
      rw (consumer-full h r s.mem 0 eq (omega arith)).0
        (Keeps-Reaped h _ sees (locked_reap-Reaped h r s.mem))

  pub Keeps-finds_none :
      (h : Host) (hd : Header) {m : Mem}
      → Sees h r s
      → attempt h r hd s.mem ≡ (none, m)
      → Keeps r s m
  Keeps-finds_none h hd {m} sees eq = Keeps-Reaped h m sees (attempt-none-Reaped h r hd s.mem eq)

  pub Keeps-claims : (h : Host) (n : ℕ) → Keeps r s (producer h n s.mem).1
  unfolding producer
  Keeps-claims h n = Keeps-same _ (λ j. ground arith) (λ i. ground arith)

  pub Keeps-resigns : (h : Host) (n : ℕ) → Keeps r s (drop_producer h n s.mem).1
  unfolding drop_producer
  Keeps-resigns h n = Keeps-same _ (λ j. ground arith) (λ i. ground arith)

  pub Keeps-fills :
      (id : ℕ) {w : SlotWriter} (bytes : List ℕ)
      → s.writers id ≡ some w
      → Keeps r s (write_payload w.slot bytes s.mem)
  Keeps-fills id {w} bytes e =
      Keeps-written _ id w e (λ j ne. ground arith) (ground (arith, inv.writing id w e)) (λ i. refl)

  pub Keeps-stamps :
      (id : ℕ) {w : SlotWriter} (ns : ℕ)
      → s.writers id ≡ some w
      → Keeps r s (set_timestamp_ns w ns s.mem)
  unfolding set_timestamp_ns
  Keeps-stamps id {w} ns e =
      Keeps-written _ id w e (λ j ne. ground arith) (ground (arith, inv.writing id w e)) (λ i. refl)
