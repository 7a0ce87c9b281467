-- ===== src/Registry/Reap.antt =====
-- What `reap_dead` does to the registry, to the slots and to the rest of the memory.
use tenzor_bus.Common.{
  zero, map_below-suc, ◌∙◌, fun_ext, true, for_to_inv, ap, map_below, false, for_to, ℕ, suc, ◌+◌,
  ◌<◌, ◌≡◌, refl, Bool, not, ◌&&◌, ltb, if◌then◌else◌, arith, Bool-cases, inl, inr, u16, u32,
}
use tenzor_bus.Common.Bits.{count_ones-zero, test_bit, count_ones, clear_bit_unset}
use tenzor_bus.Proto.{state_free, max_consumers, registry_free}
use tenzor_bus.Host.{Host}
use tenzor_bus.Mem.{lock_registry, unlock_registry, signal_reclaim, at_slot, Slot, Entry, Mem, Ring}
use tenzor_bus.Registry.{
  free_slot, reap_slot, reap_dead, is_abandoned, clear_reader, is_dead, reap_entry,
}
use tenzor_bus.Registry.Drop.{drop_consumer_bit-eq, test_bit-clear_reader}

-- The state, the header and the payload of a slot are the same; the readers may differ.
pub record SameTensor (a b : Slot) : Type 0 where
  pub same_state : b.state ≡ a.state
  pub same_sequence : b.sequence ≡ a.sequence
  pub same_timestamp : b.timestamp_ns ≡ a.timestamp_ns
  pub same_nbytes : b.nbytes ≡ a.nbytes
  pub same_dtype : b.dtype ≡ a.dtype
  pub same_ndim : b.ndim ≡ a.ndim
  pub same_shape : b.shape ≡ a.shape
  pub same_strides : b.strides ≡ a.strides
  pub same_pid : b.producer_pid ≡ a.producer_pid
  pub same_token : b.start_token ≡ a.start_token
  pub same_payload : b.payload ≡ a.payload

-- The reader count of a slot is the number of its reader bits.
abbrev pub IsCounted : Slot → Type 0
IsCounted s = s.readers ≡ u16 (count_ones 64 s.mask)

clear_reader-SameTensor : (i : ℕ) (s : Slot) → SameTensor s (clear_reader i s)
clear_reader-SameTensor i s = ground arith

pub clear_reader-IsCounted : (i : ℕ) (s : Slot) → IsCounted s → IsCounted (clear_reader i s)
clear_reader-IsCounted i s h = ground (arith, clear_bit_unset s.mask i)

abbrev pub free_entry : Entry → Entry
free_entry e = record e { generation = u32 (e.generation + 1); state = registry_free }

module _ (h : Host) (r : Ring) where
  -- The memory after the first `k` registry entries have been looked at.
  pub record Reaping (m : Mem) (k : ℕ) (m' : Mem) : Type 0 where
    pub entries :
        (i : ℕ)
        → m'.entries i
          ≡ (if ltb i k && is_dead h (m.entries i) then free_entry (m.entries i) else m.entries i)
    pub tensors : (j : ℕ) → SameTensor (m.slots j) (m'.slots j)
    pub bits :
        (j b : ℕ)
        → j < r.slot_count
        → test_bit (m'.slots j).mask b
          ≡ (test_bit (m.slots j).mask b && not (ltb b k && is_dead h (m.entries b)))
    pub counted : (j : ℕ) → IsCounted (m.slots j) → IsCounted (m'.slots j)
    pub next_seq : m'.next_seq ≡ m.next_seq
    pub published : m'.publish_count ≡ m.publish_count
    pub dropped : m'.drop_count ≡ m.drop_count
    pub role : m'.producer_pid ≡ m.producer_pid

  Reaping-start : (m : Mem) → Reaping m 0 m
  Reaping-start m = record {
    entries = λ i. ground arith;
    tensors = λ j. ground arith;
    bits = λ j b lt. ground arith;
    counted = λ j c. c;
    next_seq = refl;
    published = refl;
    dropped = refl;
    role = refl;
  }

  Reaping-step :
      (m : Mem) (i : ℕ) (t : Mem) (freed : Bool)
      → Reaping m i t
      → Reaping m (suc i) (reap_entry h r i (t, freed)).0
  Reaping-step m i t freed p = elim (Bool-cases (is_dead h (t.entries i))) [
    | inl dead ↦
        rw (dead, drop_consumer_bit-eq r i t)
          (record {
            entries = λ j. ground (arith, p.entries i, p.entries j);
            tensors = λ j. ground (arith, p.tensors j);
            bits = λ j b lt.
                ground (arith, p.bits j b, p.entries i, test_bit-clear_reader i (t.slots j) b);
            counted = λ j c. ground (arith, p.counted j, clear_reader-IsCounted i (t.slots j));
            next_seq = p.next_seq;
            published = p.published;
            dropped = p.dropped;
            role = p.role;
          })
    | inr alive ↦ rw alive (record {
      entries = λ j. ground (arith, p.entries i, p.entries j);
      tensors = p.tensors;
      bits = λ j b lt. ground (arith, p.bits j b, p.entries i);
      counted = p.counted;
      next_seq = p.next_seq;
      published = p.published;
      dropped = p.dropped;
      role = p.role;
    })
  ]

  Reaping-loop :
      (m : Mem) → Reaping m max_consumers (for_to max_consumers (reap_entry h r) (m, false)).0
  Reaping-loop m =
      for_to_inv (λ k t. Reaping m k t.0) max_consumers (reap_entry h r) (m, false)
        (Reaping-start m) (λ i t lt p. Reaping-step m i t.0 t.1 p)

  abbrev sweep_slot : Slot → Slot
  sweep_slot s = if is_abandoned h s then free_slot s else s

  reap_slot-eq : (i : ℕ) (p : Mem × Bool) → (reap_slot h i p).0 ≡ at_slot i sweep_slot p.0
  reap_slot-eq i (m, freed) = elim (Bool-cases (is_abandoned h (m.slots i))) [
    | inl e ↦ rw e
    | inr e ↦ rw e (ap (λ f. record m { slots = f }) (fun_ext (λ j. ground arith)))
  ]

  reap_slot_loop :
      (n : ℕ) (p : Mem × Bool)
      → (for_to n (reap_slot h) p).0 ≡ record (p.0) { slots = map_below n sweep_slot p.0.slots }
  unfolding for_to
  reap_slot_loop zero p = ap (λ f. record (p.0) { slots = f }) (fun_ext (λ j. ground arith))
  reap_slot_loop (suc n) p =
      reap_slot-eq n (for_to n (reap_slot h) p)
      ∙ ap (at_slot n sweep_slot) (reap_slot_loop n p)
      ∙ ap (λ f. record (p.0) { slots = f }) (map_below-suc n sweep_slot p.0.slots)

  -- The memory after `reap_dead`. Entries of dead processes are free, with a new generation; all
  -- others are as before. A slot that a dead producer left half written is free and has no reader.
  -- Any other slot keeps its state, its header and its payload, and of its readers exactly those
  -- whose entry was not freed.
  pub record Reaped (m m' : Mem) : Type 0 where
    pub entries :
        (i : ℕ)
        → m'.entries i ≡ (
            if ltb i max_consumers && is_dead h (m.entries i)
            then free_entry (m.entries i)
            else m.entries i)
    pub tensors : (j : ℕ) → is_abandoned h (m.slots j) ≡ false → SameTensor (m.slots j) (m'.slots j)
    pub bits :
        (j b : ℕ)
        → j < r.slot_count
        → is_abandoned h (m.slots j) ≡ false
        → test_bit (m'.slots j).mask b
          ≡ (test_bit (m.slots j).mask b && not (ltb b max_consumers && is_dead h (m.entries b)))
    pub abandoned :
        (j : ℕ)
        → j < r.slot_count
        → is_abandoned h (m.slots j) ≡ true
        → ((m'.slots j).state ≡ state_free)
          × ((m'.slots j).mask ≡ 0)
          × ((m'.slots j).payload ≡ (m.slots j).payload)
    pub counted : (j : ℕ) → IsCounted (m.slots j) → IsCounted (m'.slots j)
    pub next_seq : m'.next_seq ≡ m.next_seq
    pub published : m'.publish_count ≡ m.publish_count
    pub dropped : m'.drop_count ≡ m.drop_count
    pub role : m'.producer_pid ≡ m.producer_pid

  Reaped-slots :
      (m t : Mem)
      → Reaping m max_consumers t
      → Reaped m (record t { slots = map_below r.slot_count sweep_slot t.slots })
  Reaped-slots m t p = record {
    entries = p.entries;
    tensors = λ j a. ground (arith, p.tensors j);
    bits = λ j b lt a. ground (arith, p.tensors j, p.bits j b);
    abandoned = λ j lt a. ground (arith, p.tensors j);
    counted = λ j c. ground (arith, p.counted j, count_ones-zero 64);
    next_seq = p.next_seq;
    published = p.published;
    dropped = p.dropped;
    role = p.role;
  }

  Reaped-signal : (m t : Mem) → Reaped m t → Reaped m (signal_reclaim t)
  Reaped-signal m t p = record {
    entries = p.entries;
    tensors = p.tensors;
    bits = p.bits;
    abandoned = p.abandoned;
    counted = p.counted;
    next_seq = p.next_seq;
    published = p.published;
    dropped = p.dropped;
    role = p.role;
  }

  -- `reap_dead` frees the registry entries of dead processes and takes their bits from every slot,
  -- and frees the slots that dead producers abandoned. It keeps every other entry, bit and tensor,
  -- and the counters of publications; where the reader counts were right, they stay right.
  pub reap_dead-Reaped : (m : Mem) → Reaped m (reap_dead h r m)
  unfolding reap_dead
  reap_dead-Reaped m =
      let p = for_to max_consumers (reap_entry h r) (m, false) in
      let q = for_to r.slot_count (reap_slot h) p in
      let swept : Reaped m q.0 =
        rw (reap_slot_loop r.slot_count p) (Reaped-slots m p.0 (Reaping-loop m)) in
      elim (Bool-cases q.1) [ inl e ↦ rw e (Reaped-signal m q.0 swept) | inr e ↦ rw e swept ]

  -- The locked reaping of `sweep`, `consumer` and `reserve_header`, seen from outside the lock.
  pub locked_reap-Reaped :
      (m : Mem) → Reaped m (unlock_registry (reap_dead h r (lock_registry h m)))
  locked_reap-Reaped m =
      let p = reap_dead-Reaped (lock_registry h m) in
      record {
        entries = p.entries;
        tensors = p.tensors;
        bits = p.bits;
        abandoned = p.abandoned;
        counted = p.counted;
        next_seq = p.next_seq;
        published = p.published;
        dropped = p.dropped;
        role = p.role;
      }
