-- ===== src/Producer/Reserve.antt =====
-- What a reservation does to the memory.
use tenzor_bus.Common.{
  u16, unwrap_or, ◌∙◌, subst, ℕ, ◌%◌, ◌^◌, ◌+◌, ◌<◌, ◌≡◌, ◌≢◌, ◌⊎◌, true, false, not, ◌&&◌,
  if◌then◌else◌, ◌==◌, ltb, arith, u64, none, some,
}
use tenzor_bus.Common.Bits.{count_ones, test_bit, test_bit-zero}
use tenzor_bus.Proto.{state_free, state_committed, max_consumers}
use tenzor_bus.Host.{Host, pid_start_token}
use tenzor_bus.Mem.{Slot, Mem, Ring, lock_registry, unlock_registry}
use tenzor_bus.Registry.{active_mask, reap_dead, is_active, is_dead, is_abandoned}
use tenzor_bus.Registry.Reap.{locked_reap-Reaped, free_entry, SameTensor, Reaped, reap_dead-Reaped}
use tenzor_bus.Registry.Drop.{test_bit-active_mask}
use tenzor_bus.Producer.{
  code, state_writing, Header, Reserved, select, write_header, reserve_header, attempt,
}
use tenzor_bus.Producer.Select.{select-IsReclaimable, IsReclaimable, is_free, is_released}

-- The slot is not being reclaimed from a dead producer.
module _ (h : Host) (r : Ring) (hd : Header) (m : Mem) where
  abbrev reaped : Mem
  reaped = reap_dead h r (lock_registry h m)

  -- The reaping that comes first, seen from the memory before the lock.
  Reaped-reaped : Reaped h r m reaped
  Reaped-reaped =
      let p = reap_dead-Reaped h r (lock_registry h m) in
      record {
        entries = p.entries;
        tensors = p.tensors;
        bits = p.bits;
        abandoned = p.abandoned;
        counted = p.counted;
        next_seq = p.next_seq;
        published = p.published;
        dropped = p.dropped;
        role = p.role;
      }

  -- A successful attempt, by the memory that the reaping leaves.
  record Taken (a : Reserved) (m' : Mem) : Type 0 where
    pub chosen : select r.slot_count reaped.slots ≡ some a.slot
    pub sequence : a.sequence ≡ m.next_seq
    pub mask : a.mask ≡ active_mask reaped
    pub slots :
        (j : ℕ)
        → m'.slots j ≡ (
            if a.slot == j
            then write_header h hd m.next_seq a.mask (reaped.slots j)
            else reaped.slots j)
    pub entries : (i : ℕ) → m'.entries i ≡ reaped.entries i
    pub next_seq : m'.next_seq ≡ u64 (m.next_seq + 1)

  attempt-Taken : {a : Reserved} {m' : Mem} → attempt h r hd m ≡ (some a, m') → Taken a m'
  unfolding attempt reserve_header
  attempt-Taken {a} {m'} e =
      let same = Reaped-reaped.next_seq in
      record {
        chosen = ground arith;
        sequence = ground arith;
        mask = ground arith;
        slots = λ j. ground arith;
        entries = λ i. ground arith;
        next_seq = ground arith;
      }

  -- The header of the reserved slot.
  pub record Drafted (sequence : ℕ) (s : Slot) : Type 0 where
    pub state : s.state ≡ state_writing
    pub producer : s.producer_pid ≡ h.pid
    pub token : s.start_token ≡ pid_start_token h h.pid
    pub number : s.sequence ≡ sequence
    pub time : s.timestamp_ns ≡ unwrap_or hd.timestamp_ns h.clock_ns
    pub nbytes : s.nbytes ≡ u64 hd.nbytes
    pub dtype : s.dtype ≡ code hd.dtype
    pub ndim : s.ndim ≡ hd.ndim % 2 ^ 8
    pub shape : s.shape ≡ hd.shape
    pub strides : s.strides ≡ hd.strides
    -- its readers are the consumers that are registered and not dead
    pub readers :
        (b : ℕ)
        → test_bit s.mask b
          ≡ (ltb b max_consumers && is_active (m.entries b) && not (is_dead h (m.entries b)))
    pub counted : s.readers ≡ u16 (count_ones 64 s.mask)

  -- What a reservation promises, seen from the memory before it.
  pub record Reservation (a : Reserved) (m' : Mem) : Type 0 where
    pub in_range : a.slot < r.slot_count
    -- the slot was free, or abandoned by a dead producer, or committed
    pub origin :
        ((m.slots a.slot).state ≡ state_free)
        ⊎ (is_abandoned h (m.slots a.slot) ≡ true)
        ⊎ ((m.slots a.slot).state ≡ state_committed)
    -- every reader that was left on a committed slot is dead
    pub unread :
        (m.slots a.slot).state ≡ state_committed
        → (b : ℕ) → test_bit (m.slots a.slot).mask b ≡ true
        → (b < max_consumers) × (is_dead h (m.entries b) ≡ true)
    pub sequence : a.sequence ≡ m.next_seq
    pub next_seq : m'.next_seq ≡ u64 (m.next_seq + 1)
    pub written :
        m'.slots a.slot
        ≡ write_header h hd m.next_seq a.mask ((reap_dead h r (lock_registry h m)).slots a.slot)
    pub drafted : Drafted m.next_seq (m'.slots a.slot)
    pub readers :
        (b : ℕ)
        → test_bit a.mask b
          ≡ (ltb b max_consumers && is_active (m.entries b) && not (is_dead h (m.entries b)))
    -- the other slots keep their tensors and all readers that are not dead
    pub others :
        (j : ℕ)
        → a.slot ≢ j
        → is_abandoned h (m.slots j) ≡ false
        → SameTensor (m.slots j) (m'.slots j)
    pub bits :
        (j b : ℕ)
        → j < r.slot_count
        → a.slot ≢ j
        → is_abandoned h (m.slots j) ≡ false
        → test_bit (m'.slots j).mask b
          ≡ (test_bit (m.slots j).mask b && not (ltb b max_consumers && is_dead h (m.entries b)))
    -- what dead producers left half written elsewhere is free
    pub abandoned :
        (j : ℕ)
        → j < r.slot_count
        → a.slot ≢ j
        → is_abandoned h (m.slots j) ≡ true
        → (m'.slots j).state ≡ state_free
    pub entries :
        (i : ℕ)
        → m'.entries i ≡ (
            if ltb i max_consumers && is_dead h (m.entries i)
            then free_entry (m.entries i)
            else m.entries i)

  -- A reservation takes a slot that no living process holds: one that was free, abandoned by a dead
  -- producer, or committed with dead readers at most. The slot's header then says that it is being
  -- written by this process, under the number of the counter, with the tensor's type, dimensions,
  -- size and time, and its reader mask has the bits of exactly the consumers that are registered
  -- and alive. All other slots are left to their readers.
  pub attempt-Reservation :
      {a : Reserved} {m' : Mem} → attempt h r hd m ≡ (some a, m') → Reservation a m'
  attempt-Reservation {a} {m'} e =
      let k = attempt-Taken e in
      let p = Reaped-reaped in
      let found : IsReclaimable reaped.slots r.slot_count (some a.slot) =
        subst (λ o. IsReclaimable reaped.slots r.slot_count o) k.chosen
          (select-IsReclaimable reaped.slots r.slot_count) in
      record {
        in_range = found.0;
        origin = ground (arith, p.tensors a.slot);
        unread =
            λ committed b set. ground (arith, p.tensors a.slot, p.bits a.slot b, test_bit-zero b);
        sequence = k.sequence;
        next_seq = k.next_seq;
        written = ground (arith, k.slots a.slot);
        drafted = record {
          state = ground (arith, k.slots a.slot);
          producer = ground (arith, k.slots a.slot);
          token = ground (arith, k.slots a.slot);
          number = ground (arith, k.slots a.slot);
          time = ground (arith, k.slots a.slot);
          nbytes = ground (arith, k.slots a.slot);
          dtype = ground (arith, k.slots a.slot);
          ndim = ground (arith, k.slots a.slot);
          shape = ground (arith, k.slots a.slot);
          strides = ground (arith, k.slots a.slot);
          readers = λ b.
              ground (arith, k.slots a.slot, k.mask, test_bit-active_mask reaped b, p.entries b);
          counted = ground (arith, k.slots a.slot);
        };
        readers = λ b. ground (arith, k.mask, test_bit-active_mask reaped b, p.entries b);
        others = λ j ne alive. ground (arith, k.slots j, p.tensors j);
        bits = λ j b lt ne alive. ground (arith, k.slots j, p.bits j b);
        abandoned = λ j lt ne dead. ground (arith, k.slots j, p.abandoned j lt);
        entries = λ i. k.entries i ∙ p.entries i;
      }

  none-parts :
      {m' : Mem}
      → attempt h r hd m ≡ (none, m')
      → (select r.slot_count reaped.slots ≡ none) × (m' ≡ unlock_registry reaped)
  unfolding attempt reserve_header
  none-parts e = ground arith

  -- A reservation that fails has only reaped the dead.
  pub attempt-none-Reaped : {m' : Mem} → attempt h r hd m ≡ (none, m') → Reaped h r m m'
  attempt-none-Reaped {m'} e =
      let (unchosen, final) = none-parts e in rw final (locked_reap-Reaped h r m)

  -- A reservation fails only if no slot is free and none belongs to a dead producer, and every
  -- committed slot has a reader left once the dead are reaped.
  pub attempt-none :
      {m' : Mem} (j : ℕ)
      → attempt h r hd m ≡ (none, m')
      → j < r.slot_count
      → (is_free (m.slots j) ≡ false)
        × (is_abandoned h (m.slots j) ≡ false)
        × (is_released (m'.slots j) ≡ false)
  attempt-none {m'} j e lt =
      let (unchosen, final) = none-parts e in
      let p = locked_reap-Reaped h r m in
      let full : IsReclaimable reaped.slots r.slot_count none =
        subst (λ o. IsReclaimable reaped.slots r.slot_count o) unchosen
          (select-IsReclaimable reaped.slots r.slot_count) in
      rw final (
        ground (arith, full j lt, p.tensors j, p.abandoned j lt),
        ground (arith, full j lt, p.abandoned j lt),
        ground (arith, full j lt),
      )
