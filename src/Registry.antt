-- ===== src/Registry.antt =====
-- rust/tenzorbus/src/ring.rs, the registry of consumers: `active_mask`, `drop_consumer_bit`,
-- `reap_dead`, `Ring::consumer`, `Ring::producer`, `Ring::sweep` and `Consumer::close`.
pub mod Drop
pub mod Reap
pub mod Register
pub mod Close
use tenzor_bus.Common.{
  ℕ, ◌+◌, ◌-◌, Bool, true, false, not, ◌&&◌, ◌||◌, ◌==◌, if◌then◌else◌, for_to, u16, u32, u64,
  sub_u64, Option, none, some,
}
use tenzor_bus.Common.Bits.{test_bit, set_bit, clear_bit, count_ones}
use tenzor_bus.Proto.{max_consumers, registry_active, registry_free, state_writing, state_free}
use tenzor_bus.Errors.{Result, ok, err, capacity, live_producer, maximum_consumers}
use tenzor_bus.Host.{Host, pid_start_token, pid_alive, pid_alive_with_token}
use tenzor_bus.Mem.{
  Slot, Entry, Mem, Ring, Consumer, at_slot, at_entry, signal_reclaim, lock_registry,
  unlock_registry,
}

abbrev pub is_active : Entry → Bool
is_active e = e.state == registry_active

-- `active_mask`
abbrev pub active_mask_body : (ℕ → Entry) → ℕ → ℕ → ℕ
active_mask_body entries i mask = if is_active (entries i) then set_bit mask i else mask

unfoldable pub active_mask : Mem → ℕ
active_mask m = for_to max_consumers (active_mask_body m.entries) 0

-- One round of `drop_consumer_bit`: `fetch_and(!bit)`, then the reader count if the bit was set.
abbrev pub clear_reader : ℕ → Slot → Slot
clear_reader index s =
    let now = clear_bit s.mask index in
    if test_bit s.mask index
    then record s { mask = now; readers = u16 (count_ones 64 now) }
    else record s { mask = now }

abbrev pub drop_bit_body : ℕ → ℕ → Mem × Bool → Mem × Bool
drop_bit_body index s (m, freed) =
    let previous = (m.slots s).mask in
    let now = clear_bit previous index in
    (at_slot s (clear_reader index) m, freed || (test_bit previous index && now == 0))

unfoldable pub drop_consumer_bit : Ring → ℕ → Mem → Mem × Bool
drop_consumer_bit r index m = for_to r.slot_count (drop_bit_body index) (m, false)

abbrev pub free_slot : Slot → Slot
free_slot s = record s { mask = 0; readers = 0; state = state_free }

-- `for i in 0..MAX_CONSUMERS { if entry i is free { chosen = Some(i); break; } }`
abbrev pub choose_body : (ℕ → Entry) → ℕ → Option ℕ → Option ℕ
choose_body entries i (some j) = some j
choose_body entries i none = if (entries i).state == registry_free then some i else none

abbrev pub handle_at : ℕ → Mem → Consumer
handle_at index m = record {
  index = index;
  generation = u32 ((m.entries index).generation + 1);
  last_sequence = sub_u64 m.next_seq 1;
  closed = false;
}

module _ (h : Host) where
  -- The entry names a process that is gone.
  abbrev pub is_dead : Entry → Bool
  is_dead e = is_active e && not (e.pid == h.pid || pid_alive h e.pid)

  -- A producer killed between WRITING and COMMITTED has left the slot.
  abbrev pub is_abandoned : Slot → Bool
  is_abandoned s =
      s.state == state_writing
      && not (s.producer_pid == h.pid)
      && not (pid_alive_with_token h s.producer_pid s.start_token)

  -- The second loop of `reap_dead`.
  abbrev pub reap_slot : ℕ → Mem × Bool → Mem × Bool
  reap_slot i (m, freed) =
      if is_abandoned (m.slots i) then (at_slot i free_slot m, true) else (m, freed)

  -- The stores of `Ring::consumer` once an entry is chosen.
  abbrev pub register_at : ℕ → Mem → Mem
  register_at index m =
      let m1 =
        at_entry index
          (λ e. record e {
            generation = u32 (e.generation + 1);
            pid = h.pid;
            flags = pid_start_token h h.pid;
            heartbeat_ns = h.clock_ns;
            last_sequence = sub_u64 m.next_seq 1;
            state = registry_active;
          })
          m in
      record m1 { consumers = u32 (m1.consumers + 1); registry_epoch = u32 (m1.registry_epoch + 1) }

  -- `Ring::producer`; `producers` counts the live handles of this process.
  unfoldable pub producer : ℕ → Mem → Result ℕ × Mem
  producer producers m =
      let m1 = lock_registry h m in
      let held = m1.producer_pid in
      if not (held == 0) && not (held == h.pid) && pid_alive h held
      then (err (capacity live_producer), unlock_registry m1)
      else (ok (producers + 1), unlock_registry (record m1 { producer_pid = h.pid }))

  -- `Drop for Producer`: the last handle of the process gives the role back.
  unfoldable pub drop_producer : ℕ → Mem → ℕ × Mem
  drop_producer producers m =
      if producers == 1
      then (0, if m.producer_pid == h.pid then record m { producer_pid = 0 } else m)
      else (producers - 1, m)

module _ (h : Host) (r : Ring) where
  -- The first loop of `reap_dead`: registry entries whose process is gone.
  abbrev pub reap_entry : ℕ → Mem × Bool → Mem × Bool
  reap_entry i (m, freed) =
      let (m', any) = drop_consumer_bit r i m in
      if is_dead h (m.entries i)
      then (
        record (at_entry i
            (λ e. record e { generation = u32 (e.generation + 1); state = registry_free }) m') {
              consumers = m'.consumers - 1;
              reaped_count = u64 (m'.reaped_count + 1);
              registry_epoch = u32 (m'.registry_epoch + 1);
            },
        freed || any,
      )
      else (m, freed)

  unfoldable pub reap_dead : Mem → Mem
  reap_dead m =
      let entries_done = for_to max_consumers reap_entry (m, false) in
      let (m', freed) = for_to r.slot_count (reap_slot h) entries_done in
      if freed then signal_reclaim m' else m'

  unfoldable pub sweep : Mem → Mem
  sweep m = unlock_registry (reap_dead (lock_registry h m))

  -- `Ring::consumer`
  unfoldable pub consumer : Mem → Result Consumer × Mem
  consumer m =
      let m1 = reap_dead (lock_registry h m) in
      elim (for_to max_consumers (choose_body m1.entries) none) [
        | none ↦ (err (capacity maximum_consumers), unlock_registry m1)
        | some index ↦ (ok (handle_at index m1), unlock_registry (register_at h index m1))
      ]

  -- `Consumer::close`
  unfoldable pub close : Consumer → Mem → Consumer × Mem
  close c m =
      if c.closed
      then (c, m)
      else let (m1, freed) = drop_consumer_bit r c.index (lock_registry h m) in
        let m2 = if freed then signal_reclaim m1 else m1 in
        let m3 = at_entry c.index (λ e. record e { state = registry_free }) m2 in
        (
          record c { closed = true },
          unlock_registry (record m3 {
            consumers = m3.consumers - 1;
            registry_epoch = u32 (m3.registry_epoch + 1);
          }),
        )
