-- ===== src/Create.antt =====
-- rust/tenzorbus/src/ring.rs: `RingLayout`, `Ring::format`, the checks of `Ring::attach`, and
-- `Ring::stats`. The mapping itself, its length and its name in the system's directory of shared
-- objects come from the kernel.
pub mod Geometry
pub mod Counts
use tenzor_bus.Common.{
  ℕ, ◌+◌, ◌-◌, ◌%◌, ◌^◌, Bool, not, ◌||◌, ltb, ◌==◌, if◌then◌else◌, for_to, replicate, u32, u64,
  List, [], ◌∷◌,
}
use tenzor_bus.Proto.{
  protocol_magic, slot_magic, protocol_version, max_ndim, max_consumers, state_free,
  state_committed, total_bytes,
}
use tenzor_bus.Errors.{
  Result, ok, err, invalid, slot_count_small, slot_capacity_small, bad_header, invalid_magic,
  unsupported_version, degenerate_geometry, exceeds_mapping,
}
use tenzor_bus.Mem.{Slot, Entry, Mem, Ring, at_slot}

-- `RingOptions`
pub record RingOptions : Type 0 where
  pub slot_count : ℕ
  pub slot_capacity : ℕ
  pub force : Bool

-- `RingLayout::new`, with the error that `Ring::create` makes of its message.
unfoldable pub layout_new : ℕ → ℕ → Result Ring
layout_new slot_count slot_capacity =
    if ltb slot_count 2
    then err (invalid slot_count_small)
    else if ltb slot_capacity 64
    then err (invalid slot_capacity_small)
    else ok (record { slot_count = slot_count; slot_capacity = slot_capacity })

-- Memory of zeros.
abbrev pub zero_slot : ℕ → Slot
zero_slot slot_capacity = record {
  magic = replicate 4 0;
  state = 0;
  sequence = 0;
  timestamp_ns = 0;
  nbytes = 0;
  dtype = 0;
  ndim = 0;
  readers = 0;
  flags = 0;
  shape = replicate max_ndim 0;
  strides = replicate max_ndim 0;
  producer_pid = 0;
  mask = 0;
  start_token = 0;
  payload = replicate slot_capacity 0;
}

abbrev pub zero_entry : Entry
zero_entry = record {
  state = 0;
  pid = 0;
  generation = 0;
  flags = 0;
  heartbeat_ns = 0;
  last_sequence = 0;
}

abbrev pub zeroed : ℕ → Mem
zeroed slot_capacity = record {
  magic = replicate 8 0;
  version = 0;
  slot_count = 0;
  slot_capacity = 0;
  next_seq = 0;
  consumers = 0;
  max_consumers = 0;
  publish_count = 0;
  drop_count = 0;
  publish_futex = 0;
  reclaim_futex = 0;
  registry_lock = 0;
  producer_pid = 0;
  registry_epoch = 0;
  lock_owner = 0;
  reaped_count = 0;
  producer_start_token = 0;
  lock_owner_token = 0;
  entries = λ _. zero_entry;
  slots = λ _. zero_slot slot_capacity;
}

abbrev pub format_slot : ℕ → Mem → Mem
format_slot i = at_slot i (λ s. record s { magic = slot_magic; state = state_free })

-- `Ring::format`
unfoldable pub format : Ring → Mem
format r = for_to r.slot_count format_slot (record (zeroed r.slot_capacity) {
  magic = protocol_magic;
  version = protocol_version;
  slot_count = u32 r.slot_count;
  slot_capacity = u64 r.slot_capacity;
  next_seq = 1;
  consumers = 0;
  max_consumers = max_consumers;
})

abbrev pub same_bytes : List ℕ → List ℕ → Bool
same_bytes [] [] = Bool.true
same_bytes [] (y ∷ ys) = Bool.false
same_bytes (x ∷ xs) [] = Bool.false
same_bytes (x ∷ xs) (y ∷ ys) = if x == y then same_bytes xs ys else Bool.false

-- The checks of `Ring::attach` on a mapping of `len` bytes.
unfoldable pub attach : ℕ → Mem → Result Ring
attach len m =
    if not (same_bytes m.magic protocol_magic)
    then err (bad_header invalid_magic)
    else if not (m.version == protocol_version)
    then err (bad_header unsupported_version)
    else if ltb m.slot_count 2 || ltb m.slot_capacity 64
    then err (bad_header degenerate_geometry)
    else if ltb len (total_bytes m.slot_count m.slot_capacity)
    then err (bad_header exceeds_mapping)
    else ok (record { slot_count = m.slot_count; slot_capacity = m.slot_capacity })

pub record RingStats : Type 0 where
  pub slot_count : ℕ
  pub slot_capacity : ℕ
  pub next_sequence : ℕ
  pub consumers : ℕ
  pub published : ℕ
  pub dropped : ℕ
  pub reaped : ℕ
  pub free_slots : ℕ
  pub committed_slots : ℕ

-- The loop of `stats`: the free and the committed slots.
abbrev pub count_body : (ℕ → Slot) → ℕ → ℕ × ℕ → ℕ × ℕ
count_body slots i (free, committed) =
    if (slots i).state == state_free
    then (free + 1, committed)
    else if (slots i).state == state_committed
    then (free, committed + 1)
    else (free, committed)

-- `Ring::stats`
unfoldable pub stats : Ring → Mem → RingStats
stats r m =
    let (free, committed) = for_to r.slot_count (count_body m.slots) (0, 0) in
    record {
      slot_count = r.slot_count;
      slot_capacity = r.slot_capacity;
      next_sequence = m.next_seq;
      consumers = m.consumers;
      published = m.publish_count;
      dropped = m.drop_count;
      reaped = m.reaped_count;
      free_slots = free;
      committed_slots = committed;
    }
