-- ===== src/Proto/Places.antt =====
-- rust/tenzor-core/src/lib.rs: the fields of the mapping with their offsets, and the addresses that
-- the accessors of rust/tenzorbus/src/ring.rs compute. A field is as long as the atomic type that
-- it is read with, `magic` as its bytes, `shape` and `strides` as eight words.
pub mod Fields
pub mod Apart
use tenzor_bus.Common.{ℕ, ◌+◌, ◌<◌, ◌≤◌, u64}
use tenzor_bus.Proto.{max_consumers, slot_base, payload_base, registry_entry_offset}

-- The fields of the global header.
pub data GlobalField : Type 0 where
  g_magic g_version g_slot_count g_slot_capacity g_next_seq g_consumers g_max_consumers
        g_publish_count g_drop_count g_publish_futex g_reclaim_futex g_registry_lock g_producer_pid
        g_registry_epoch g_registry_lock_owner g_reaped_count g_producer_start_token
        g_registry_lock_owner_token :
      GlobalField

unfoldable pub g_offset : GlobalField → ℕ
g_offset g_magic = 0
g_offset g_version = 8
g_offset g_slot_count = 12
g_offset g_slot_capacity = 16
g_offset g_next_seq = 24
g_offset g_consumers = 32
g_offset g_max_consumers = 36
g_offset g_publish_count = 40
g_offset g_drop_count = 48
g_offset g_publish_futex = 56
g_offset g_reclaim_futex = 60
g_offset g_registry_lock = 64
g_offset g_producer_pid = 68
g_offset g_registry_epoch = 72
g_offset g_registry_lock_owner = 76
g_offset g_reaped_count = 80
g_offset g_producer_start_token = 88
g_offset g_registry_lock_owner_token = 92

unfoldable pub g_size : GlobalField → ℕ
g_size g_magic = 8
g_size g_version = 4
g_size g_slot_count = 4
g_size g_slot_capacity = 8
g_size g_next_seq = 8
g_size g_consumers = 4
g_size g_max_consumers = 4
g_size g_publish_count = 8
g_size g_drop_count = 8
g_size g_publish_futex = 4
g_size g_reclaim_futex = 4
g_size g_registry_lock = 4
g_size g_producer_pid = 4
g_size g_registry_epoch = 4
g_size g_registry_lock_owner = 4
g_size g_reaped_count = 8
g_size g_producer_start_token = 4
g_size g_registry_lock_owner_token = 4

-- The fields of a registry entry.
pub data EntryField : Type 0 where
  r_state r_pid r_generation r_flags r_heartbeat_ns r_last_sequence : EntryField

unfoldable pub r_offset : EntryField → ℕ
r_offset r_state = 0
r_offset r_pid = 4
r_offset r_generation = 8
r_offset r_flags = 12
r_offset r_heartbeat_ns = 16
r_offset r_last_sequence = 24

unfoldable pub r_size : EntryField → ℕ
r_size r_state = 4
r_size r_pid = 4
r_size r_generation = 4
r_size r_flags = 4
r_size r_heartbeat_ns = 8
r_size r_last_sequence = 8

-- The fields of a slot header.
pub data SlotField : Type 0 where
  s_magic s_state s_sequence s_timestamp_ns s_nbytes s_dtype s_ndim s_readers s_flags s_shape
        s_strides s_producer_pid s_readers_mask s_producer_start_token :
      SlotField

unfoldable pub s_offset : SlotField → ℕ
s_offset s_magic = 0
s_offset s_state = 4
s_offset s_sequence = 8
s_offset s_timestamp_ns = 16
s_offset s_nbytes = 24
s_offset s_dtype = 32
s_offset s_ndim = 33
s_offset s_readers = 34
s_offset s_flags = 36
s_offset s_shape = 40
s_offset s_strides = 72
s_offset s_producer_pid = 104
s_offset s_readers_mask = 112
s_offset s_producer_start_token = 120

unfoldable pub s_size : SlotField → ℕ
s_size s_magic = 4
s_size s_state = 4
s_size s_sequence = 8
s_size s_timestamp_ns = 8
s_size s_nbytes = 8
s_size s_dtype = 1
s_size s_ndim = 1
s_size s_readers = 2
s_size s_flags = 4
s_size s_shape = 32
s_size s_strides = 32
s_size s_producer_pid = 4
s_size s_readers_mask = 8
s_size s_producer_start_token = 4

-- What the code accesses: a field of the header, of a registry entry, of a slot, or a payload.
pub data Place : Type 0 where
  global : GlobalField → Place
  entry : ℕ → EntryField → Place
  slot : ℕ → SlotField → Place
  payload : ℕ → Place

-- The offset in the mapping, as `Ring::entry`, `slot_off` and `payload_off` compute it.
unfoldable pub address : ℕ → Place → ℕ
address cap (global f) = g_offset f
address cap (entry i f) = u64 (registry_entry_offset i + r_offset f)
address cap (slot i f) = u64 (slot_base i cap + s_offset f)
address cap (payload i) = payload_base i cap

unfoldable pub extent : ℕ → Place → ℕ
extent cap (global f) = g_size f
extent cap (entry i f) = r_size f
extent cap (slot i f) = s_size f
extent cap (payload i) = cap

-- The indices that the loops of the code run through.
abbrev pub IsPlace : ℕ → Place → Type 0
IsPlace count (global f) = Unit {0}
IsPlace count (entry i f) = i < max_consumers
IsPlace count (slot i f) = i < count
IsPlace count (payload i) = i < count

-- Byte `b` belongs to the place.
pub record Covers (cap : ℕ) (p : Place) (b : ℕ) : Type 0 where
  pub from : address cap p ≤ b
  pub until : b < address cap p + extent cap p
