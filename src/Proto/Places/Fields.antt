-- ===== src/Proto/Places/Fields.antt =====
-- Which field of a header a byte belongs to.
use tenzor_bus.Common.{ℕ, ◌+◌, ◌%◌, ◌<◌, ◌≤◌, ◌≡◌, refl, ltb, if◌then◌else◌, min, arith}
use tenzor_bus.Proto.Places.{
  GlobalField, EntryField, SlotField, g_offset, g_size, r_offset, r_size, s_offset, s_size, g_magic,
  g_version, g_slot_count, g_slot_capacity, g_next_seq, g_consumers, g_max_consumers,
  g_publish_count, g_drop_count, g_publish_futex, g_reclaim_futex, g_registry_lock, g_producer_pid,
  g_registry_epoch, g_registry_lock_owner, g_reaped_count, g_producer_start_token,
  g_registry_lock_owner_token, r_state, r_pid, r_generation, r_flags, r_heartbeat_ns,
  r_last_sequence, s_magic, s_state, s_sequence, s_timestamp_ns, s_nbytes, s_dtype, s_ndim,
  s_readers, s_flags, s_shape, s_strides, s_producer_pid, s_readers_mask, s_producer_start_token,
}

-- The field of the global header at a byte of it.
abbrev pub g_field_at : ℕ → GlobalField
g_field_at o =
    if ltb o 8
    then g_magic
    else if ltb o 12
    then g_version
    else if ltb o 16
    then g_slot_count
    else if ltb o 24
    then g_slot_capacity
    else if ltb o 32
    then g_next_seq
    else if ltb o 36
    then g_consumers
    else if ltb o 40
    then g_max_consumers
    else if ltb o 48
    then g_publish_count
    else if ltb o 56
    then g_drop_count
    else if ltb o 60
    then g_publish_futex
    else if ltb o 64
    then g_reclaim_futex
    else if ltb o 68
    then g_registry_lock
    else if ltb o 72
    then g_producer_pid
    else if ltb o 76
    then g_registry_epoch
    else if ltb o 80
    then g_registry_lock_owner
    else if ltb o 88
    then g_reaped_count
    else if ltb o 92
    then g_producer_start_token
    else g_registry_lock_owner_token

pub g_field_at-eq :
    (f : GlobalField) (o : ℕ)
    → g_offset f ≤ o
    → o < g_offset f + g_size f
    → (f ≡ g_field_at o) × (o < 96)
unfolding g_offset g_size
g_field_at-eq g_magic o from until = (ground arith, omega arith)
g_field_at-eq g_version o from until = (ground arith, omega arith)
g_field_at-eq g_slot_count o from until = (ground arith, omega arith)
g_field_at-eq g_slot_capacity o from until = (ground arith, omega arith)
g_field_at-eq g_next_seq o from until = (ground arith, omega arith)
g_field_at-eq g_consumers o from until = (ground arith, omega arith)
g_field_at-eq g_max_consumers o from until = (ground arith, omega arith)
g_field_at-eq g_publish_count o from until = (ground arith, omega arith)
g_field_at-eq g_drop_count o from until = (ground arith, omega arith)
g_field_at-eq g_publish_futex o from until = (ground arith, omega arith)
g_field_at-eq g_reclaim_futex o from until = (ground arith, omega arith)
g_field_at-eq g_registry_lock o from until = (ground arith, omega arith)
g_field_at-eq g_producer_pid o from until = (ground arith, omega arith)
g_field_at-eq g_registry_epoch o from until = (ground arith, omega arith)
g_field_at-eq g_registry_lock_owner o from until = (ground arith, omega arith)
g_field_at-eq g_reaped_count o from until = (ground arith, omega arith)
g_field_at-eq g_producer_start_token o from until = (ground arith, omega arith)
g_field_at-eq g_registry_lock_owner_token o from until = (ground arith, omega arith)

-- The field of the registry entry at a byte of it.
abbrev pub r_field_at : ℕ → EntryField
r_field_at o =
    if ltb o 4
    then r_state
    else if ltb o 8
    then r_pid
    else if ltb o 12
    then r_generation
    else if ltb o 16
    then r_flags
    else if ltb o 24
    then r_heartbeat_ns
    else r_last_sequence

pub r_field_at-eq :
    (f : EntryField) (o : ℕ)
    → r_offset f ≤ o
    → o < r_offset f + r_size f
    → (f ≡ r_field_at o) × (o < 32)
unfolding r_offset r_size
r_field_at-eq r_state o from until = (ground arith, omega arith)
r_field_at-eq r_pid o from until = (ground arith, omega arith)
r_field_at-eq r_generation o from until = (ground arith, omega arith)
r_field_at-eq r_flags o from until = (ground arith, omega arith)
r_field_at-eq r_heartbeat_ns o from until = (ground arith, omega arith)
r_field_at-eq r_last_sequence o from until = (ground arith, omega arith)

-- The field of the slot header at a byte of it.
abbrev pub s_field_at : ℕ → SlotField
s_field_at o =
    if ltb o 4
    then s_magic
    else if ltb o 8
    then s_state
    else if ltb o 16
    then s_sequence
    else if ltb o 24
    then s_timestamp_ns
    else if ltb o 32
    then s_nbytes
    else if ltb o 33
    then s_dtype
    else if ltb o 34
    then s_ndim
    else if ltb o 36
    then s_readers
    else if ltb o 40
    then s_flags
    else if ltb o 72
    then s_shape
    else if ltb o 104
    then s_strides
    else if ltb o 112
    then s_producer_pid
    else if ltb o 120
    then s_readers_mask
    else s_producer_start_token

pub s_field_at-eq :
    (f : SlotField) (o : ℕ)
    → s_offset f ≤ o
    → o < s_offset f + s_size f
    → (f ≡ s_field_at o) × (o < 128)
unfolding s_offset s_size
s_field_at-eq s_magic o from until = (ground arith, omega arith)
s_field_at-eq s_state o from until = (ground arith, omega arith)
s_field_at-eq s_sequence o from until = (ground arith, omega arith)
s_field_at-eq s_timestamp_ns o from until = (ground arith, omega arith)
s_field_at-eq s_nbytes o from until = (ground arith, omega arith)
s_field_at-eq s_dtype o from until = (ground arith, omega arith)
s_field_at-eq s_ndim o from until = (ground arith, omega arith)
s_field_at-eq s_readers o from until = (ground arith, omega arith)
s_field_at-eq s_flags o from until = (ground arith, omega arith)
s_field_at-eq s_shape o from until = (ground arith, omega arith)
s_field_at-eq s_strides o from until = (ground arith, omega arith)
s_field_at-eq s_producer_pid o from until = (ground arith, omega arith)
s_field_at-eq s_readers_mask o from until = (ground arith, omega arith)
s_field_at-eq s_producer_start_token o from until = (ground arith, omega arith)

pub g_aligned : (f : GlobalField) → g_offset f % min (g_size f) 8 ≡ 0
unfolding g_offset g_size
g_aligned g_magic = refl
g_aligned g_version = refl
g_aligned g_slot_count = refl
g_aligned g_slot_capacity = refl
g_aligned g_next_seq = refl
g_aligned g_consumers = refl
g_aligned g_max_consumers = refl
g_aligned g_publish_count = refl
g_aligned g_drop_count = refl
g_aligned g_publish_futex = refl
g_aligned g_reclaim_futex = refl
g_aligned g_registry_lock = refl
g_aligned g_producer_pid = refl
g_aligned g_registry_epoch = refl
g_aligned g_registry_lock_owner = refl
g_aligned g_reaped_count = refl
g_aligned g_producer_start_token = refl
g_aligned g_registry_lock_owner_token = refl

pub r_aligned : (f : EntryField) (x : ℕ) → x % 8 ≡ 0 → (x + r_offset f) % min (r_size f) 8 ≡ 0
unfolding r_offset r_size
r_aligned r_state x h = omega arith
r_aligned r_pid x h = omega arith
r_aligned r_generation x h = omega arith
r_aligned r_flags x h = omega arith
r_aligned r_heartbeat_ns x h = omega arith
r_aligned r_last_sequence x h = omega arith

pub s_aligned : (f : SlotField) (x : ℕ) → x % 8 ≡ 0 → (x + s_offset f) % min (s_size f) 8 ≡ 0
unfolding s_offset s_size
s_aligned s_magic x h = omega arith
s_aligned s_state x h = omega arith
s_aligned s_sequence x h = omega arith
s_aligned s_timestamp_ns x h = omega arith
s_aligned s_nbytes x h = omega arith
s_aligned s_dtype x h = omega arith
s_aligned s_ndim x h = omega arith
s_aligned s_readers x h = omega arith
s_aligned s_flags x h = omega arith
s_aligned s_shape x h = omega arith
s_aligned s_strides x h = omega arith
s_aligned s_producer_pid x h = omega arith
s_aligned s_readers_mask x h = omega arith
s_aligned s_producer_start_token x h = omega arith

pub g_fits : (f : GlobalField) → g_offset f + g_size f ≤ 128
unfolding g_offset g_size
g_fits g_magic = omega arith
g_fits g_version = omega arith
g_fits g_slot_count = omega arith
g_fits g_slot_capacity = omega arith
g_fits g_next_seq = omega arith
g_fits g_consumers = omega arith
g_fits g_max_consumers = omega arith
g_fits g_publish_count = omega arith
g_fits g_drop_count = omega arith
g_fits g_publish_futex = omega arith
g_fits g_reclaim_futex = omega arith
g_fits g_registry_lock = omega arith
g_fits g_producer_pid = omega arith
g_fits g_registry_epoch = omega arith
g_fits g_registry_lock_owner = omega arith
g_fits g_reaped_count = omega arith
g_fits g_producer_start_token = omega arith
g_fits g_registry_lock_owner_token = omega arith

pub r_fits : (f : EntryField) → r_offset f + r_size f ≤ 32
unfolding r_offset r_size
r_fits r_state = omega arith
r_fits r_pid = omega arith
r_fits r_generation = omega arith
r_fits r_flags = omega arith
r_fits r_heartbeat_ns = omega arith
r_fits r_last_sequence = omega arith

pub s_fits : (f : SlotField) → s_offset f + s_size f ≤ 128
unfolding s_offset s_size
s_fits s_magic = omega arith
s_fits s_state = omega arith
s_fits s_sequence = omega arith
s_fits s_timestamp_ns = omega arith
s_fits s_nbytes = omega arith
s_fits s_dtype = omega arith
s_fits s_ndim = omega arith
s_fits s_readers = omega arith
s_fits s_flags = omega arith
s_fits s_shape = omega arith
s_fits s_strides = omega arith
s_fits s_producer_pid = omega arith
s_fits s_readers_mask = omega arith
s_fits s_producer_start_token = omega arith
