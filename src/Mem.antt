-- ===== src/Mem.antt =====
-- The shared mapping as rust/tenzorbus/src/ring.rs reads and writes it, with a field for each
-- field of the global header, of a registry entry and of a slot header (the offsets in
-- rust/tenzor-core/src/lib.rs), and the payload of each slot. The registry and the slots are
-- families by index: the loops of the code stay below their number.
use tenzor_bus.Common.{ℕ, ◌+◌, ◌==◌, if◌then◌else◌, update, u32, List, Bool}
use tenzor_bus.Host.{Host, pid_start_token}

-- `TensorSlotHeader`, and the payload behind it.
pub record Slot : Type 0 where
  pub magic : List ℕ
  pub state : ℕ
  pub sequence : ℕ
  pub timestamp_ns : ℕ
  pub nbytes : ℕ
  pub dtype : ℕ
  pub ndim : ℕ
  pub readers : ℕ
  pub flags : ℕ
  pub shape : List ℕ
  pub strides : List ℕ
  pub producer_pid : ℕ
  pub mask : ℕ
  pub start_token : ℕ
  pub payload : List ℕ

-- `ConsumerEntry`
pub record Entry : Type 0 where
  pub state : ℕ
  pub pid : ℕ
  pub generation : ℕ
  pub flags : ℕ
  pub heartbeat_ns : ℕ
  pub last_sequence : ℕ

pub record Mem : Type 0 where
  pub magic : List ℕ
  pub version : ℕ
  pub slot_count : ℕ
  pub slot_capacity : ℕ
  pub next_seq : ℕ
  pub consumers : ℕ
  pub max_consumers : ℕ
  pub publish_count : ℕ
  pub drop_count : ℕ
  pub publish_futex : ℕ
  pub reclaim_futex : ℕ
  pub registry_lock : ℕ
  pub producer_pid : ℕ
  pub registry_epoch : ℕ
  pub lock_owner : ℕ
  pub reaped_count : ℕ
  pub producer_start_token : ℕ
  pub lock_owner_token : ℕ
  pub entries : ℕ → Entry
  pub slots : ℕ → Slot

-- The handle `Inner`: the geometry that this process learned.
pub record Ring : Type 0 where
  pub slot_count : ℕ
  pub slot_capacity : ℕ

-- The handle `Consumer`.
pub record Consumer : Type 0 where
  pub index : ℕ
  pub generation : ℕ
  pub last_sequence : ℕ
  pub closed : Bool

-- Stores to slot `i` and to entry `i`.
abbrev pub at_slot : ℕ → (Slot → Slot) → Mem → Mem
at_slot i f m = record m { slots = update m.slots i (f (m.slots i)) }

abbrev pub at_entry : ℕ → (Entry → Entry) → Mem → Mem
at_entry i f m = record m { entries = update m.entries i (f (m.entries i)) }

-- `futex::signal` on the two counter words; the wake-up itself changes no memory.
abbrev pub signal_publish : Mem → Mem
signal_publish m = record m { publish_futex = u32 (m.publish_futex + 1) }

abbrev pub signal_reclaim : Mem → Mem
signal_reclaim m = record m { reclaim_futex = u32 (m.reclaim_futex + 1) }

abbrev pub unlocked : ℕ
unlocked = 0

abbrev pub locked : ℕ
locked = 1

abbrev pub contended : ℕ
contended = 2

-- The memory when `lock_registry` returns: on its fast path the word goes from UNLOCKED to LOCKED,
-- else this process has swapped in CONTENDED, or has stolen the lock of a dead owner.
abbrev pub lock_registry : Host → Mem → Mem
lock_registry h m = record m {
  registry_lock = if m.registry_lock == unlocked then locked else contended;
  lock_owner = h.pid;
  lock_owner_token = pid_start_token h h.pid;
}

abbrev pub unlock_registry : Mem → Mem
unlock_registry m = record m { lock_owner = 0; lock_owner_token = 0; registry_lock = unlocked }
