-- ===== src/Tests/Memory.antt =====
-- The theorems on system calls, on the mapping's layout and on slot headers, applied.
use tenzor_bus.Common.{
  ◌++◌, ◌*◌, ◌+◌, ◌^◌, ◌<◌, ◌≤◌, ◌%◌, ◌≡◌, ◌↔◌, refl, true, false, [], ◌∷◌, arith, for_to, some,
  none,
}
use tenzor_bus.Common.Bits.{test_bit, set_bit}
use tenzor_bus.Proto.{
  total_bytes, slot_stride, slot_magic, state_committed, global_header_size, slot_base,
}
use tenzor_bus.Proto.Places.{Place, slot, s_state, address, extent, Covers, s_offset, s_size}
use tenzor_bus.Proto.Places.Apart.{alignment, places_apart, place_in_mapping}
use tenzor_bus.Mem.{Mem}
use tenzor_bus.Registry.{consumer, reap_dead, active_mask}
use tenzor_bus.Producer.{attempt, reserve_header, select, commit, commit_slot}
use tenzor_bus.Consumer.{TensorMeta, read_validated, steady}
use tenzor_bus.Consumer.Header.{validate, validate_iff_read}
use tenzor_bus.Create.{RingOptions, format, same_bytes}
use tenzor_bus.Shm.{Kernel, got, failed}
use tenzor_bus.Shm
use tenzor_bus.Shm.Balance.{no_calls}
use tenzor_bus.Shm.Undo.{Undone, create_undoes, traced, refused, made}
use tenzor_bus.Handle.{Memory, open_or_create}
use tenzor_bus.Handle.Balance.{beside_log, Closes, open_or_create-Closes}
use tenzor_bus.Tests.Scenario.{ring, reader, committed, blank}

-- The name is taken, by a ring of 8192 bytes.
abbrev taken_name : Kernel Mem
taken_name = record {
  shm_open_new = λ name m. (failed 17, m);
  shm_open = λ name m. (got 3, m);
  ftruncate = λ fd len m. (got tt, m);
  fstat_size = λ fd m. (got 8192, m);
  mmap = λ fd len m. (got 65536, m);
  munmap = λ addr len m. m;
  close = λ fd m. m;
  shm_unlink = λ name m. (got tt, m);
}

abbrev memory : Memory Mem
memory = record { kernel = taken_name; store = λ map m old. m; load = λ map m. m }

abbrev options : RingOptions
options = record { slot_count = 2; slot_capacity = 64; force = false }

open_or_create-Closes_example :
    Closes memory (open_or_create (beside_log memory) (b'a' ∷ []) options (blank, no_calls))
open_or_create-Closes_example = open_or_create-Closes memory (b'a' ∷ []) options blank

-- The name is free, and the mapping is refused with ENOMEM.
abbrev refusing : Kernel Mem
refusing = record taken_name {
  shm_open_new = λ name m. (got 3, m);
  mmap = λ fd len m. (failed 12, m);
}

create_undoes_example :
    Undone (b'a' ∷ []) (Shm.create (traced refusing) (b'a' ∷ []) 8192 false (blank, []))
create_undoes_example = create_undoes refusing (b'a' ∷ []) 8192 blank

-- The object stays: it was made, and nothing has unlinked it.
refused-stays :
    (Shm.create (traced refusing) (b'a' ∷ []) 8192 false (blank, [])).1.1
    ≡ refused ∷ made (Shm.prefix ++ (b'a' ∷ [])) ∷ []
unfolding Shm.create Shm.cname Shm.map_fd
refused-stays = refl

abbrev state_word : Place
state_word = slot 1 s_state

state_word-Covers : Covers 64 state_word 4294
unfolding address extent slot_base slot_stride s_offset s_size
state_word-Covers = record { from = omega arith; until = omega arith }

small_ring : global_header_size + 2 * slot_stride 64 < 2 ^ 64
unfolding slot_stride
small_ring = omega arith

places_apart_example : state_word ≡ state_word
places_apart_example =
    places_apart 2 64 (omega arith) small_ring state_word state_word 4294 (omega arith)
      (omega arith) state_word-Covers state_word-Covers

place_in_mapping_example :
    (address 64 state_word + extent 64 state_word ≤ total_bytes 2 64)
    × (address 64 state_word % alignment state_word ≡ 0)
place_in_mapping_example = place_in_mapping 2 64 (omega arith) small_ring state_word (omega arith)

first_committed :
    (same_bytes (committed.slots 0).magic slot_magic ≡ true)
    × ((committed.slots 0).state ≡ state_committed)
    × (test_bit (committed.slots 0).mask 0 ≡ true)
unfolding consumer for_to reap_dead format attempt reserve_header select active_mask set_bit commit
    commit_slot test_bit
first_committed = (refl, refl, refl)

validate_iff_read_example : (validate 64 (committed.slots 0) ≡ none) ↔ (
    (t : TensorMeta) × (read_validated ring reader (steady committed) 0 (committed.slots 0).sequence
      ≡ some t))
validate_iff_read_example =
    validate_iff_read ring reader committed 0 first_committed.0 first_committed.1 first_committed.2
