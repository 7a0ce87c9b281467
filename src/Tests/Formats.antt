-- ===== src/Tests/Formats.antt =====
-- The theorems on the formats of the protocol, applied to small values.
use tenzor_bus.Common.{
  ◌*◌, none, replicate, length, suc, ◌-◌, ℕ, zero, suc, ◌≡◌, ◌≢◌, ◌<◌, ◌≤◌, ◌↔◌, ◌+◌, ◌%◌, ◌^◌,
  refl, true, false, u64, some, List, [], ◌∷◌, arith,
}
use tenzor_bus.Proto.{
  itemsize, u8, f32, code, from_code, numpy_name, from_numpy_name, seq_newer, slot_stride,
  slot_base, payload_base, total_bytes, global_header_size, slot_header_size, registry_entry_offset,
  registry_entry_size, protocol_version,
}
use tenzor_bus.Proto.Layout.{slot_in_mapping, slots_disjoint, registry_fits, slot_stride_bounds}
use tenzor_bus.Proto.Order.{seq_newer_iff_lt, seq_newer_asymm}
use tenzor_bus.Proto.Codes.{from_code_iff, from_numpy_name_iff}
use tenzor_bus.Host.{
  stat_fields, split_whitespace, after_last_paren, Host, parse_stat, pid_alive, is_whitespace,
  pid_alive_with_token, pid_start_token, proc_stat,
}
use tenzor_bus.Host.Liveness.{parse_stat-ignores_name, pid_alive-own_token}
use tenzor_bus.Create.{layout_new, format, attach}
use tenzor_bus.Create.Geometry.{attach-format, attach_in_bounds}
use tenzor_bus.Errors.{ok}
use tenzor_bus.Tensor.{TensorView, contiguous, new, byte_size, strides_loop, pad}
use tenzor_bus.Tensor.Strides.{elements, offset, contiguous_in_bounds, contiguous_injective}
use tenzor_bus.Names.{safe_name, trim_start, trim_end, is_safe}
use tenzor_bus.Names.Safe.{Clean, safe_name-stable}
use tenzor_bus.Tests.Scenario.{ring}

slot_in_mapping_example :
    (slot_base 2 100 % 64 ≡ 0)
    × (global_header_size ≤ slot_base 2 100)
    × (payload_base 2 100 ≡ slot_base 2 100 + slot_header_size)
    × (payload_base 2 100 + 100 ≤ total_bytes 3 100)
unfolding slot_stride
slot_in_mapping_example = slot_in_mapping 3 100 (omega arith) (omega arith) 2 (omega arith)

slots_disjoint_example : payload_base 0 100 + 100 ≤ slot_base 2 100
unfolding slot_stride
slots_disjoint_example =
    slots_disjoint 3 100 (omega arith) (omega arith) 0 2 (omega arith) (omega arith)

registry_fits_example : registry_entry_offset 63 + registry_entry_size ≤ slot_base 0 100
registry_fits_example = registry_fits 63 100 (omega arith)

slot_stride_bounds_example :
    (slot_stride 100 % 64 ≡ 0)
    × (slot_header_size + 100 ≤ slot_stride 100)
    × (slot_stride 100 < slot_header_size + 100 + 64)
slot_stride_bounds_example = slot_stride_bounds 100 (omega arith)

-- Across the wraparound of the counter.
seq_newer_iff_lt_example :
    (seq_newer (u64 (2 ^ 64)) (u64 (2 ^ 64 - 1)) ≡ true) ↔ (2 ^ 64 - 1 < 2 ^ 64)
seq_newer_iff_lt_example = seq_newer_iff_lt (2 ^ 64) (2 ^ 64 - 1) (omega arith) (omega arith)

newer : seq_newer 0 (2 ^ 64 - 1) ≡ true
unfolding seq_newer
newer = refl

seq_newer_asymm_example : seq_newer (2 ^ 64 - 1) 0 ≡ false
seq_newer_asymm_example = seq_newer_asymm 0 (2 ^ 64 - 1) (omega arith) (omega arith) newer

from_code_iff_example : (from_code 3 ≡ some u8) ↔ (code u8 ≡ 3)
from_code_iff_example = from_code_iff 3 u8

from_numpy_name_iff_example : (from_numpy_name "float32" ≡ some f32) ↔ (numpy_name f32 ≡ "float32")
from_numpy_name_iff_example = from_numpy_name_iff "float32" f32

-- " S 1": the command's name is "a) b" or "c".
parse_stat-ignores_name_example :
    parse_stat (b'a' ∷ b')' ∷ b'b' ∷ b')' ∷ b' ' ∷ b'S' ∷ b' ' ∷ b'1' ∷ [])
    ≡ parse_stat (b'c' ∷ b')' ∷ b' ' ∷ b'S' ∷ b' ' ∷ b'1' ∷ [])
parse_stat-ignores_name_example =
    parse_stat-ignores_name (b'a' ∷ b')' ∷ b'b' ∷ []) (b'c' ∷ []) (b' ' ∷ b'S' ∷ b' ' ∷ b'1' ∷ [])
      (omega arith, (omega arith, (omega arith, (omega arith, tt))))

-- `n` fields that say 1.
abbrev ones : ℕ → List ℕ
ones zero = []
ones (suc n) = b' ' ∷ b'1' ∷ ones n

-- A process in state S with the start time 1.
abbrev sleeper : Host
sleeper = record {
  pid = 7;
  stat_text = λ _. some (b')' ∷ b' ' ∷ b'S' ∷ ones 20);
  signalable = λ _. true;
  clock_ns = 0;
}

sleeper-stat : proc_stat sleeper 9 ≡ some (b'S', 1)
unfolding proc_stat parse_stat after_last_paren split_whitespace stat_fields
sleeper-stat = refl

sleeper-alive : pid_alive sleeper 9 ≡ true
unfolding pid_alive pid_alive_with_token proc_stat parse_stat after_last_paren split_whitespace
    stat_fields
sleeper-alive = refl

sleeper-token-eq : pid_start_token sleeper 9 ≡ 1
unfolding pid_start_token proc_stat parse_stat after_last_paren split_whitespace stat_fields
sleeper-token-eq = refl

sleeper-token : 2 ≢ pid_start_token sleeper 9
sleeper-token e = omega (arith, sleeper-token-eq)

pid_alive-own_token_example :
    (pid_alive_with_token sleeper 9 (pid_start_token sleeper 9) ≡ true)
    × (pid_alive_with_token sleeper 9 2 ≡ false)
pid_alive-own_token_example =
    pid_alive-own_token sleeper 9 b'S' 1 2 sleeper-stat sleeper-alive (omega arith) sleeper-token

geometry-eq : layout_new 2 64 ≡ ok ring
unfolding layout_new
geometry-eq = refl

attach-format_example : attach (total_bytes 2 64) (format ring) ≡ ok ring
attach-format_example = attach-format 2 64 (omega arith) (omega arith) geometry-eq

attach_in_bounds_example :
    (ring.slot_count ≡ (format ring).slot_count)
    × (ring.slot_capacity ≡ (format ring).slot_capacity)
    × (2 ≤ ring.slot_count)
    × (64 ≤ ring.slot_capacity)
    × ((format ring).version ≡ protocol_version)
    × (payload_base 1 64 + 64 ≤ total_bytes 2 64)
unfolding slot_stride
attach_in_bounds_example =
    attach_in_bounds (total_bytes 2 64) (format ring) ring 1 attach-format_example (omega arith)
      (omega arith) (omega arith)

-- A matrix of 2 rows and 3 columns of float32.
abbrev matrix : TensorView
matrix = record {
  dtype = f32;
  ndim = 2;
  shape = pad (2 ∷ 3 ∷ []);
  strides = pad (12 ∷ 4 ∷ []);
  bytes = replicate 24 0;
  timestamp_ns = none;
}

matrix-eq : contiguous f32 (2 ∷ 3 ∷ []) (replicate 24 0) ≡ ok matrix
unfolding contiguous new byte_size itemsize strides_loop
matrix-eq = refl

matrix_small : elements (2 ∷ 3 ∷ []) * itemsize f32 < 2 ^ 32
unfolding elements itemsize
matrix_small = omega arith

contiguous_in_bounds_example :
    offset (1 ∷ 2 ∷ []) matrix.strides + itemsize f32 ≤ length matrix.bytes
contiguous_in_bounds_example =
    contiguous_in_bounds f32 (2 ∷ 3 ∷ []) (replicate 24 0) (1 ∷ 2 ∷ []) matrix matrix-eq
      (omega arith, (omega arith, tt)) matrix_small

contiguous_injective_example : ◌≡◌ {A = List ℕ} (1 ∷ 2 ∷ []) (1 ∷ 2 ∷ [])
contiguous_injective_example =
    contiguous_injective f32 (2 ∷ 3 ∷ []) (1 ∷ 2 ∷ []) (1 ∷ 2 ∷ []) (omega arith, (omega arith, tt))
      (omega arith, (omega arith, tt)) matrix_small refl

-- " a/b ": the name is "a_b".
abbrev spaced : List ℕ
spaced = b' ' ∷ b'a' ∷ b'/' ∷ b'b' ∷ b' ' ∷ []

abbrev plain : List ℕ
plain = b'a' ∷ b'_' ∷ b'b' ∷ []

spaced-eq : safe_name spaced ≡ ok plain
unfolding safe_name trim_start trim_end is_whitespace is_safe
spaced-eq = refl

safe_name-stable_example :
    (1 ≤ length plain) × (length plain ≤ 64) × Clean plain × (safe_name plain ≡ ok plain)
safe_name-stable_example = safe_name-stable spaced plain spaced-eq
