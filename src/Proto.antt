-- ===== src/Proto.antt =====
-- rust/tenzor-core/src/lib.rs: the constants of the wire layout, the element types, the layout
-- arithmetic and the order on sequence numbers. `usize` and `u64` are 64 bits and wrap, as they do
-- in a release build.
pub mod Codes
pub mod Layout
pub mod Order
pub mod Places
use Prim.Native.String.{String}
use text.Mathlib.Text.{◌==◌ as str_eq}
use tenzor_bus.Common.{
  ℕ, ◌+◌, ◌*◌, ◌/◌, ◌%◌, ◌^◌, Bool, ◌&&◌, ltb, ◌==◌, if◌then◌else◌, u64, sub_u64, Option, none,
  some, List, [], ◌∷◌,
}

-- b"TZBUS001" and b"SLOT"
abbrev pub protocol_magic : List ℕ
protocol_magic = b'T' ∷ b'Z' ∷ b'B' ∷ b'U' ∷ b'S' ∷ b'0' ∷ b'0' ∷ b'1' ∷ []

abbrev pub slot_magic : List ℕ
slot_magic = b'S' ∷ b'L' ∷ b'O' ∷ b'T' ∷ []

abbrev pub protocol_version : ℕ
protocol_version = 1

abbrev pub max_ndim : ℕ
max_ndim = 8

abbrev pub global_header_size : ℕ
global_header_size = 4096

abbrev pub slot_header_size : ℕ
slot_header_size = 128

abbrev pub max_consumers : ℕ
max_consumers = 64

abbrev pub state_free : ℕ
state_free = 0

abbrev pub state_committed : ℕ
state_committed = 1

abbrev pub state_writing : ℕ
state_writing = 2

abbrev pub g_registry_off : ℕ
g_registry_off = 128

abbrev pub registry_entry_size : ℕ
registry_entry_size = 32

abbrev pub registry_free : ℕ
registry_free = 0

abbrev pub registry_active : ℕ
registry_active = 1

pub data DType : Type 0 where
  f32 f16 u8 i8 i16 i32 i64 f64 bool : DType

-- `DType::code`
unfoldable pub code : DType → ℕ
code f32 = 1
code f16 = 2
code u8 = 3
code i8 = 4
code i16 = 5
code i32 = 6
code i64 = 7
code f64 = 8
code bool = 9

-- `DType::from_code`
unfoldable pub from_code : ℕ → Option DType
from_code c =
    if c == 1
    then some f32
    else if c == 2
    then some f16
    else if c == 3
    then some u8
    else if c == 4
    then some i8
    else if c == 5
    then some i16
    else if c == 6
    then some i32
    else if c == 7
    then some i64
    else if c == 8
    then some f64
    else if c == 9
    then some bool
    else none

-- `DType::itemsize`
unfoldable pub itemsize : DType → ℕ
itemsize f32 = 4
itemsize f16 = 2
itemsize u8 = 1
itemsize i8 = 1
itemsize i16 = 2
itemsize i32 = 4
itemsize i64 = 8
itemsize f64 = 8
itemsize bool = 1

-- `DType::numpy_name`
pub numpy_name : DType → String
numpy_name f32 = "float32"
numpy_name f16 = "float16"
numpy_name u8 = "uint8"
numpy_name i8 = "int8"
numpy_name i16 = "int16"
numpy_name i32 = "int32"
numpy_name i64 = "int64"
numpy_name f64 = "float64"
numpy_name bool = "bool"

-- `DType::from_numpy_name`
pub from_numpy_name : String → Option DType
from_numpy_name name =
    if str_eq name "float32"
    then some f32
    else if str_eq name "float16"
    then some f16
    else if str_eq name "uint8"
    then some u8
    else if str_eq name "int8"
    then some i8
    else if str_eq name "int16"
    then some i16
    else if str_eq name "int32"
    then some i32
    else if str_eq name "int64"
    then some i64
    else if str_eq name "float64"
    then some f64
    else if str_eq name "bool"
    then some bool
    else none

-- `usize::div_ceil`
abbrev pub div_ceil : ℕ → ℕ → ℕ
div_ceil a b = if ltb 0 (a % b) then a / b + 1 else a / b

unfoldable pub align_up : ℕ → ℕ → ℕ
align_up value alignment = u64 (div_ceil value alignment * alignment)

unfoldable pub slot_stride : ℕ → ℕ
unfolding align_up
slot_stride slot_capacity = align_up (u64 (slot_header_size + slot_capacity)) 64

unfoldable pub total_bytes : ℕ → ℕ → ℕ
total_bytes slot_count slot_capacity =
    u64 (global_header_size + u64 (slot_count * slot_stride slot_capacity))

unfoldable pub slot_base : ℕ → ℕ → ℕ
slot_base slot_index slot_capacity =
    u64 (global_header_size + u64 (slot_index * slot_stride slot_capacity))

unfoldable pub payload_base : ℕ → ℕ → ℕ
payload_base slot_index slot_capacity = u64 (slot_base slot_index slot_capacity + slot_header_size)

unfoldable pub registry_entry_offset : ℕ → ℕ
registry_entry_offset index = u64 (g_registry_off + u64 (index * registry_entry_size))

-- `x as i64 > 0`
abbrev pub i64_positive : ℕ → Bool
i64_positive x = ltb 0 x && ltb x (2 ^ 63)

-- `a` is newer than `b`, also across a wraparound.
unfoldable pub seq_newer : ℕ → ℕ → Bool
seq_newer a b = i64_positive (sub_u64 a b)
