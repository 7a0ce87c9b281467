-- ===== src/Bridge/Options.antt =====
-- integration/bridge/src/main.rs: the arguments of the program, and the options of the ring that it
-- creates. A text is the list of its code points.
use tenzor_bus.Common.{
  ℕ, ◌*◌, ◌%◌, ◌^◌, ◌<◌, ◌≤◌, ◌≡◌, Bool, true, false, ltb, ◌||◌, if◌then◌else◌, u32, u64, Option,
  none, some, List, [], ◌∷◌, arith, mul-le,
}
use tenzor_bus.Proto.{f32, itemsize}
use tenzor_bus.Host.{parse_u64}
use tenzor_bus.Tensor.{byte_size}
use tenzor_bus.Create.{RingOptions, same_bytes}
use tenzor_bus.Bridge.{new_sink}

-- `args.iter().any(|a| a == key)`
unfoldable pub flag : List (List ℕ) → List ℕ → Bool
flag [] key = false
flag (a ∷ args) key = same_bytes a key || flag args key

abbrev pub first : List (List ℕ) → Option (List ℕ)
first [] = none
first (a ∷ args) = some a

-- The argument behind the first that is `key`.
unfoldable pub value : List (List ℕ) → List ℕ → Option (List ℕ)
value [] key = none
value (a ∷ args) key = let rest = value args key in if same_bytes a key then first args else rest

abbrev pub or_default : Option ℕ → ℕ → ℕ
or_default none default = default
or_default (some n) default = n

abbrev pub parsed_or : Option (List ℕ) → ℕ → ℕ
parsed_or none default = default
parsed_or (some v) default = or_default (parse_u64 v) default

unfoldable pub number : List (List ℕ) → List ℕ → ℕ → ℕ
number args key default = parsed_or (value args key) default

-- "--resolution", "--slots" and "--slot-bytes"
abbrev pub resolution_key : List ℕ
resolution_key =
    b'-' ∷ b'-' ∷ b'r' ∷ b'e' ∷ b's' ∷ b'o' ∷ b'l' ∷ b'u' ∷ b't' ∷ b'i' ∷ b'o' ∷ b'n' ∷ []

abbrev pub slots_key : List ℕ
slots_key = b'-' ∷ b'-' ∷ b's' ∷ b'l' ∷ b'o' ∷ b't' ∷ b's' ∷ []

abbrev pub slot_bytes_key : List ℕ
slot_bytes_key =
    b'-' ∷ b'-' ∷ b's' ∷ b'l' ∷ b'o' ∷ b't' ∷ b'-' ∷ b'b' ∷ b'y' ∷ b't' ∷ b'e' ∷ b's' ∷ []

abbrev pub resolution_of : List (List ℕ) → ℕ
resolution_of args = number args resolution_key 224

abbrev pub frame_bytes : ℕ → ℕ
frame_bytes resolution = u64 (3 * resolution * resolution * 4)

abbrev pub larger : ℕ → ℕ → ℕ
larger a b = if ltb a b then b else a

-- The options with which `main` creates the ring.
unfoldable pub ring_options : List (List ℕ) → RingOptions
ring_options args =
    let frame = frame_bytes (resolution_of args) in
    record {
      slot_count = number args slots_key 8;
      slot_capacity = larger (number args slot_bytes_key frame) frame;
      force = true;
    }

-- For every resolution below 2^30, whatever the other arguments say, the tensor of a frame has the
-- length that the sink expects of the decoder and fits a slot of the ring that `main` creates.
pub frame_fits :
    (args : List (List ℕ)) (direct : Bool)
    → resolution_of args < 2 ^ 30
    → (byte_size f32 (new_sink (resolution_of args) direct).shape
        ≡ 4 * (new_sink (resolution_of args) direct).len)
      × (byte_size f32 (new_sink (resolution_of args) direct).shape
          ≤ (ring_options args).slot_capacity)
unfolding ring_options byte_size itemsize
frame_fits args direct small =
    let r = resolution_of args in
    let square : r * r < 2 ^ 60 = omega (arith, mul-le r r (2 ^ 30) (omega arith)) in
    let cube : 3 * r * r ≡ 3 * (r * r) = grind arith in
    let three : 3 * r % 2 ^ 64 ≡ 3 * r = omega arith in
    let word : u32 r ≡ r = omega arith in rw (word, three) (omega arith, ground arith)
