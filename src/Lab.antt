-- ===== src/Lab.antt =====
-- rust/tenzorbus/src/bin/tenzorbus-lab.rs: the driver with which the crash tests publish and check
-- payloads. Elements are `u32`, sequence numbers `u64`; the target is little-endian, which
-- rust/tenzorbus/src/lib.rs demands.
pub mod Payload
pub mod Delivered
pub mod Consume
pub mod Options
pub mod Produce
use tenzor_bus.Common.{
  ℕ, zero, suc, ◌+◌, ◌*◌, ◌/◌, ◌%◌, Bool, true, false, ◌&&◌, ◌==◌, if◌then◌else◌, u32, u64, Option,
  none, some, List, [], ◌∷◌,
}
use tenzor_bus.Proto.{i32}
use tenzor_bus.Errors.{Result}
use tenzor_bus.Tensor.{TensorView, contiguous}

-- `seq.wrapping_mul(1_000_003) as u32`
unfoldable pub base_of : ℕ → ℕ
base_of seq = u32 (u64 (seq * 1000003))

-- `base.wrapping_add(i as u32)`
abbrev pub element : ℕ → ℕ → ℕ
element base i = u32 (base + u32 i)

-- The loop of `fill`, with `k` elements left from the index `i` on.
unfoldable pub fill_from : ℕ → ℕ → ℕ → List ℕ
fill_from base i zero = []
fill_from base i (suc k) = element base i ∷ fill_from base (i + 1) k

unfoldable pub fill : ℕ → ℕ → List ℕ
fill seq elements = fill_from (base_of seq) 0 elements

-- The loop of `verify`.
unfoldable pub verify_from : ℕ → ℕ → List ℕ → Option ℕ
verify_from base i [] = none
verify_from base i (v ∷ vs) =
    let rest = verify_from base (i + 1) vs in if v == element base i then rest else some i

-- The index of the first element that is not the one that `fill` writes.
unfoldable pub verify : ℕ → List ℕ → Option ℕ
verify seq elements = verify_from (base_of seq) 0 elements

-- The buffer of elements as bytes: `from_raw_parts(buf.as_ptr() as *const u8, buf.len() * 4)`.
unfoldable pub as_bytes : List ℕ → List ℕ
as_bytes [] = []
as_bytes (v ∷ vs) =
    (v % 256) ∷ (v / 256 % 256) ∷ (v / 65536 % 256) ∷ (v / 16777216 % 256) ∷ as_bytes vs

-- `Lease::as_slice::<u32>`: bytes at the end that make no element are left out.
unfoldable pub as_elements : List ℕ → List ℕ
as_elements (a ∷ b ∷ c ∷ d ∷ bs) = (a + 256 * b + 65536 * c + 16777216 * d) ∷ as_elements bs
as_elements _ = []

-- The shape of a published tensor.
abbrev pub shape_of : Bool → ℕ → List ℕ
shape_of vary elements =
    if vary && elements % 4 == 0 then u32 (elements / 4) ∷ 4 ∷ [] else u32 elements ∷ []

-- The view that `produce` publishes under number `seq`; `expect` panics on an error.
unfoldable pub view_of : Bool → ℕ → ℕ → Result TensorView
view_of vary seq elements = contiguous i32 (shape_of vary elements) (as_bytes (fill seq elements))
