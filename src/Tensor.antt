-- ===== src/Tensor.antt =====
-- rust/tenzorbus/src/ring.rs, `TensorView`: a borrowed tensor with its shape, its byte strides and
-- its bytes. Products of dimensions wrap at 64 bits, as they do in a release build.
pub mod Strides
use tenzor_bus.Common.{
  ℕ, ◌-◌, ◌*◌, not, ltb, ◌==◌, if◌then◌else◌, u32, u64, Option, none, some, List, [], ◌∷◌, ◌++◌,
  length, replicate,
}
use tenzor_bus.Proto.{DType, itemsize, max_ndim}
use tenzor_bus.Errors.{Result, ok, err, invalid, ndim_exceeds, strides_rank, shape_implies}

pub record TensorView : Type 0 where
  pub dtype : DType
  pub ndim : ℕ
  pub shape : List ℕ
  pub strides : List ℕ
  pub bytes : List ℕ
  pub timestamp_ns : Option ℕ

-- `shape.iter().map(|d| *d as u64).product::<u64>()`
abbrev pub product_from : ℕ → List ℕ → ℕ
product_from acc [] = acc
product_from acc (d ∷ ds) = product_from (u64 (acc * d)) ds

-- `elements as usize * dtype.itemsize()`
unfoldable pub byte_size : DType → List ℕ → ℕ
byte_size dtype shape = u64 (product_from 1 shape * itemsize dtype)

-- `[0u32; MAX_NDIM]` with the list copied to its front.
abbrev pub pad : List ℕ → List ℕ
pad xs = xs ++ replicate (max_ndim - length xs) 0

-- `TensorView::new`
unfoldable pub new : DType → List ℕ → List ℕ → List ℕ → Result TensorView
new dtype shape strides bytes =
    if ltb max_ndim (length shape)
    then err (invalid (ndim_exceeds (length shape)))
    else if not (length strides == length shape)
    then err (invalid strides_rank)
    else if not (byte_size dtype shape == length bytes)
    then err (invalid (shape_implies (byte_size dtype shape) (length bytes)))
    else ok (record {
      dtype = dtype;
      ndim = length shape;
      shape = pad shape;
      strides = pad strides;
      bytes = bytes;
      timestamp_ns = none;
    })

unfoldable pub with_timestamp_ns : TensorView → ℕ → TensorView
with_timestamp_ns v ns = record v { timestamp_ns = some ns }

-- The loop over the dimensions from the last to the first: the accumulator beside the strides.
unfoldable pub strides_loop : DType → List ℕ → ℕ × List ℕ
strides_loop dtype [] = (itemsize dtype, [])
strides_loop dtype (d ∷ ds) =
    let (acc, strides) = strides_loop dtype ds in (u64 (acc * d), u32 acc ∷ strides)

-- `TensorView::contiguous`
unfoldable pub contiguous : DType → List ℕ → List ℕ → Result TensorView
contiguous dtype shape bytes = new dtype shape (strides_loop dtype shape).1 bytes
