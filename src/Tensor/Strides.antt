-- ===== src/Tensor/Strides.antt =====
-- The strides of `TensorView::contiguous`: every element lies in the buffer, at its own place.
use native.Mathlib.Decide.{dec_lt}
use tenzor_bus.Common.{
  ℕ, suc, ◌+◌, ◌*◌, ◌<◌, ◌≤◌, ◌≡◌, ◌^◌, refl, ap, u32, u64, List, [], ◌∷◌, ◌++◌, length, arith,
  mul-le,
}
use tenzor_bus.Proto.{DType, itemsize}
use tenzor_bus.Errors.{ok}
use tenzor_bus.Tensor.{TensorView, product_from, byte_size, pad, new, strides_loop, contiguous}

-- The number of elements.
unfoldable pub elements : List ℕ → ℕ
elements [] = 1
elements (d ∷ ds) = d * elements ds

-- A position in a tensor of this shape.
abbrev pub Position : List ℕ → List ℕ → Type 0
Position [] [] = Unit {0}
Position [] (i ∷ is) = ⊥
Position (d ∷ ds) [] = ⊥
Position (d ∷ ds) (i ∷ is) = (i < d) × Position ds is

-- The place of the element at a position, in bytes.
unfoldable pub offset : List ℕ → List ℕ → ℕ
offset [] strides = 0
offset (i ∷ is) [] = 0
offset (i ∷ is) (s ∷ ss) = i * s + offset is ss

elements-positive : (shape is : List ℕ) → Position shape is → 1 ≤ elements shape
unfolding elements
elements-positive [] [] p = omega arith
elements-positive [] (i ∷ is) p = elim p [ ]
elements-positive (d ∷ ds) [] p = elim p [ ]
elements-positive (d ∷ ds) (i ∷ is) p =
    let e = elements-positive ds is p.1 in omega (arith, mul-le (elements ds) 1 d (omega arith))

itemsize-positive : (d : DType) → 1 ≤ itemsize d
unfolding itemsize
itemsize-positive d = ground arith

-- What the loop computes, and where it puts the element.
record Placed (dtype : DType) (shape is : List ℕ) : Type 0 where
  total : (strides_loop dtype shape).0 ≡ elements shape * itemsize dtype
  inside : offset is (strides_loop dtype shape).1 + itemsize dtype ≤ elements shape * itemsize dtype

strides_loop-Placed :
    (dtype : DType) (shape is : List ℕ)
    → Position shape is
    → elements shape * itemsize dtype < 2 ^ 32
    → Placed dtype shape is
unfolding elements offset strides_loop
strides_loop-Placed dtype [] [] p small = record { total = omega arith; inside = omega arith }
strides_loop-Placed dtype [] (i ∷ is) p small = elim p [ ]
strides_loop-Placed dtype (d ∷ ds) [] p small = elim p [ ]
strides_loop-Placed dtype (d ∷ ds) (i ∷ is) p small =
    let e = elements ds * itemsize dtype in
    let rest : e ≤ d * e = omega (arith, mul-le e 1 d (omega arith)) in
    let same : d * elements ds * itemsize dtype ≡ d * e = grind arith in
    let q = strides_loop-Placed dtype ds is p.1 (omega arith) in
    let acc = (strides_loop dtype ds).0 in
    let product : acc * d ≡ d * e = rw (q.total) (grind arith) in
    let word : u32 acc ≡ e = omega arith in
    record { total = omega arith; inside = rw word (omega (arith, mul-le e (suc i) d p.0)) }

-- The product of the dimensions does not wrap if the tensor fits.
product_from-elements :
    (a : ℕ) (shape is : List ℕ)
    → Position shape is
    → a * elements shape < 2 ^ 64
    → product_from a shape ≡ a * elements shape
unfolding elements
product_from-elements a [] [] p small = omega arith
product_from-elements a [] (i ∷ is) p small = elim p [ ]
product_from-elements a (d ∷ ds) [] p small = elim p [ ]
product_from-elements a (d ∷ ds) (i ∷ is) p small =
    let same : a * d * elements ds ≡ a * (d * elements ds) = grind arith in
    let positive = elements-positive ds is p.1 in
    let rest : a * d ≤ a * d * elements ds = grind arith in
    let word : u64 (a * d) ≡ a * d = omega arith in
    rw (word, product_from-elements (a * d) ds is p.1 (omega arith)) same

-- The zeros behind the strides do not matter.
offset-append :
    (dtype : DType) (shape is zeros : List ℕ)
    → Position shape is
    → offset is ((strides_loop dtype shape).1 ++ zeros) ≡ offset is (strides_loop dtype shape).1
unfolding offset strides_loop
offset-append dtype [] [] zeros p = refl
offset-append dtype [] (i ∷ is) zeros p = elim p [ ]
offset-append dtype (d ∷ ds) [] zeros p = elim p [ ]
offset-append dtype (d ∷ ds) (i ∷ is) zeros p = rw (offset-append dtype ds is zeros p.1) refl

-- In a tensor of less than 4 GiB that `contiguous` accepts, the element at every position lies in
-- the buffer.
pub contiguous_in_bounds :
    (dtype : DType) (shape bytes is : List ℕ) (v : TensorView)
    → contiguous dtype shape bytes ≡ ok v
    → Position shape is
    → elements shape * itemsize dtype < 2 ^ 32
    → offset is v.strides + itemsize dtype ≤ length bytes
unfolding contiguous new byte_size
contiguous_in_bounds dtype shape bytes is v e p small =
    let q = strides_loop-Placed dtype shape is p small in
    let size : byte_size dtype shape ≡ length bytes = ground arith in
    let strides : v.strides ≡ pad (strides_loop dtype shape).1 = ground arith in
    let positive : 1 ≤ itemsize dtype = itemsize-positive dtype in
    let count : elements shape ≤ elements shape * itemsize dtype = grind arith in
    let exact : product_from 1 shape ≡ elements shape =
      omega (arith, product_from-elements 1 shape is p (omega arith)) in
    let total : byte_size dtype shape ≡ elements shape * itemsize dtype = rw exact (omega arith) in
    rw (strides, offset-append dtype shape is _ p) (omega (arith, q.inside))

-- Two digits behind a common base.
digits : (base i j a b : ℕ) → a < base → b < base → i * base + a ≡ j * base + b → (i ≡ j) × (a ≡ b)
digits base i j a b la lb e = elim (dec_lt i j) [
  | yes lt ↦ absurd (omega (arith, mul-le base (suc i) j lt))
  | no ge ↦ elim (dec_lt j i) [
    | yes gt ↦ absurd (omega (arith, mul-le base (suc j) i gt))
    | no le ↦ let same : i ≡ j = omega arith in (same, omega (arith, ap (λ (k : ℕ). k * base) same))
  ]
]

-- Two positions of a tensor of less than 4 GiB have the same place only if they are the same.
pub contiguous_injective :
    (dtype : DType) (shape is js : List ℕ)
    → Position shape is
    → Position shape js
    → elements shape * itemsize dtype < 2 ^ 32
    → offset is (strides_loop dtype shape).1 ≡ offset js (strides_loop dtype shape).1
    → is ≡ js
unfolding elements offset strides_loop
contiguous_injective dtype [] [] [] p q small e = refl
contiguous_injective dtype [] (i ∷ is) js p q small e = elim p [ ]
contiguous_injective dtype [] [] (j ∷ js) p q small e = elim q [ ]
contiguous_injective dtype (d ∷ ds) [] js p q small e = elim p [ ]
contiguous_injective dtype (d ∷ ds) (i ∷ is) [] p q small e = elim q [ ]
contiguous_injective dtype (d ∷ ds) (i ∷ is) (j ∷ js) p q small e =
    let block = elements ds * itemsize dtype in
    let rest : block ≤ d * block = omega (arith, mul-le block 1 d (omega arith)) in
    let same : d * elements ds * itemsize dtype ≡ d * block = grind arith in
    let left = strides_loop-Placed dtype ds is p.1 (omega arith) in
    let right = strides_loop-Placed dtype ds js q.1 (omega arith) in
    let word : u32 (strides_loop dtype ds).0 ≡ block = omega arith in
    let one = itemsize-positive dtype in
    let a = offset is (strides_loop dtype ds).1 in
    let b = offset js (strides_loop dtype ds).1 in
    let sum : i * block + a ≡ j * block + b = rw word at e in
    let split =
      digits block i j a b (omega (arith, left.inside)) (omega (arith, right.inside)) sum in
    rw (split.0, contiguous_injective dtype ds is js p.1 q.1 (omega arith) split.1) refl
