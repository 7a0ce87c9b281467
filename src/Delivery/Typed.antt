-- ===== src/Delivery/Typed.antt =====
-- The tensor that a consumer receives has the type that its metadata says.
use tenzor_bus.Common.{
  false, true, ℕ, ◌≤◌, ◌<◌, ◌^◌, ◌≡◌, refl, sym, ap, ◌∙◌, List, [], ◌∷◌, ◌++◌, some, length, take,
  arith,
}
use tenzor_bus.Proto.{DType, max_ndim, max_consumers}
use tenzor_bus.Host.{Host}
use tenzor_bus.Mem.{Mem, Ring, Consumer}
use tenzor_bus.Registry.{is_active, is_dead}
use tenzor_bus.Errors.{ok}
use tenzor_bus.Tensor.{TensorView, new, byte_size, pad}
use tenzor_bus.Producer.{Reserved, attempt, view_header}
use tenzor_bus.Consumer.{TensorMeta, steady, read_validated, lease_data}
use tenzor_bus.Delivery.{published, published_meta, publish_delivers}

take-append : (xs ys : List ℕ) → take (length xs) (xs ++ ys) ≡ xs
take-append [] ys = refl
take-append (x ∷ xs) ys = ap (λ l. x ∷ l) (take-append xs ys)

-- The bytes are as many as `byte_size`, a product modulo 2^64, gives for type and dimensions.
abbrev pub IsTyped : TensorMeta → List ℕ → Type 0
IsTyped t bytes =
    (t.ndim ≤ max_ndim)
    × (byte_size t.dtype (take t.ndim t.shape) ≡ length bytes)
    × (t.nbytes ≡ length bytes)

new-typed :
    (dtype : DType) (shape strides bytes : List ℕ) (v : TensorView)
    → new dtype shape strides bytes ≡ ok v
    → (v.ndim ≤ max_ndim) × (byte_size v.dtype (take v.ndim v.shape) ≡ length v.bytes)
unfolding new
new-typed dtype shape strides bytes v e =
    let rank : length shape ≤ max_ndim = ground arith in
    let size : byte_size dtype shape ≡ length bytes = ground arith in
    let dims : v.ndim ≡ length shape = ground arith in
    let padded : v.shape ≡ pad shape = ground arith in
    let type : v.dtype ≡ dtype = ground arith in
    let same : v.bytes ≡ bytes = ground arith in
    rw (type, dims, padded, same) (rank, ap (byte_size dtype) (take-append shape _) ∙ size)

-- Whatever shape, strides and bytes `TensorView::new` accepts: what a consumer that was registered
-- and alive then reads of the publication, if it fits into a slot, is a tensor of at most 8
-- dimensions with as many bytes as `byte_size` gives for its type and dimensions: the product,
-- modulo 2^64, of the dimensions and the size of an element.
pub received-IsTyped :
    (h : Host) (r : Ring) (m : Mem) (dtype : DType) (shape strides bytes : List ℕ) (v : TensorView)
    {a : Reserved} {m1 : Mem}
    → new dtype shape strides bytes ≡ ok v
    → attempt h r (view_header v) m ≡ (some a, m1)
    → (c : Consumer) → c.index < max_consumers
    → is_active (m.entries c.index) ≡ true
    → is_dead h (m.entries c.index) ≡ false
    → length v.bytes ≤ r.slot_capacity
    → r.slot_capacity < 2 ^ 64
    → (read_validated r c (steady (published v a m1)) a.slot a.sequence
        ≡ some (published_meta h v a))
      × IsTyped (published_meta h v a) (lease_data (published_meta h v a) (published v a m1))
received-IsTyped h r m dtype shape strides bytes v {a} {m1} accepted reserved c registered active
      alive fits small =
    let (rank, typed) = new-typed dtype shape strides bytes v accepted in
    let delivered = publish_delivers h r v m reserved c registered active alive rank fits small in
    let same = ap (λ (l : List ℕ). length l) (sym delivered.1) in
    (delivered.0, (rank, typed ∙ same, same))
