-- ===== src/Lab/Payload.antt =====
-- What the payload check of the lab finds.
use tenzor_bus.Common.{
  ℕ, zero, suc, ◌+◌, ◌*◌, ◌/◌, ◌%◌, ◌^◌, ◌≤◌, ◌<◌, ◌≡◌, ◌≢◌, ◌↔◌, refl, sym, ap, ◌∙◌, Bool,
  Bool-cases, ne→neb, inl, inr, ◌&&◌, ◌==◌, u32, none, some, List, [], ◌∷◌, length, arith,
}
use tenzor_bus.Proto.{DType, i32, itemsize, max_ndim}
use tenzor_bus.Errors.{ok}
use tenzor_bus.Tensor.{TensorView, contiguous, new, pad, byte_size, strides_loop}
use tenzor_bus.Lab.{
  base_of, element, fill_from, fill, verify_from, verify, as_bytes, as_elements, view_of,
}

verify_from-fill :
    (base i : ℕ) (vs : List ℕ) → verify_from base i vs ≡ none → vs ≡ fill_from base i (length vs)
unfolding verify_from fill_from
verify_from-fill base i [] e = refl
verify_from-fill base i (v ∷ vs) e = ground (arith, verify_from-fill base (i + 1) vs)

fill_from-verify : (base i k : ℕ) → verify_from base i (fill_from base i k) ≡ none
unfolding verify_from fill_from
fill_from-verify base i zero = refl
fill_from-verify base i (suc k) = ground (arith, fill_from-verify base (i + 1) k)

-- The check of a payload passes exactly if the payload is what `fill` writes for the number.
pub verify_iff_fill : (seq : ℕ) (vs : List ℕ) → (verify seq vs ≡ none) ↔ (vs ≡ fill seq (length vs))
unfolding verify fill
verify_iff_fill seq vs = (
  verify_from-fill (base_of seq) 0 vs,
  λ e. ap (verify_from (base_of seq) 0) e ∙ fill_from-verify (base_of seq) 0 (length vs),
)

-- 1_000_003 is odd, so the base tells the numbers apart modulo 2^32.
base_of-injective : (s t : ℕ) → base_of s ≡ base_of t → s % 2 ^ 32 ≡ t % 2 ^ 32
unfolding base_of
base_of-injective s t e = omega arith

base_of-lt : (s : ℕ) → base_of s < 2 ^ 32
unfolding base_of
base_of-lt s = omega arith

-- A payload that was written for a number that differs modulo 2^32 fails at its first element.
pub stale_payload_is_found :
    (s t n : ℕ) → 0 < n → s % 2 ^ 32 ≢ t % 2 ^ 32 → verify s (fill t n) ≡ some 0
unfolding verify fill verify_from fill_from
stale_payload_is_found s t zero lt ne = absurd (omega arith)
stale_payload_is_found s t (suc n) lt ne =
    let d : element (base_of t) 0 ≢ element (base_of s) 0 =
      λ e. ne (base_of-injective s t (omega (arith, base_of-lt s, base_of-lt t))) in
    rw (ne→neb _ _ d) refl

length-fill_from : (base i k : ℕ) → length (fill_from base i k) ≡ k
unfolding fill_from
length-fill_from base i zero = refl
length-fill_from base i (suc k) = ap suc (length-fill_from base (i + 1) k)

word_of_bytes :
    (x : ℕ)
    → x < 2 ^ 32
    → x % 256 + 256 * (x / 256 % 256) + 65536 * (x / 65536 % 256) + 16777216 * (x / 16777216 % 256)
      ≡ x
word_of_bytes x h = omega arith

-- The elements come back from their bytes.
elements_of_bytes :
    (base i k : ℕ) → as_elements (as_bytes (fill_from base i k)) ≡ fill_from base i k
unfolding as_elements as_bytes fill_from
elements_of_bytes base i zero = refl
elements_of_bytes base i (suc k) =
    rw (word_of_bytes (element base i) (omega arith), elements_of_bytes base (i + 1) k) refl

pub elements_of_fill : (seq n : ℕ) → as_elements (as_bytes (fill seq n)) ≡ fill seq n
unfolding fill
elements_of_fill seq n = elements_of_bytes (base_of seq) 0 n

pub fill_is_verified : (seq n : ℕ) → verify seq (fill seq n) ≡ none
unfolding verify fill
fill_is_verified seq n = fill_from-verify (base_of seq) 0 n

length-as_bytes : (vs : List ℕ) → length (as_bytes vs) ≡ 4 * length vs
unfolding as_bytes
length-as_bytes [] = refl
length-as_bytes (v ∷ vs) = omega (arith, length-as_bytes vs)

length-payload : (seq n : ℕ) → length (as_bytes (fill seq n)) ≡ 4 * n
unfolding fill
length-payload seq n =
    length-as_bytes (fill_from (base_of seq) 0 n)
    ∙ ap (λ k. 4 * k) (length-fill_from (base_of seq) 0 n)

-- What `TensorView::new` asks for.
new-accepts :
    (dtype : DType) (shape strides bytes : List ℕ)
    → length shape ≤ max_ndim
    → length strides ≡ length shape
    → byte_size dtype shape ≡ length bytes
    → (v : TensorView) × (new dtype shape strides bytes ≡ ok v)
      × (v.bytes ≡ bytes)
      × (v.ndim ≤ max_ndim)
unfolding new
new-accepts dtype shape strides bytes rank same size = (
  record {
    dtype = dtype;
    ndim = length shape;
    shape = pad shape;
    strides = pad strides;
    bytes = bytes;
    timestamp_ns = none;
  },
  ground arith,
  refl,
  rank,
)

split_size : (n : ℕ) → n < 2 ^ 32 → n % 4 ≡ 0 → byte_size i32 (u32 (n / 4) ∷ 4 ∷ []) ≡ 4 * n
unfolding byte_size itemsize
split_size n small e = omega arith

flat_size : (n : ℕ) → n < 2 ^ 32 → byte_size i32 (u32 n ∷ []) ≡ 4 * n
unfolding byte_size itemsize
flat_size n small = omega arith

-- Whatever number and size below 2^32 the lab publishes, varied or not, the view is accepted with
-- the payload's bytes and fits the protocol's number of dimensions, so `expect` does not panic.
pub view_of-accepted :
    (vary : Bool) (seq n : ℕ)
    → n < 2 ^ 32
    → (v : TensorView) × (view_of vary seq n ≡ ok v)
      × (v.bytes ≡ as_bytes (fill seq n))
      × (v.ndim ≤ max_ndim)
unfolding view_of contiguous strides_loop
view_of-accepted vary seq n small = elim (Bool-cases (vary && n % 4 == 0)) [
  | inl split ↦ rw split (
      new-accepts i32 (u32 (n / 4) ∷ 4 ∷ []) _ _ (omega arith) refl
        (split_size n small (ground arith) ∙ sym (length-payload seq n)))
  | inr flat ↦ rw flat (
      new-accepts i32 (u32 n ∷ []) _ _ (omega arith) refl
        (flat_size n small ∙ sym (length-payload seq n)))
]
