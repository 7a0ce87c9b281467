-- ===== src/Python/Lease.antt =====
-- rust/tenzorbus-py/src/lib.rs, `PyLease`: a lease that refuses its release while a view of the
-- slot is alive. The ring enters as the operation `release_raw` on a memory of any type.
pub mod Once
pub mod Ring
use Prim.Native.String.{String}
use tenzor_bus.Common.{
  ℕ, ◌+◌, ◌-◌, ◌≡◌, Bool, true, false, ltb, if◌then◌else◌, take, Option, none, some, List, [], ◌∷◌,
}
use tenzor_bus.Proto.{numpy_name}
use tenzor_bus.Errors.{Result, ok, err}
use tenzor_bus.Consumer.{TensorMeta}
use tenzor_bus.Python.Raise.{
  PyResult, returns, raises, runtime_error, buffer_error, lease_released, release_with_view,
  interpreter, map_py_err,
}

-- `exports` counts the views that the buffer protocol has handed out.
pub record PyLease : Type 0 where
  pub meta : Option TensorMeta
  pub len : ℕ
  pub exports : ℕ

-- `PyConsumer::next`, the lease that it makes of what `next_raw` returns.
abbrev pub new_lease : TensorMeta → PyLease
new_lease t = record { meta = some t; len = t.nbytes; exports = 0 }

-- `PyLease::meta`
abbrev pub meta_or_raise : Option TensorMeta → PyResult TensorMeta
meta_or_raise none = raises runtime_error lease_released
meta_or_raise (some t) = returns t

-- The getters: `get` picks the field.
abbrev pub getter {ℓ} : {A : Type ℓ} → (TensorMeta → A) → Option TensorMeta → PyResult A
getter get none = raises runtime_error lease_released
getter get (some t) = returns (get t)

module _ (l : PyLease) where
  unfoldable pub sequence : PyResult ℕ
  sequence = getter (λ t. t.sequence) l.meta

  unfoldable pub timestamp_ns : PyResult ℕ
  timestamp_ns = getter (λ t. t.timestamp_ns) l.meta

  unfoldable pub nbytes : PyResult ℕ
  nbytes = getter (λ t. t.nbytes) l.meta

  unfoldable pub slot_index : PyResult ℕ
  slot_index = getter (λ t. t.slot_index) l.meta

  unfoldable pub readers_remaining : PyResult ℕ
  readers_remaining = getter (λ t. t.readers_remaining) l.meta

  unfoldable pub dtype : PyResult String
  dtype = getter (λ t. numpy_name t.dtype) l.meta

  -- `&self.shape[..self.ndim]`
  unfoldable pub shape : PyResult (List ℕ)
  shape = getter (λ t. take t.ndim t.shape) l.meta

  unfoldable pub strides : PyResult (List ℕ)
  strides = getter (λ t. take t.ndim t.strides) l.meta

-- `__getbuffer__`; `filled` tells whether `PyBuffer_FillInfo` succeeds.
unfoldable pub get_buffer : Bool → PyLease → PyResult (Unit {0}) × PyLease
get_buffer filled l = elim (l.meta) [
  | none ↦ (raises buffer_error lease_released, l)
  | some t ↦
      if filled
      then (returns tt, record l { exports = l.exports + 1 })
      else (raises buffer_error interpreter, l)
]

-- `__releasebuffer__`
unfoldable pub release_buffer : PyLease → PyLease
release_buffer l = record l { exports = l.exports - 1 }

-- What happens to a lease while it exists: calls from Python, and what all others do to the memory
-- between them.
pub data Event (M : Type 0) : Type 0 where
  opens_view : Bool → Event M
  closes_view : Event M
  releases : Event M
  others : (M → M) → Event M

module _ {M : Type 0} (release_raw : TensorMeta → M → Result (Unit {0}) × M) where
  abbrev pub give_back : Option TensorMeta → PyLease → M → PyResult (Unit {0}) × PyLease × M
  give_back none l m = (returns tt, l, m)
  give_back (some t) l m =
      if ltb 0 l.exports
      then (raises buffer_error release_with_view, l, m)
      else let (res, m') = release_raw t m in (map_py_err res, record l { meta = none }, m')

  -- `release`, and `__exit__`, which calls it and returns `False`
  unfoldable pub release : PyLease → M → PyResult (Unit {0}) × PyLease × M
  release l m = give_back l.meta l m

  abbrev pub drop_meta : Option TensorMeta → M → M
  drop_meta none m = m
  drop_meta (some t) m = (release_raw t m).1

  -- `Drop for PyLease`
  unfoldable pub drop : PyLease → M → M
  drop l m = drop_meta l.meta m

  unfoldable pub event : Event M → PyLease → M → PyLease × M
  unfolding get_buffer release_buffer release
  event (opens_view filled) l m = ((get_buffer filled l).1, m)
  event closes_view l m = (release_buffer l, m)
  event releases l m = let (res, l', m') = release l m in (l', m')
  event (others f) l m = (l, f m)

  unfoldable pub events : List (Event M) → PyLease → M → PyLease × M
  events [] l m = (l, m)
  events (e ∷ es) l m = let (l', m') = event e l m in events es l' m'
