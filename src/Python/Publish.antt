-- ===== src/Python/Publish.antt =====
-- rust/tenzorbus-py/src/lib.rs: `PyProducer::publish` and `reserve`, `PyConsumer::next`.
-- What NumPy makes of an array is an argument.
pub mod Refusal
use Prim.Native.String.{String}
use text.Mathlib.Text.{◌==◌ as str_eq}
use tenzor_bus.Common.{ℕ, if◌then◌else◌, Option, none, some, List, [], ◌∷◌}
use tenzor_bus.Proto.{DType, from_numpy_name}
use tenzor_bus.Errors.{Result, ok, err}
use tenzor_bus.Host.{Host}
use tenzor_bus.Mem.{Mem, Ring, Consumer}
use tenzor_bus.Tensor.{TensorView, contiguous, with_timestamp_ns}
use tenzor_bus.Producer.{
  Backpressure, block, drop_newest, PublishResult, SlotWriter, Outcome, Tick, publish, reserve,
}
use tenzor_bus.Consumer.{TensorMeta, next_raw}
use tenzor_bus.Python.Raise.{
  PyResult, returns, raises, value_error, bad_policy, unsupported_dtype, interpreter, Class,
  Message, to_py_err,
}
use tenzor_bus.Python.Lease.{PyLease, new_lease}
use tenzor_bus.Python.Writer.{PySlotWriter, new_writer}

-- The array that `numpy.ascontiguousarray` returns: the text of its dtype, its shape, if every
-- dimension fits 32 bits, and what `FlatBuffer::acquire` gives of it.
pub record NdArray : Type 0 where
  pub dtype_name : String
  pub shape : List ℕ
  pub buffer : PyResult (List ℕ)

-- `match policy { "block" => …, "drop_newest" => …, other => … }`
unfoldable pub parse_policy : String → Option Backpressure
parse_policy s =
    if str_eq s "block"
    then some block
    else if str_eq s "drop_newest"
    then some drop_newest
    else none

-- The dict of a publication.
pub record Published : Type 0 where
  pub result : PublishResult
  pub timestamp_ns : Option ℕ

-- A call that may still be waiting, `none`, with the memory.
abbrev pub Waiting : Type 0 → Type 0
Waiting A = Option (PyResult A × Mem)

abbrev pub stamped : Option ℕ → TensorView → TensorView
stamped none v = v
stamped (some ns) v = with_timestamp_ns v ns

-- The dict is built as long as the interpreter has the memory for it.
abbrev pub describe : TensorView → Outcome PublishResult → Waiting (Option Published)
describe v none = none
describe v (some (err e, m)) = some (to_py_err e, m)
describe v (some (ok none, m)) = some (returns none, m)
describe v (some (ok (some p), m)) =
    some (returns (some (record { result = p; timestamp_ns = v.timestamp_ns })), m)

module _ (h : Host) (r : Ring) where
  module _ (deadline : ℕ) (copying : Mem → Mem) (ticks : List Tick) where
    abbrev pub publish_view :
        Result TensorView → Backpressure → Option ℕ → Mem → Waiting (Option Published)
    publish_view (err e) policy timestamp_ns m = some (to_py_err e, m)
    publish_view (ok v) policy timestamp_ns m =
        let v' = stamped timestamp_ns v in
        describe v' (publish h r v' policy deadline copying ticks m)

    abbrev pub publish_flat :
        DType
        → List ℕ
        → PyResult (List ℕ)
        → Backpressure
        → Option ℕ
        → Mem
        → Waiting (Option Published)
    publish_flat dtype shape (raises c e) policy timestamp_ns m = some (raises c e, m)
    publish_flat dtype shape (returns bytes) policy timestamp_ns m =
        publish_view (contiguous dtype shape bytes) policy timestamp_ns m

    abbrev pub publish_array :
        NdArray → Option DType → Backpressure → Option ℕ → Mem → Waiting (Option Published)
    publish_array a none policy timestamp_ns m =
        some (raises value_error (unsupported_dtype a.dtype_name), m)
    publish_array a (some dtype) policy timestamp_ns m =
        publish_flat dtype a.shape a.buffer policy timestamp_ns m

    -- A NumPy call or the extraction of the shape that raises ends the call.
    abbrev pub publish_with :
        String
        → Option Backpressure
        → PyResult NdArray
        → Option ℕ
        → Mem
        → Waiting (Option Published)
    publish_with text none array timestamp_ns m = some (raises value_error (bad_policy text), m)
    publish_with text (some policy) (raises c e) timestamp_ns m = some (raises c e, m)
    publish_with text (some policy) (returns a) timestamp_ns m =
        publish_array a (from_numpy_name a.dtype_name) policy timestamp_ns m

    -- `PyProducer::publish`
    unfoldable pub py_publish :
        PyResult NdArray → String → Option ℕ → Mem → Waiting (Option Published)
    py_publish array policy timestamp_ns m =
        publish_with policy (parse_policy policy) array timestamp_ns m

  module _ (deadline : ℕ) (ticks : List Tick) where
    abbrev pub hand_out : DType → List ℕ → Outcome SlotWriter → Waiting (Option PySlotWriter)
    hand_out dtype shape none = none
    hand_out dtype shape (some (err e, m)) = some (to_py_err e, m)
    hand_out dtype shape (some (ok none, m)) = some (returns none, m)
    hand_out dtype shape (some (ok (some w), m)) =
        some (returns (some (new_writer dtype shape w)), m)

    abbrev pub reserve_with :
        String
        → String
        → Option Backpressure
        → Option DType
        → List ℕ
        → Mem
        → Waiting (Option PySlotWriter)
    reserve_with text name none dt shape m = some (raises value_error (bad_policy text), m)
    reserve_with text name (some policy) none shape m =
        some (raises value_error (unsupported_dtype name), m)
    reserve_with text name (some policy) (some dt) shape m =
        hand_out dt shape (reserve h r dt shape policy deadline ticks m)

    -- `PyProducer::reserve`
    unfoldable pub py_reserve : String → List ℕ → String → Mem → Waiting (Option PySlotWriter)
    py_reserve dtype shape policy m =
        reserve_with policy dtype (parse_policy policy) (from_numpy_name dtype) shape m

    abbrev pub as_lease :
        Option (Result TensorMeta × Consumer × Mem) → Option (PyResult PyLease × Consumer × Mem)
    as_lease none = none
    as_lease (some (err e, c, m)) = some (to_py_err e, c, m)
    as_lease (some (ok t, c, m)) = some (returns (new_lease t), c, m)

    -- `PyConsumer::next`
    unfoldable pub py_next : Consumer → Mem → Option (PyResult PyLease × Consumer × Mem)
    py_next c m = as_lease (next_raw h r deadline ticks c m)
