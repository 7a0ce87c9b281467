-- ===== src/Python/Raise.antt =====
-- rust/tenzorbus-py/src/lib.rs: the exceptions, and `to_py_err`. A message is kept as its kind.
use Prim.Native.String.{String}
use tenzor_bus.Errors.{IoError, Error, ring_full, timeout, invalid, Invalidity, Result, ok, err}

-- `PyValueError`, `PyRuntimeError`, `PyTimeoutError`, `PyBufferError`
pub data Class : Type 0 where
  value_error runtime_error timeout_error buffer_error : Class

pub data Message : Type 0 where
  of_error : Error → Message
  of_invalid : Invalidity → Message
  of_io : IoError → Message
  bad_policy : String → Message
  unsupported_dtype : String → Message
  writer_finished : Message
  commit_with_view : Message
  abort_with_view : Message
  lease_released : Message
  release_with_view : Message
  -- `PyErr::fetch` and `?` on a call of the interpreter
  interpreter : Message

pub data PyResult {ℓ} (A : Type ℓ) : Type ℓ where
  returns : A → PyResult A
  raises : Class → Message → PyResult A

unfoldable pub to_py_err {ℓ} : {A : Type ℓ} → Error → PyResult A
to_py_err timeout = raises timeout_error (of_error timeout)
to_py_err ring_full = raises runtime_error (of_error ring_full)
to_py_err (invalid m) = raises value_error (of_invalid m)
to_py_err other = raises runtime_error (of_error other)

-- `.map_err(to_py_err)`
abbrev pub map_py_err {ℓ} : {A : Type ℓ} → Result A → PyResult A
map_py_err (ok a) = returns a
map_py_err (err e) = to_py_err e
