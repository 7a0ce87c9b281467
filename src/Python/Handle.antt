-- ===== src/Python/Handle.antt =====
-- rust/tenzorbus-py/src/lib.rs: `create`, `attach` and `unlink`, and what `PyRing` and `PyConsumer`
-- hand on to the ring.
pub mod Unlink
use tenzor_bus.Common.{ℕ, Bool, true, false, List}
use tenzor_bus.Errors.{Result}
use tenzor_bus.Host.{Host}
use tenzor_bus.Mem.{Mem, Ring, Consumer}
use tenzor_bus.Registry.{close}
use tenzor_bus.Registry
use tenzor_bus.Create.{RingOptions}
use tenzor_bus.Shm.{Kernel, IoResult, fine, fault}
use tenzor_bus.Shm
use tenzor_bus.Handle.{Memory, Inner}
use tenzor_bus.Handle as ring_handle
use tenzor_bus.Python.Raise.{PyResult, returns, raises, runtime_error, of_io, map_py_err}

module _ {K : Type 0} (memory : Memory K) where
  -- `create`
  unfoldable pub py_create : List ℕ → ℕ → ℕ → Bool → K → PyResult Inner × K
  py_create name slots slot_bytes force k =
      let (res, k') =
        ring_handle.create memory name
          (record { slot_count = slots; slot_capacity = slot_bytes; force = force }) k in
      (map_py_err res, k')

  -- `attach`
  unfoldable pub py_attach : List ℕ → K → PyResult Inner × K
  py_attach name k = let (res, k') = ring_handle.attach memory name k in (map_py_err res, k')

  abbrev pub raised_io : IoResult (Unit {0}) → PyResult (Unit {0})
  raised_io (fine u) = returns u
  raised_io (fault e) = raises runtime_error (of_io e)

  -- `unlink`, of the name as it is given
  unfoldable pub py_unlink : List ℕ → K → PyResult (Unit {0}) × K
  py_unlink name k = let (res, k') = Shm.unlink memory.kernel name k in (raised_io res, k')

module _ (h : Host) where
  -- `PyRing::producer`; the handle is the number of producers of this process.
  unfoldable pub py_producer : ℕ → Mem → PyResult ℕ × Mem
  py_producer producers m = let (res, m') = Registry.producer h producers m in (map_py_err res, m')

  -- `PyRing::consumer`
  unfoldable pub py_consumer : Ring → Mem → PyResult Consumer × Mem
  py_consumer r m = let (res, m') = Registry.consumer h r m in (map_py_err res, m')

  -- `PyConsumer::__exit__`
  unfoldable pub py_consumer_exit : Ring → Consumer → Mem → Bool × Mem
  py_consumer_exit r c m = (false, (close h r c m).1)

  -- `PyConsumer::close`
  unfoldable pub py_consumer_close : Ring → Consumer → Mem → Mem
  py_consumer_close r c m = (close h r c m).1

-- The getters of `PyConsumer`.
unfoldable pub py_index : Consumer → ℕ
py_index c = c.index

unfoldable pub py_generation : Consumer → ℕ
py_generation c = c.generation

unfoldable pub py_last_sequence : Consumer → ℕ
py_last_sequence c = c.last_sequence
