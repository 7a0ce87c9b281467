-- ===== src/Lib.antt =====
-- TenzorBus: a ring of tensors in shared memory. One producer process publishes, up to 64
-- consumer processes lease what is published, without a copy and without a server.
--
-- The parts, each with the module that models it (paths from the repository's root):
--   Proto      rust/tenzor-core/src/lib.rs: constants, element types, layout arithmetic (`align_up`
--              to `registry_entry_offset`, modulo 2^64), `seq_newer`; Places has every field with
--              its offset and the accessors' addresses
--   Errors     rust/tenzorbus/src/error.rs: `Error`, with the data of its messages
--   Host       rust/tenzorbus/src/shm.rs: `proc_stat`, `pid_alive_with_token` and their callers;
--              what the kernel answers is the record `Host`
--   Futex      rust/tenzorbus/src/futex.rs: `lock` and `unlock`, one atomic operation at a time.
--              Wakeup has `wait` and `signal` in the loop of `next_raw` against the end of
--              `publish`, Reclaim the same for a producer that waits against `release`
--   Mem        the mapping as records: the global header, the registry, the slots; the handles
--   Tensor     rust/tenzorbus/src/ring.rs: `TensorView`
--   Names      ring.rs: `safe_name`
--   Registry   ring.rs: `active_mask`, `drop_consumer_bit`, `reap_dead`, `producer`, `consumer`,
--              `close`, `sweep`
--   Producer   ring.rs: `reserve_header`, `publish`, `reserve`, `SlotWriter`
--   Consumer   ring.rs: `scan_oldest`, `try_take`, `read_validated`, `next_raw`, `release`, `Lease`
--   Create     ring.rs: `RingLayout::new`, `format`, the checks of `attach`, `stats`
--   Delivery   what connects `publish` with `next`
--   Shm        shm.rs: `create`, `attach`, `unlink`, `map_fd`, over the system calls, which are the
--              record `Kernel`
--   Handle     ring.rs: `Ring::create`, `attach`, `open_or_create`, `Drop for Inner`
--   Python     rust/tenzorbus-py/src/lib.rs: `PyLease`, `PySlotWriter`, `PyProducer::publish` and
--              `reserve`, `PyConsumer`, `PyRing`, `create`, `attach`, `unlink`, `to_py_err`; the
--              interpreter, NumPy and what other processes do between two calls are arguments
--   Bridge     integration/bridge/src/main.rs: `BusSink`, the arguments of the program, and `main`
--              from what it opens to what it closes; the engine is any sequence of calls of the sink
--   Lab        rust/tenzorbus/src/bin/tenzorbus-lab.rs: `fill` and `verify`, the arguments, and the
--              loops of `produce` and `consume`
--   Seqlock    ring.rs: one slot, with the single stores of `reserve_header`, `publish`,
--              `release_slot` and `reap_dead` and the single loads of `scan_oldest` and
--              `read_validated` in any order
--   System     all processes on one memory: every operation is a step, and the steps of different
--              processes come in any order; what is assumed of the steps stands there. Inbox is
--              the abstract view that the steps refine: a message per consumer and slot, and a
--              letter per writer with the consumers that it is for
--   Common     shared names, bits of a word, bounded loops
--   Tests      a run of the whole ring and the theorems at concrete values
-- Each has child modules named for what they prove.
--
-- An operation is a function from the memory before to the memory after, with its result. What
-- runs under the registry lock is one step; the lock-free operations (`try_take`, `release`,
-- `commit`) are one step each in System, while `try_take` and `read_validated` themselves take the
-- values that their loads see as an argument (`Reads`), so that each pass may see another state.
-- Seqlock takes the operations on one slot apart into their stores and loads: a run is a list of
-- events, each the next store of the producer or of whoever reaps, the next load of the consumer, or
-- a change from elsewhere, and a load sees the last store. There the producer has one reservation
-- at a time, as `publish` has, and numbers do not wrap. The lock itself is modelled in Futex, where
-- the threads' single operations interleave.
--
-- Machine integers are ℕ with `% 2 ^ w` written where the code can wrap. Loops over slots and
-- registry entries are bounded by their counts (`for_to`). The waiting loops of `publish`,
-- `reserve` and `next_raw` run along a list of rounds (`Tick`): the clock that is read, and what
-- the other processes do to the memory meanwhile; the list is long enough when its clock reaches
-- the deadline, and `none` says that the list was too short.
--
-- The sequence numbers wrap at 2^64 in the model as in the code; what is said of inboxes and of
-- the order of numbers is said of the first 2^61 steps of a ring, in which none wraps.
--
-- Not modelled: memory orderings weaker than the order of the events in which Seqlock, Futex and
-- System interleave; of the Python bindings what only calls NumPy and PyTorch (`numpy`, `torch`,
-- `copy`) and the texts; of the media bridge the engine that `main` calls,
-- which is another repository, and the report; of the lab its pauses, `rusage` and what it prints;
-- the crate root, which only passes names on and refuses other targets.
pub mod Common
pub mod Proto
pub mod Errors
pub mod Host
pub mod Mem
pub mod Registry
pub mod Tensor
pub mod Producer
pub mod Consumer
pub mod Delivery
pub mod Create
pub mod Futex
pub mod Names
pub mod Shm
pub mod Handle
pub mod Seqlock
pub mod System
pub mod Lab
pub mod Python
pub mod Bridge
pub mod Tests
