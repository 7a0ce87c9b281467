-- ===== src/Registry/Close.antt =====
-- How a consumer leaves the registry.
use tenzor_bus.Common.{ℕ, ◌-◌, ◌<◌, ◌≡◌, true, false, ◌==◌, if◌then◌else◌, map_below, arith}
use tenzor_bus.Common.Bits.{test_bit}
use tenzor_bus.Proto.{registry_free}
use tenzor_bus.Host.{Host}
use tenzor_bus.Mem.{Mem, Ring, Consumer, lock_registry}
use tenzor_bus.Registry.{clear_reader, close}
use tenzor_bus.Registry.Drop.{drop_consumer_bit-eq, test_bit-clear_reader}

module _ (h : Host) (r : Ring) (c : Consumer) (m : Mem) where
  -- The memory after the first `close` of a handle.
  pub record Closed (m' : Mem) : Type 0 where
    pub slots : (j : ℕ) → m'.slots j ≡ map_below r.slot_count (clear_reader c.index) m.slots j
    pub entries :
        (i : ℕ)
        → m'.entries i
          ≡ (if c.index == i then record (m.entries i) { state = registry_free } else m.entries i)
    pub consumers : m'.consumers ≡ m.consumers - 1
    pub next_seq : m'.next_seq ≡ m.next_seq

  -- The first `close` of a handle frees its entry and takes its bit from every slot; it changes no
  -- tensor and no other entry.
  pub close-Closed : c.closed ≡ false → Closed (close h r c m).1
  unfolding close
  close-Closed e =
      let dropped = drop_consumer_bit-eq r c.index (lock_registry h m) in
      record {
        slots = λ j. ground (arith, dropped);
        entries = λ i. ground (arith, dropped);
        consumers = ground (arith, dropped);
        next_seq = ground (arith, dropped);
      }

  -- A second `close` does nothing.
  pub close_twice : c.closed ≡ true → close h r c m ≡ (c, m)
  unfolding close
  close_twice e = rw e

  -- After a `close` no slot has the consumer's bit.
  pub close-clears :
      (j : ℕ)
      → j < r.slot_count
      → c.closed ≡ false
      → test_bit ((close h r c m).1.slots j).mask c.index ≡ false
  close-clears j lt e =
      let closed = close-Closed e in
      ground (arith, closed.slots j, test_bit-clear_reader c.index (m.slots j) c.index)
