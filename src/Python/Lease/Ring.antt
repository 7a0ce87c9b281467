-- ===== src/Python/Lease/Ring.antt =====
-- A Python lease on the ring itself, and the `close` of its consumer.
use tenzor_bus.Common.{ℕ, ◌<◌, ◌≡◌, ◌≢◌, ap, true, false, none, some, arith}
use tenzor_bus.Common.Bits.{test_bit, no_bits}
use tenzor_bus.Proto.{state_committed}
use tenzor_bus.Errors.{lease_violation, released_twice}
use tenzor_bus.Host.{Host}
use tenzor_bus.Mem.{Mem, Ring, Consumer}
use tenzor_bus.Registry.{is_abandoned, close}
use tenzor_bus.Registry.Close.{close-Closed}
use tenzor_bus.Registry.Drop.{test_bit-clear_reader}
use tenzor_bus.Producer.{Header, attempt}
use tenzor_bus.Producer.Reserve.{attempt-none, attempt-none-Reaped}
use tenzor_bus.Consumer.{TensorMeta}
use tenzor_bus.Consumer
use tenzor_bus.Python.Raise.{raises, runtime_error, of_error, to_py_err}
use tenzor_bus.Python.Lease.{PyLease, release, release_buffer}
use tenzor_bus.Python.Handle.{py_consumer_close}

-- An attempt succeeds if there is a committed slot that nobody reads.
unread_is_reserved :
    (g : Host) (r : Ring) (hd : Header) (m : Mem) (j : ℕ)
    → j < r.slot_count
    → (m.slots j).state ≡ state_committed
    → ((b : ℕ) → test_bit (m.slots j).mask b ≡ false)
    → (attempt g r hd m).0 ≢ none
unread_is_reserved g r hd m j lt committed unread failed =
    let m' = (attempt g r hd m).1 in
    let e : attempt g r hd m ≡ (none, m') = ap (λ z. (z, m')) failed in
    let p = attempt-none-Reaped g r hd m e in
    let whole : is_abandoned g (m.slots j) ≡ false = ground arith in
    let empty : (m'.slots j).mask ≡ 0 =
      no_bits (m'.slots j).mask (λ b. ground (arith, p.bits j b lt whole, unread b)) in
    let same = p.tensors j whole in
    let kept = (attempt-none g r hd m j e lt).2 in ground (arith, same, empty, kept, committed)

module _ (h : Host) (r : Ring) (c : Consumer) (m : Mem) (l : PyLease) (t : TensorMeta)
    (only : (b : ℕ) → test_bit (m.slots t.slot_index).mask b ≡ true → b ≡ c.index) where
  -- After the close nobody reads the slot.
  closed_unread :
      c.closed ≡ false
      → t.slot_index < r.slot_count
      → (b : ℕ) → test_bit ((close h r c m).1.slots t.slot_index).mask b ≡ false
  closed_unread fresh in_range b =
      let closed = close-Closed h r c m fresh in
      ground (
        arith,
        closed.slots t.slot_index,
        test_bit-clear_reader c.index (m.slots t.slot_index) b,
        only b,
      )

  -- `PyConsumer.close` knows nothing of the leases of its consumer and of their views. If the
  -- consumer is the only reader of a slot that it has leased, and a view of the lease is alive, then
  -- after its first `close` the next attempt of any process to reserve a slot succeeds, if only with
  -- this one; and when the view is gone, the release of the lease raises `LeaseViolation`.
  pub close_under_view :
      l.meta ≡ some t
      → l.exports ≡ 1
      → c.closed ≡ false
      → t.slot_index < r.slot_count
      → (m.slots t.slot_index).state ≡ state_committed
      → (m.slots t.slot_index).sequence ≡ t.sequence
      → ((g : Host) (hd : Header) → (attempt g r hd (py_consumer_close h r c m)).0 ≢ none)
        × ((release (Consumer.release h c) (release_buffer l) (py_consumer_close h r c m)).0
            ≡ raises runtime_error (of_error (lease_violation released_twice)))
  unfolding py_consumer_close release release_buffer Consumer.release to_py_err
  close_under_view held viewed fresh in_range committed number =
      let closed = close-Closed h r c m fresh in
      let unread = closed_unread fresh in_range in
      let state : ((close h r c m).1.slots t.slot_index).state ≡ state_committed =
        ground (arith, closed.slots t.slot_index) in
      let same : ((close h r c m).1.slots t.slot_index).sequence ≡ t.sequence =
        ground (arith, closed.slots t.slot_index) in
      (
        λ g hd. unread_is_reserved g r hd (close h r c m).1 t.slot_index in_range state unread,
        rw held (ground (arith, unread c.index)),
      )
