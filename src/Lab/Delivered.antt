-- ===== src/Lab/Delivered.antt =====
-- From `produce` to `consume` of the lab, through the ring.
use tenzor_bus.Common.{
  ℕ, ◌≤◌, ◌<◌, ◌^◌, ◌≡◌, sym, ap, ◌∙◌, Bool, true, false, none, some, length, arith,
}
use tenzor_bus.Proto.{max_ndim, max_consumers}
use tenzor_bus.Host.{Host}
use tenzor_bus.Mem.{Mem, Ring, Consumer}
use tenzor_bus.Registry.{is_active, is_dead}
use tenzor_bus.Errors.{ok}
use tenzor_bus.Tensor.{TensorView, contiguous, new}
use tenzor_bus.Producer.{Reserved, attempt, view_header}
use tenzor_bus.Producer.Reserve.{attempt-Reservation}
use tenzor_bus.Consumer.{TensorMeta, read_validated, steady, lease_data}
use tenzor_bus.Delivery.{published, published_meta, publish_delivers}
use tenzor_bus.Lab.{fill, verify, as_bytes, as_elements, view_of}
use tenzor_bus.Lab.Payload.{elements_of_fill, fill_is_verified}

view_of-bytes :
    (vary : Bool) (seq n : ℕ) (v : TensorView)
    → view_of vary seq n ≡ ok v
    → (v.bytes ≡ as_bytes (fill seq n)) × (v.ndim ≤ max_ndim)
unfolding view_of contiguous new
view_of-bytes vary seq n v e = ground arith

-- What the lab publishes under the ring's next number is read by every consumer that was registered
-- and alive, if it fits into a slot, and passes the lab's check there: the elements of the lease
-- that the consumer gets are those that `fill` writes for the number of the lease.
pub published_fill_verifies :
    (h : Host) (r : Ring) (m : Mem) (vary : Bool) (n : ℕ) (v : TensorView) {a : Reserved} {m1 : Mem}
    → view_of vary m.next_seq n ≡ ok v
    → attempt h r (view_header v) m ≡ (some a, m1)
    → (c : Consumer) → c.index < max_consumers
    → is_active (m.entries c.index) ≡ true
    → is_dead h (m.entries c.index) ≡ false
    → length v.bytes ≤ r.slot_capacity
    → r.slot_capacity < 2 ^ 64
    → (t : TensorMeta) × (read_validated r c (steady (published v a m1)) a.slot a.sequence ≡ some t)
      × (t.sequence ≡ m.next_seq)
      × (verify t.sequence (as_elements (lease_data t (published v a m1))) ≡ none)
      × (as_elements (lease_data t (published v a m1)) ≡ fill t.sequence n)
published_fill_verifies h r m vary n v {a} {m1} view reserved c registered active alive fits small =
    let (bytes, rank) = view_of-bytes vary m.next_seq n v view in
    let delivered = publish_delivers h r v m reserved c registered active alive rank fits small in
    let number = (attempt-Reservation h r (view_header v) m reserved).sequence in
    let elements : as_elements (lease_data (published_meta h v a) (published v a m1))
        ≡ fill a.sequence n =
      ap as_elements (delivered.1 ∙ bytes)
      ∙ elements_of_fill m.next_seq n
      ∙ ap (λ s. fill s n) (sym number) in
    (
      published_meta h v a,
      delivered.0,
      number,
      ap (verify a.sequence) elements ∙ fill_is_verified a.sequence n,
      elements,
    )
