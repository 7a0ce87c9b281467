-- ===== src/Delivery/Lost.antt =====
-- Two orders of reservations, aborts and commits of ring.rs, and what a consumer sees of them.
use tenzor_bus.Common.{◌+◌, ℕ, ◌^◌, ◌<◌, ◌≡◌, true, false, some, arith}
use tenzor_bus.Common.Bits.{test_bit}
use tenzor_bus.Proto.{state_committed, seq_newer}
use tenzor_bus.Errors.{ok}
use tenzor_bus.Host.{Host}
use tenzor_bus.Mem.{Mem, Ring, Consumer}
use tenzor_bus.Registry.{consumer, is_dead}
use tenzor_bus.Registry.Register.{consumer-Registration}
use tenzor_bus.Producer.{Header, Reserved, attempt, abort, release_slot, commit, commit_slot}
use tenzor_bus.Producer.Reserve.{attempt-Reservation}
use tenzor_bus.Consumer.{TensorMeta, taken}
use tenzor_bus.Consumer.Scan.{is_pending}
use tenzor_bus.System.{writer_of}

-- A slot is reserved, then a consumer registers, then the reservation is aborted. The next slot
-- that is reserved and committed, if the consumer is not taken for dead by then, carries its reader
-- bit, and yet is not pending for it.
pub aborted_number_is_lost :
    (h g : Host) (r : Ring) (hd hd' : Header) (nbytes nbytes' : ℕ) (m : Mem) {m1 m2 m4 : Mem}
    {a b : Reserved} {c : Consumer}
    → m.next_seq < 2 ^ 62
    → attempt h r hd m ≡ (some a, m1)
    → consumer g r m1 ≡ (ok c, m2)
    → is_dead h (m2.entries c.index) ≡ false
    → attempt h r hd' (abort h (writer_of a nbytes) m2).1 ≡ (some b, m4)
    → (((commit (writer_of b nbytes') m4).1.slots b.slot).state ≡ state_committed)
      × (test_bit ((commit (writer_of b nbytes') m4).1.slots b.slot).mask c.index ≡ true)
      × (is_pending c ((commit (writer_of b nbytes') m4).1.slots b.slot) ≡ false)
unfolding commit commit_slot abort release_slot seq_newer
aborted_number_is_lost h g r hd hd' nbytes nbytes' m {m1} {m2} {m4} {a} {b} {c} low e reg_e alive
      e' =
    let v = attempt-Reservation h r hd m e in
    let reg = consumer-Registration g r m1 reg_e in
    let w = attempt-Reservation h r hd' (abort h (writer_of a nbytes) m2).1 e' in
    let back : (abort h (writer_of a nbytes) m2).1.next_seq ≡ m.next_seq =
      ground (arith, v.sequence, v.next_seq, reg.next_seq) in
    let last : c.last_sequence ≡ m.next_seq = ground (arith, reg.from_now, v.next_seq) in
    let bit : test_bit b.mask c.index ≡ true =
      ground (arith, w.readers c.index, reg.in_range, reg.active, alive) in
    (ground arith, ground (arith, w.written, bit), ground (arith, w.written, back, last))

-- Two slots are reserved, one after the other, and a consumer takes the later one first. Then the
-- earlier one, if its slot still has its number when it is committed, is never pending for the
-- consumer, whether its reader bit is set or not.
pub late_commit_is_lost :
    (h g : Host) (r : Ring) (hd hd' : Header) (nbytes : ℕ) (m : Mem) {m1 m2 : Mem} {a b : Reserved}
    (c : Consumer) (t : TensorMeta) (m3 : Mem)
    → m.next_seq < 2 ^ 62
    → attempt h r hd m ≡ (some a, m1)
    → attempt h r hd' m1 ≡ (some b, m2)
    → t.sequence ≡ b.sequence
    → (m3.slots a.slot).sequence ≡ a.sequence
    → (((commit (writer_of a nbytes) m3).1.slots a.slot).state ≡ state_committed)
      × (((commit (writer_of a nbytes) m3).1.slots a.slot).mask ≡ (m3.slots a.slot).mask)
      × (is_pending (taken g c t m3).0 ((commit (writer_of a nbytes) m3).1.slots a.slot) ≡ false)
unfolding commit commit_slot seq_newer
late_commit_is_lost h g r hd hd' nbytes m {m1} {m2} {a} {b} c t m3 low e e' took kept =
    let v = attempt-Reservation h r hd m e in
    let w = attempt-Reservation h r hd' m1 e' in
    let earlier : a.sequence ≡ m.next_seq = v.sequence in
    let later : t.sequence ≡ m.next_seq + 1 = omega (arith, w.sequence, v.next_seq) in
    (ground arith, ground arith, ground (arith, earlier, later))
