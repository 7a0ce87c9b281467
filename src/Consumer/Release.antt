-- ===== src/Consumer/Release.antt =====
-- How a lease ends.
use tenzor_bus.Common.{
  sym, sym, ◌⊎◌, ℕ, ◌+◌, ◌≡◌, ◌≢◌, ◌↔◌, true, false, if◌then◌else◌, ◌==◌, arith, u32,
}
use tenzor_bus.Common.Bits.{test_bit, clear_bit, test_bit-clear_bit}
use tenzor_bus.Errors.{ok, err, lease_violation, released_twice, recycled}
use tenzor_bus.Host.{Host}
use tenzor_bus.Mem.{Mem, Consumer}
use tenzor_bus.Registry.Drop.{test_bit-clear_reader}
use tenzor_bus.Registry.Reap.{SameTensor, IsCounted, clear_reader-IsCounted}
use tenzor_bus.Consumer.{Result, TensorMeta, release}

module _ (h : Host) (c : Consumer) (t : TensorMeta) (m : Mem) where
  -- A release succeeds exactly if the slot still carries the leased publication and the consumer
  -- has not given its bit back.
  pub release_iff : ((release h c t m).0 ≡ ok tt) ↔ (
      ((m.slots t.slot_index).sequence ≡ t.sequence)
      × (test_bit (m.slots t.slot_index).mask c.index ≡ true))
  unfolding release
  release_iff = (λ e. ground arith, λ e. ground arith)

  -- What a successful release leaves behind.
  pub record Released (m' : Mem) : Type 0 where
    pub tensors : (j : ℕ) → SameTensor (m.slots j) (m'.slots j)
    pub bits :
        (j b : ℕ)
        → test_bit (m'.slots j).mask b ≡ (
            if t.slot_index == j
            then (if c.index == b then false else test_bit (m.slots j).mask b)
            else test_bit (m.slots j).mask b)
    pub counted : (j : ℕ) → IsCounted (m.slots j) → IsCounted (m'.slots j)
    pub states : (i : ℕ) → (m'.entries i).state ≡ (m.entries i).state
    pub pids : (i : ℕ) → (m'.entries i).pid ≡ (m.entries i).pid
    pub next_seq : m'.next_seq ≡ m.next_seq
    pub reclaim : m'.reclaim_futex ≡ (
        if clear_bit (m.slots t.slot_index).mask c.index == 0
        then u32 (m.reclaim_futex + 1)
        else m.reclaim_futex)

  -- A successful release takes the consumer's bit from the leased slot, keeps every other bit and
  -- every tensor, and wakes the producer exactly if no reader is left.
  pub release-Released : (release h c t m).0 ≡ ok tt → Released (release h c t m).1
  unfolding release
  release-Released e =
      let (same, set) = release_iff.0 e in
      record {
        tensors = λ j. ground arith;
        bits = λ j b. ground (arith, test_bit-clear_reader c.index (m.slots j) b);
        counted = λ j q. ground (arith, clear_reader-IsCounted c.index (m.slots j) q);
        states = λ i. ground arith;
        pids = λ i. ground arith;
        next_seq = ground arith;
        reclaim = ground arith;
      }

  -- How a release ends.
  abbrev pub Ends : Result (Unit {0}) × Mem → Type 0
  Ends (ok u, m') =
      ((m.slots t.slot_index).sequence ≡ t.sequence)
      × (test_bit (m.slots t.slot_index).mask c.index ≡ true)
      × Released m'
  Ends (err e, m') =
      (m' ≡ m)
      × (((e ≡ lease_violation (recycled t.slot_index t.sequence))
            × ((m.slots t.slot_index).sequence ≢ t.sequence))
          ⊎ ((e ≡ lease_violation released_twice)
              × ((m.slots t.slot_index).sequence ≡ t.sequence)
              × (test_bit (m.slots t.slot_index).mask c.index ≡ false)))

-- A lease is released once: a second release is refused.
pub release_twice :
    (h : Host) (c : Consumer) (t : TensorMeta) (m : Mem)
    → (release h c t m).0 ≡ ok tt
    → (release h c t (release h c t m).1).0 ≡ err (lease_violation released_twice)
unfolding release
release_twice h c t m e =
    let (same, set) = (release_iff h c t m).0 e in
    ground (arith, test_bit-clear_bit (m.slots t.slot_index).mask c.index c.index)

-- A release of a lease whose slot was recycled is refused and changes nothing.
pub release_recycled :
    (h : Host) (c : Consumer) (t : TensorMeta) (m : Mem)
    → (m.slots t.slot_index).sequence ≢ t.sequence
    → release h c t m ≡ (err (lease_violation (recycled t.slot_index t.sequence)), m)
unfolding release
release_recycled h c t m ne = ground arith
