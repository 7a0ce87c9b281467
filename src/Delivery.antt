-- ===== src/Delivery.antt =====
-- From `publish` to `next`: what a consumer receives is what was published.
pub mod Lost
pub mod Typed
use mathlib.Core.Bool.{false≢true}
use native.Mathlib.Decide.{ℕ_discrete}
use tenzor_bus.Common.{
  ℕ, zero, suc, ◌<◌, ◌≤◌, ◌≡◌, ◌≢◌, ◌^◌, refl, sym, ◌∙◌, ap, true, false, take, length, unwrap_or,
  none, some, List, [], ◌∷◌, arith,
}
use tenzor_bus.Common.Bits.{test_bit, count_ones}
use tenzor_bus.Proto.{code, max_ndim, max_consumers, state_committed, seq_newer}
use tenzor_bus.Proto.Codes.{from_code_iff}
use tenzor_bus.Proto.Order.{seq_newer_irrefl}
use tenzor_bus.Host.{Host}
use tenzor_bus.Mem.{Slot, Mem, Ring, Consumer}
use tenzor_bus.Registry.{is_active, is_dead}
use tenzor_bus.Tensor.{TensorView}
use tenzor_bus.Producer.{
  Candidate, Reserved, attempt, view_header, overwrite, write_payload, commit_slot,
}
use tenzor_bus.Producer.Reserve.{attempt-Reservation}
use tenzor_bus.Producer.Oldest.{Numbered, Oldest}
use tenzor_bus.Consumer.{
  TensorMeta, steady, read_validated, scan_oldest, rescan, try_take, lease_data,
}
use tenzor_bus.Consumer.Scan.{is_pending, scan_oldest-Oldest}
use tenzor_bus.Consumer.Take.{rescan_same}

take-overwrite : (bytes old : List ℕ) → take (length bytes) (overwrite bytes old) ≡ bytes
take-overwrite [] old = refl
take-overwrite (b ∷ bs) [] = ap (λ l. b ∷ l) (take-length bs)
  where
    take-length : (l : List ℕ) → take (length l) l ≡ l
    take-length [] = refl
    take-length (x ∷ l) = ap (λ k. x ∷ k) (take-length l)
take-overwrite (b ∷ bs) (o ∷ old) = ap (λ l. b ∷ l) (take-overwrite bs old)

-- The metadata of a published view.
abbrev pub published_meta : Host → TensorView → Reserved → TensorMeta
published_meta h v a = record {
  sequence = a.sequence;
  timestamp_ns = unwrap_or v.timestamp_ns h.clock_ns;
  nbytes = length v.bytes;
  dtype = v.dtype;
  ndim = v.ndim;
  shape = v.shape;
  strides = v.strides;
  slot_index = a.slot;
  readers_remaining = count_ones 64 a.mask;
}

-- The memory once the view has been copied and committed.
abbrev pub published : TensorView → Reserved → Mem → Mem
published v a m = commit_slot a.slot (write_payload a.slot v.bytes m)

module _ (h : Host) (r : Ring) (v : TensorView) (m : Mem) {a : Reserved} {m1 : Mem}
    (reserved : attempt h r (view_header v) m ≡ (some a, m1)) (c : Consumer)
    (registered : c.index < max_consumers) (active : is_active (m.entries c.index) ≡ true)
    (alive : is_dead h (m.entries c.index) ≡ false) (rank : v.ndim ≤ max_ndim)
    (fits : length v.bytes ≤ r.slot_capacity) (small : r.slot_capacity < 2 ^ 64) where
  addressed : test_bit a.mask c.index ≡ true
  addressed =
      let p = attempt-Reservation h r (view_header v) m reserved in
      ground (arith, p.readers c.index)

  -- The slot after the commit.
  record Final (s : Slot) : Type 0 where
    state : s.state ≡ state_committed
    sequence : s.sequence ≡ a.sequence
    timestamp_ns : s.timestamp_ns ≡ unwrap_or v.timestamp_ns h.clock_ns
    nbytes : s.nbytes ≡ length v.bytes
    dtype : s.dtype ≡ code v.dtype
    ndim : s.ndim ≡ v.ndim
    shape : s.shape ≡ v.shape
    strides : s.strides ≡ v.strides
    mask : s.mask ≡ a.mask
    payload : take (length v.bytes) s.payload ≡ v.bytes

  final : Final ((published v a m1).slots a.slot)
  unfolding commit_slot
  final =
      let p = attempt-Reservation h r (view_header v) m reserved in
      record {
        state = ground arith;
        sequence = ground (arith, p.written, p.sequence);
        timestamp_ns = ground (arith, p.written);
        nbytes = ground (arith, p.written);
        dtype = ground (arith, p.written);
        ndim = ground (arith, p.written);
        shape = ground (arith, p.written);
        strides = ground (arith, p.written);
        mask = ground (arith, p.written);
        payload = ground (arith, take-overwrite v.bytes (m1.slots a.slot).payload);
      }

  -- A view of at most 8 dimensions whose bytes fit the slot is written to the slot that a
  -- reservation gave and committed. A consumer that was registered and alive when the slot was
  -- reserved reads back exactly that view: its type, shape, strides, time and bytes, under the
  -- sequence number of the reservation.
  pub publish_delivers :
      (read_validated r c (steady (published v a m1)) a.slot a.sequence
        ≡ some (published_meta h v a))
      × (lease_data (published_meta h v a) (published v a m1) ≡ v.bytes)
  unfolding read_validated lease_data
  publish_delivers =
      let f = final in
      let known = (from_code_iff (code v.dtype) v.dtype).1 refl in
      (ground (arith, addressed), f.payload)

  module _ (bounded : a.sequence < 2 ^ 64) (newer : seq_newer a.sequence c.last_sequence ≡ true)
      (others : (j : ℕ)
        → j < r.slot_count
        → j ≢ a.slot
        → is_pending c ((published v a m1).slots j) ≡ false) where
    pending : is_pending c ((published v a m1).slots a.slot) ≡ true
    pending = let f = final in ground (arith, f, addressed)

    only_one :
        (j : ℕ) → j < r.slot_count → is_pending c ((published v a m1).slots j) ≡ true → j ≡ a.slot
    only_one j lt e = elim (ℕ_discrete j a.slot) [
      | yes same ↦ same
      | no ne ↦ absurd (false≢true (sym (others j lt ne) ∙ e))
    ]

    numbered : Numbered (is_pending c) (published v a m1).slots r.slot_count (λ _. a.sequence)
    numbered = record {
      number = λ j lt e. let same = only_one j lt e in rw same (final.sequence ∙ omega arith);
      window = λ i j li lj ei ej. omega arith;
    }

    in_range : a.slot < r.slot_count
    in_range = (attempt-Reservation h r (view_header v) m reserved).in_range

    found : scan_oldest r c (published v a m1).slots ≡ some (a.sequence, a.slot)
    found =
        go (scan_oldest r c (published v a m1).slots)
          (scan_oldest-Oldest r c (published v a m1).slots (λ _. a.sequence) numbered)
      where
        go :
            (o : Candidate)
            → Oldest (is_pending c) (published v a m1).slots (λ _. a.sequence) r.slot_count o
            → o ≡ some (a.sequence, a.slot)
        go none p = absurd (false≢true (sym (p a.slot in_range) ∙ pending))
        go (some (seq, i)) p =
            let same = only_one i p.0 p.1 in
            let number : seq ≡ a.sequence = p.2 ∙ rw same final.sequence in rw (same, number)

    -- A view of at most 8 dimensions whose bytes fit the slot is reserved for, written and committed
    -- under a number below 2^64. If a consumer was registered and alive at the reservation, if the
    -- number is newer than the last one that it has taken, and if no other slot is pending for it,
    -- then the publication is what its next `try_take` gives.
    pub publish_is_taken : try_take r c (steady (published v a m1)) ≡ some (published_meta h v a)
    unfolding try_take
    publish_is_taken =
        rw
          (
            found,
            try_take,
            rescan_same r c (published v a m1).slots (a.sequence, a.slot) found
                (seq_newer_irrefl a.sequence bounded) r.slot_count 1,
          )
          publish_delivers.0
