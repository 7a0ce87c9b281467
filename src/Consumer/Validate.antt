-- ===== src/Consumer/Validate.antt =====
-- What `read_validated` lets through.
use tenzor_bus.Common.{ℕ, ◌≤◌, ◌≡◌, refl, true, arith, Option, none, some}
use tenzor_bus.Common.Bits.{test_bit}
use tenzor_bus.Proto.{DType, code, from_code, max_ndim, state_committed}
use tenzor_bus.Proto.Codes.{from_code_iff}
use tenzor_bus.Mem.{Slot, Ring, Consumer}
use tenzor_bus.Consumer.{TensorMeta, Reads, meta_of, read_validated}

-- The header that was read, and what held when the read began and when it was checked again.
pub record Validated (r : Ring) (c : Consumer) (reads : Reads) (slot expected : ℕ) (t : TensorMeta)
    : Type 0 where
  pub committed_before : (reads.entry slot).state ≡ state_committed
  pub sequence_before : (reads.entry slot).sequence ≡ expected
  pub committed_after : (reads.recheck slot).state ≡ state_committed
  pub sequence_after : (reads.recheck slot).sequence ≡ expected
  pub addressed : test_bit (reads.header slot).mask c.index ≡ true
  pub addressed_after : test_bit (reads.recheck slot).mask c.index ≡ true
  pub ndim_fits : t.ndim ≤ max_ndim
  pub nbytes_fits : t.nbytes ≤ r.slot_capacity
  pub sequence : t.sequence ≡ expected
  pub slot_index : t.slot_index ≡ slot
  pub dtype : code t.dtype ≡ (reads.header slot).dtype
  pub ndim : t.ndim ≡ (reads.header slot).ndim
  pub nbytes : t.nbytes ≡ (reads.header slot).nbytes
  pub timestamp_ns : t.timestamp_ns ≡ (reads.header slot).timestamp_ns
  pub shape : t.shape ≡ (reads.header slot).shape
  pub strides : t.strides ≡ (reads.header slot).strides

meta_of-some :
    (slot seq : ℕ) (s : Slot) {t : TensorMeta}
    → meta_of slot seq s (from_code s.dtype) ≡ some t
    → (d : DType) × (from_code s.dtype ≡ some d) × (meta_of slot seq s (some d) ≡ some t)
meta_of-some slot seq s h = go (from_code s.dtype) refl h
  where
    go :
        {t : TensorMeta} (o : Option DType)
        → from_code s.dtype ≡ o
        → meta_of slot seq s o ≡ some t
        → (d : DType) × (from_code s.dtype ≡ some d) × (meta_of slot seq s (some d) ≡ some t)
    go none e q = cc
    go (some d) e q = (d, e, q)

-- Metadata comes only from a slot that was committed with the expected sequence number both before
-- and after its header was read, and addressed to the consumer; it fits the protocol's bounds and
-- the slot.
pub read_validated-Validated :
    (r : Ring) (c : Consumer) (reads : Reads) (slot expected : ℕ) {t : TensorMeta}
    → read_validated r c reads slot expected ≡ some t
    → Validated r c reads slot expected t
unfolding read_validated
read_validated-Validated r c reads slot expected {t} h =
    let checks : (meta_of slot expected (reads.header slot) (from_code (reads.header slot).dtype)
          ≡ some t)
        × ((reads.entry slot).state ≡ state_committed)
        × ((reads.entry slot).sequence ≡ expected)
        × ((reads.recheck slot).state ≡ state_committed)
        × ((reads.recheck slot).sequence ≡ expected)
        × (test_bit (reads.header slot).mask c.index ≡ true)
        × (test_bit (reads.recheck slot).mask c.index ≡ true)
        × ((reads.header slot).ndim ≤ max_ndim)
        × ((reads.header slot).nbytes ≤ r.slot_capacity) =
      ground arith in
    let (d, known, e) = meta_of-some slot expected (reads.header slot) checks.0 in
    let c' = (from_code_iff (reads.header slot).dtype d).0 known in ground arith
