-- ===== src/Consumer/Header.antt =====
-- rust/tenzor-core/src/lib.rs, `TensorSlotHeader::validate`, beside the consumer's own checks.
use tenzor_bus.Common.{
  Bool, ℕ, ◌≡◌, ◌↔◌, true, false, not, ltb, if◌then◌else◌, Option, none, some, arith, refl,
}
use tenzor_bus.Common.Bits.{count_ones, test_bit}
use tenzor_bus.Proto.{DType, slot_magic, max_ndim, from_code, state_committed}
use tenzor_bus.Mem.{Mem, Slot, Ring, Consumer}
use tenzor_bus.Create.{same_bytes}
use tenzor_bus.Consumer.{TensorMeta, read_validated, steady}

-- The texts of its errors.
pub data SlotFault : Type 0 where
  bad_slot_magic ndim_exceeds_max payload_exceeds unknown_dtype_code : SlotFault

abbrev pub known_or : Option DType → Option SlotFault
known_or none = some unknown_dtype_code
known_or (some d) = none

-- `none` is `Ok(())`.
unfoldable pub validate : ℕ → Slot → Option SlotFault
validate slot_capacity s =
    if not (same_bytes s.magic slot_magic)
    then some bad_slot_magic
    else if ltb max_ndim s.ndim
    then some ndim_exceeds_max
    else if ltb slot_capacity s.nbytes
    then some payload_exceeds
    else known_or (from_code s.dtype)

-- On a committed slot with the magic, the expected number and the consumer's bit, `validate`
-- accepts the header exactly if `read_validated` returns metadata.
pub validate_iff_read :
    (r : Ring) (c : Consumer) (m : Mem) (i : ℕ)
    → same_bytes (m.slots i).magic slot_magic ≡ true
    → (m.slots i).state ≡ state_committed
    → test_bit (m.slots i).mask c.index ≡ true
    → (validate r.slot_capacity (m.slots i) ≡ none)
      ↔ ((t : TensorMeta) × (read_validated r c (steady m) i (m.slots i).sequence ≡ some t))
unfolding validate read_validated
validate_iff_read r c m i magic committed bit =
    go (ltb max_ndim (m.slots i).ndim) (ltb r.slot_capacity (m.slots i).nbytes)
      (from_code (m.slots i).dtype) refl refl refl
  where
    shown : Slot → DType → TensorMeta
    shown x d = record {
      sequence = x.sequence;
      timestamp_ns = x.timestamp_ns;
      nbytes = x.nbytes;
      dtype = d;
      ndim = x.ndim;
      shape = x.shape;
      strides = x.strides;
      slot_index = i;
      readers_remaining = count_ones 64 x.mask;
    }

    go :
        (a b : Bool) (d : Option DType)
        → ltb max_ndim (m.slots i).ndim ≡ a
        → ltb r.slot_capacity (m.slots i).nbytes ≡ b
        → from_code (m.slots i).dtype ≡ d
        → (validate r.slot_capacity (m.slots i) ≡ none)
          ↔ ((t : TensorMeta) × (read_validated r c (steady m) i (m.slots i).sequence ≡ some t))
    go true b d p q s = (λ e. absurd (ground arith), λ (t, e). absurd (ground arith))
    go false true d p q s = (λ e. absurd (ground arith), λ (t, e). absurd (ground arith))
    go false false none p q s = (λ e. absurd (ground arith), λ (t, e). absurd (ground arith))
    go false false (some d) p q s = (
      λ e. (shown (m.slots i) d, rw (committed, bit, p, q, s) (ground arith)),
      λ (t, e). rw (magic, p, q, s) refl,
    )
