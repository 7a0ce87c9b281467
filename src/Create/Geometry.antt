-- ===== src/Create/Geometry.antt =====
-- What is formatted can be attached, and what is attached lies in the mapping.
use tenzor_bus.Common.{
  ℕ, zero, suc, ◌+◌, ◌*◌, ◌<◌, ◌≤◌, ◌≡◌, ◌^◌, refl, ap, ◌∙◌, fun_ext, for_to, map_below,
  map_below-suc, u32, u64, arith,
}
use tenzor_bus.Proto.{
  protocol_magic, slot_magic, protocol_version, state_free, slot_stride, total_bytes,
  global_header_size, payload_base,
}
use tenzor_bus.Proto.Layout.{slot_in_mapping}
use tenzor_bus.Errors.{ok}
use tenzor_bus.Mem.{Slot, Mem, Ring}
use tenzor_bus.Create.{layout_new, format_slot, format, attach}

abbrev formatted : Slot → Slot
formatted s = record s { magic = slot_magic; state = state_free }

format_loop :
    (n : ℕ) (m : Mem) → for_to n format_slot m ≡ record m { slots = map_below n formatted m.slots }
unfolding for_to
format_loop zero m = ap (λ f. record m { slots = f }) (fun_ext (λ j. ground arith))
format_loop (suc n) m =
    ap (format_slot n) (format_loop n m)
    ∙ ap (λ f. record m { slots = f }) (map_below-suc n formatted m.slots)

record Formatted (r : Ring) (m : Mem) : Type 0 where
  magic : m.magic ≡ protocol_magic
  version : m.version ≡ protocol_version
  slot_count : m.slot_count ≡ u32 r.slot_count
  slot_capacity : m.slot_capacity ≡ u64 r.slot_capacity

format-Formatted : (r : Ring) → Formatted r (format r)
unfolding format
format-Formatted r =
    rw (format_loop r.slot_count)
      (record { magic = refl; version = refl; slot_count = refl; slot_capacity = refl })

-- A new ring has only free slots, and its first publication has number 1.
pub format-next_seq : (r : Ring) → (format r).next_seq ≡ 1
unfolding format
format-next_seq r = rw (format_loop r.slot_count)

pub format-free : (r : Ring) (j : ℕ) → ((format r).slots j).state ≡ state_free
unfolding format
format-free r j = rw (format_loop r.slot_count) (ground arith)

-- A ring that was created can be attached, with the same geometry, if its number of slots
-- fits the 32-bit field of the header and its capacity the 64-bit one.
pub attach-format :
    (slot_count slot_capacity : ℕ) {r : Ring}
    → slot_count < 2 ^ 32
    → slot_capacity < 2 ^ 64
    → layout_new slot_count slot_capacity ≡ ok r
    → attach (total_bytes slot_count slot_capacity) (format r) ≡ ok r
unfolding layout_new attach
attach-format slot_count slot_capacity {r} small fits e =
    let f = format-Formatted r in
    let geometry : (r.slot_count ≡ slot_count)
        × (r.slot_capacity ≡ slot_capacity)
        × (2 ≤ slot_count)
        × (64 ≤ slot_capacity) =
      ground arith in
    let count : (format r).slot_count ≡ slot_count = omega arith in
    let cap : (format r).slot_capacity ≡ slot_capacity = omega arith in
    rw (f.magic, f.version, count, cap) (ground arith)

-- If a mapping is attached whose header gives slots of less than 2^63 bytes and a total size that
-- does not overflow 64 bits: the ring has the slot count and capacity of the header, at least two
-- slots of at least 64 bytes, the header has the protocol's version, and the payload of each slot
-- lies inside the mapping.
pub attach_in_bounds :
    (len : ℕ) (m : Mem) (r : Ring) (i : ℕ)
    → attach len m ≡ ok r
    → r.slot_capacity < 2 ^ 63
    → global_header_size + r.slot_count * slot_stride r.slot_capacity < 2 ^ 64
    → i < r.slot_count
    → (r.slot_count ≡ m.slot_count)
      × (r.slot_capacity ≡ m.slot_capacity)
      × (2 ≤ r.slot_count)
      × (64 ≤ r.slot_capacity)
      × (m.version ≡ protocol_version)
      × (payload_base i r.slot_capacity + r.slot_capacity ≤ len)
unfolding attach
attach_in_bounds len m r i e small fits lt =
    let checks : (r.slot_count ≡ m.slot_count)
        × (r.slot_capacity ≡ m.slot_capacity)
        × (2 ≤ r.slot_count)
        × (64 ≤ r.slot_capacity)
        × (m.version ≡ protocol_version)
        × (total_bytes r.slot_count r.slot_capacity ≤ len) =
      ground arith in
    (
      checks.0,
      checks.1,
      checks.2,
      checks.3,
      checks.4,
      omega (arith, (slot_in_mapping r.slot_count r.slot_capacity small fits i lt).3),
    )
