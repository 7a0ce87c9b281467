-- ===== src/Proto/Layout.antt =====
-- Where the parts of the mapping lie.
use tenzor_bus.Common.{mul-le, ℕ, suc, ◌+◌, ◌-◌, ◌*◌, ◌/◌, ◌%◌, ◌^◌, ◌≤◌, ◌<◌, ◌≡◌, ap, refl, arith}
use tenzor_bus.Proto.{
  slot_stride, total_bytes, slot_base, payload_base, registry_entry_offset, global_header_size,
  slot_header_size, max_consumers, registry_entry_size,
}

-- The stride of a slot is a multiple of 64 with room for the header and the payload, and less than
-- one cache line is lost.
pub slot_stride_bounds :
    (cap : ℕ)
    → cap < 2 ^ 63
    → (slot_stride cap % 64 ≡ 0)
      × (slot_header_size + cap ≤ slot_stride cap)
      × (slot_stride cap < slot_header_size + cap + 64)
unfolding slot_stride
slot_stride_bounds cap h = ground arith

-- The product that places slot `i` is at most the one that sizes the mapping.
mul-aligned : (i s : ℕ) → s % 64 ≡ 0 → i * s % 64 ≡ 0
mul-aligned i s h =
    let e : s ≡ 64 * (s / 64) = omega arith in omega (arith, ap (λ (t : ℕ). i * t) e)

module _ (count cap : ℕ) (small : cap < 2 ^ 63)
    (fits : global_header_size + count * slot_stride cap < 2 ^ 64) where
  slot_base-eq : (i : ℕ) → i ≤ count → slot_base i cap ≡ global_header_size + i * slot_stride cap
  unfolding slot_base
  slot_base-eq i le = omega (arith, mul-le (slot_stride cap) i count le)

  total_bytes-eq : total_bytes count cap ≡ global_header_size + count * slot_stride cap
  unfolding total_bytes
  total_bytes-eq = omega arith

  slot_base-le :
      (i j : ℕ)
      → i < j
      → j ≤ count
      → slot_base i cap + slot_stride cap ≤ global_header_size + j * slot_stride cap
  slot_base-le i j lt le =
      omega (arith, slot_base-eq i (omega arith), mul-le (slot_stride cap) (suc i) j lt)

  -- If the total size does not exceed 64 bits, every slot is aligned to a cache line behind the
  -- global header, and its payload follows its header and ends within the mapping.
  pub slot_in_mapping :
      (i : ℕ)
      → i < count
      → (slot_base i cap % 64 ≡ 0)
        × (global_header_size ≤ slot_base i cap)
        × (payload_base i cap ≡ slot_base i cap + slot_header_size)
        × (payload_base i cap + cap ≤ total_bytes count cap)
  unfolding payload_base
  slot_in_mapping i lt =
      let e = slot_base-eq i (omega arith) in
      let room = (slot_stride_bounds cap small).1 in
      let last = slot_base-le i count lt (omega arith) in
      let payload : payload_base i cap ≡ slot_base i cap + slot_header_size =
        omega (arith, total_bytes-eq) in
      (
        omega (arith, mul-aligned i (slot_stride cap) (slot_stride_bounds cap small).0),
        omega arith,
        payload,
        omega (arith, total_bytes-eq),
      )

  -- If the total size does not exceed 64 bits, no slot reaches a later one: the payload of slot `i`
  -- ends before slot `j` begins.
  pub slots_disjoint : (i j : ℕ) → i < j → j < count → payload_base i cap + cap ≤ slot_base j cap
  slots_disjoint i j lt le =
      let room = (slot_stride_bounds cap small).1 in
      let payload = (slot_in_mapping i (omega arith)).2 in
      omega (arith, slot_base-le i j lt (omega arith), slot_base-eq j (omega arith))

-- The registry of consumers lies inside the global header: no entry reaches the first slot.
pub registry_fits :
    (i cap : ℕ)
    → i < max_consumers
    → registry_entry_offset i + registry_entry_size ≤ slot_base 0 cap
unfolding registry_entry_offset slot_base
registry_fits i cap lt = omega arith

-- With sizes that overflow 64 bits the total wraps: this geometry passes any test of the mapping's
-- length, with 2^31 slots in 4096 bytes.
pub total_bytes_wraps : total_bytes (2 ^ 31) (2 ^ 33 - 128) ≡ global_header_size
unfolding total_bytes slot_stride
total_bytes_wraps = refl
