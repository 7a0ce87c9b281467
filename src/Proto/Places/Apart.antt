-- ===== src/Proto/Places/Apart.antt =====
-- How the places lie in the mapping. The records of the model keep them apart.
use tenzor_bus.Common.{u64, ◌-◌, ℕ, ◌+◌, ◌*◌, ◌%◌, ◌^◌, ◌<◌, ◌≤◌, ◌≡◌, sym, ◌∙◌, ap, min, arith}
use native.Mathlib.Decide.{dec_lt}
use tenzor_bus.Proto.{
  slot_stride, total_bytes, slot_base, payload_base, registry_entry_offset, global_header_size,
  slot_header_size, max_consumers,
}
use tenzor_bus.Proto.Layout.{slot_in_mapping, slots_disjoint}
use tenzor_bus.Proto.Places.{
  GlobalField, EntryField, SlotField, g_size, r_offset, r_size, s_offset, s_size, Place, global,
  entry, slot, payload, address, extent, IsPlace, Covers,
}
use tenzor_bus.Proto.Places.Fields.{
  g_field_at, g_field_at-eq, r_field_at, r_field_at-eq, s_field_at, s_field_at-eq, g_aligned,
  r_aligned, s_aligned, g_fits, r_fits, s_fits,
}

-- What an access of the place needs.
abbrev pub alignment : Place → ℕ
alignment (global f) = min (g_size f) 8
alignment (entry i f) = min (r_size f) 8
alignment (slot i f) = min (s_size f) 8
alignment (payload i) = 64

module _ (count cap : ℕ) (small : cap < 2 ^ 63)
    (fits : global_header_size + count * slot_stride cap < 2 ^ 64) where
  total : total_bytes count cap ≡ global_header_size + count * slot_stride cap
  unfolding total_bytes
  total = omega arith

  -- The bytes of a place, by its kind.
  global-at : (f : GlobalField) (b : ℕ) → Covers cap (global f) b → (f ≡ g_field_at b) × (b < 128)
  unfolding address extent
  global-at f b c = let e = g_field_at-eq f b c.from c.until in (e.0, omega (arith, e.1))

  entry-at :
      (i : ℕ) (f : EntryField) (b : ℕ)
      → i < max_consumers
      → Covers cap (entry i f) b
      → (128 + 32 * i ≤ b) × (b < 160 + 32 * i) × (f ≡ r_field_at (b - (128 + 32 * i)))
  unfolding address extent registry_entry_offset
  entry-at i f b lt c =
      let end = r_fits f in
      let place : u64 (u64 (128 + u64 (i * 32)) + r_offset f) ≡ 128 + 32 * i + r_offset f =
        omega arith in
      let e =
        r_field_at-eq f (b - (128 + 32 * i)) (omega (arith, c.from))
          (omega (arith, c.until, c.from)) in
      (omega (arith, c.from), omega (arith, c.until), e.0)

  slot-at :
      (i : ℕ) (f : SlotField) (b : ℕ)
      → i < count
      → Covers cap (slot i f) b
      → (slot_base i cap ≤ b) × (b < payload_base i cap) × (f ≡ s_field_at (b - slot_base i cap))
  unfolding address extent
  slot-at i f b lt c =
      let end = s_fits f in
      let placed = slot_in_mapping count cap small fits i lt in
      let base : slot_base i cap + slot_header_size + cap < 2 ^ 64 =
        omega (arith, placed.2, total) in
      let e =
        s_field_at-eq f (b - slot_base i cap) (omega (arith, c.from))
          (omega (arith, c.until, c.from)) in
      (omega (arith, c.from), omega (arith, c.until, placed.2), e.0)

  -- The slot, with its payload, that a byte is in.
  slot_unique :
      (i j b : ℕ)
      → i < count
      → j < count
      → slot_base i cap ≤ b
      → b < payload_base i cap + cap
      → slot_base j cap ≤ b
      → b < payload_base j cap + cap
      → i ≡ j
  slot_unique i j b lt lt' from until from' until' = elim (dec_lt i j) [
    | yes q ↦ absurd (omega (arith, slots_disjoint count cap small fits i j q lt'))
    | no q ↦ elim (dec_lt j i) [
      | yes q' ↦ absurd (omega (arith, slots_disjoint count cap small fits j i q' lt))
      | no q' ↦ omega arith
    ]
  ]

  abbrev In : ℕ → ℕ → Type 0
  In i b = (slot_base i cap ≤ b) × (b < payload_base i cap + cap) × (4096 ≤ b)

  slot-In : (i : ℕ) (f : SlotField) (b : ℕ) → i < count → Covers cap (slot i f) b → In i b
  slot-In i f b lt c =
      let (from, until, same) = slot-at i f b lt c in
      (from, omega arith, omega (arith, slot_in_mapping count cap small fits i lt))

  payload-In : (i b : ℕ) → i < count → Covers cap (payload i) b → In i b × (payload_base i cap ≤ b)
  unfolding address extent
  payload-In i b lt c =
      let placed = slot_in_mapping count cap small fits i lt in
      ((omega (arith, c.from, placed.2), c.until, omega (arith, c.from, placed)), c.from)

  In-unique : (i j b : ℕ) → i < count → j < count → In i b → In j b → i ≡ j
  In-unique i j b lt lt' p q = slot_unique i j b lt lt' p.0 p.1 q.0 q.1

  slot_apart :
      (i j : ℕ) (f g : SlotField) (b : ℕ)
      → i < count
      → j < count
      → Covers cap (slot i f) b
      → Covers cap (slot j g) b
      → slot i f ≡ slot j g
  slot_apart i j f g b lt lt' p q =
      let same : i ≡ j = In-unique i j b lt lt' (slot-In i f b lt p) (slot-In j g b lt' q) in
      let (from, until, x) = slot-at i f b lt p in
      let (from', until', y) = slot-at j g b lt' q in
      let z : s_field_at (b - slot_base j cap) ≡ s_field_at (b - slot_base i cap) = rw same in
      ap (λ k. slot k f) same ∙ ap (slot j) (x ∙ sym z ∙ sym y)

  entry_apart :
      (i j : ℕ) (f g : EntryField) (b : ℕ)
      → i < max_consumers
      → j < max_consumers
      → Covers cap (entry i f) b
      → Covers cap (entry j g) b
      → entry i f ≡ entry j g
  entry_apart i j f g b lt lt' p q =
      let (from, until, x) = entry-at i f b lt p in
      let (from', until', y) = entry-at j g b lt' q in
      let same : i ≡ j = omega arith in
      let z : r_field_at (b - (128 + 32 * j)) ≡ r_field_at (b - (128 + 32 * i)) = rw same in
      ap (λ k. entry k f) same ∙ ap (entry j) (x ∙ sym z ∙ sym y)

  slot_payload :
      (i j : ℕ) (f : SlotField) (b : ℕ)
      → i < count
      → j < count
      → Covers cap (slot i f) b
      → Covers cap (payload j) b
      → ⊥
  slot_payload i j f b lt lt' p q =
      let (inside, from) = payload-In j b lt' q in
      let same : i ≡ j = In-unique i j b lt lt' (slot-In i f b lt p) inside in
      let until : b < payload_base j cap = rw same at (slot-at i f b lt p).1 in omega arith

  -- If the total size does not exceed 64 bits, no byte of the mapping belongs to two of the places
  -- that the code reads and writes: fields of the global header, of a registry entry and of a slot
  -- header, and payloads.
  pub places_apart :
      (p q : Place) (b : ℕ)
      → IsPlace count p
      → IsPlace count q
      → Covers cap p b
      → Covers cap q b
      → p ≡ q
  places_apart (global f) (global g) b lt lt' c d =
      ap global ((global-at f b c).0 ∙ sym (global-at g b d).0)
  places_apart (global f) (entry j g) b lt lt' c d =
      absurd (omega (arith, (global-at f b c).1, (entry-at j g b lt' d).0))
  places_apart (global f) (slot j g) b lt lt' c d =
      absurd (omega (arith, (global-at f b c).1, (slot-In j g b lt' d).2))
  places_apart (global f) (payload j) b lt lt' c d =
      absurd (omega (arith, (global-at f b c).1, (payload-In j b lt' d).0.2))
  places_apart (entry i f) (global g) b lt lt' c d =
      absurd (omega (arith, (global-at g b d).1, (entry-at i f b lt c).0))
  places_apart (entry i f) (entry j g) b lt lt' c d = entry_apart i j f g b lt lt' c d
  places_apart (entry i f) (slot j g) b lt lt' c d =
      absurd (omega (arith, (entry-at i f b lt c).1, (slot-In j g b lt' d).2))
  places_apart (entry i f) (payload j) b lt lt' c d =
      absurd (omega (arith, (entry-at i f b lt c).1, (payload-In j b lt' d).0.2))
  places_apart (slot i f) (global g) b lt lt' c d =
      absurd (omega (arith, (global-at g b d).1, (slot-In i f b lt c).2))
  places_apart (slot i f) (entry j g) b lt lt' c d =
      absurd (omega (arith, (entry-at j g b lt' d).1, (slot-In i f b lt c).2))
  places_apart (slot i f) (slot j g) b lt lt' c d = slot_apart i j f g b lt lt' c d
  places_apart (slot i f) (payload j) b lt lt' c d = absurd (slot_payload i j f b lt lt' c d)
  places_apart (payload i) (global g) b lt lt' c d =
      absurd (omega (arith, (global-at g b d).1, (payload-In i b lt c).0.2))
  places_apart (payload i) (entry j g) b lt lt' c d =
      absurd (omega (arith, (entry-at j g b lt' d).1, (payload-In i b lt c).0.2))
  places_apart (payload i) (slot j g) b lt lt' c d = absurd (slot_payload j i g b lt' lt d c)
  places_apart (payload i) (payload j) b lt lt' c d =
      ap payload (In-unique i j b lt lt' (payload-In i b lt c).0 (payload-In j b lt' d).0)

  -- If the total size does not exceed 64 bits, every place that the code reads or writes ends
  -- within the mapping, and its address is a multiple of its size, of 8 for the longer ones, and of
  -- 64 for a payload.
  pub place_in_mapping :
      (p : Place)
      → IsPlace count p
      → (address cap p + extent cap p ≤ total_bytes count cap) × (address cap p % alignment p ≡ 0)
  unfolding address extent registry_entry_offset
  place_in_mapping (global f) lt = (omega (arith, g_fits f, total), g_aligned f)
  place_in_mapping (entry i f) lt =
      let end = r_fits f in
      let at : u64 (u64 (128 + u64 (i * 32)) + r_offset f) ≡ 128 + 32 * i + r_offset f =
        omega arith in
      rw at (omega (arith, total), r_aligned f (128 + 32 * i) (omega arith))
  place_in_mapping (slot i f) lt =
      let end = s_fits f in
      let placed = slot_in_mapping count cap small fits i lt in
      let at : u64 (slot_base i cap + s_offset f) ≡ slot_base i cap + s_offset f =
        omega (arith, placed, total) in
      rw at (omega (arith, placed), s_aligned f (slot_base i cap) (omega (arith, placed)))
  place_in_mapping (payload i) lt =
      let placed = slot_in_mapping count cap small fits i lt in (placed.3, omega (arith, placed))
