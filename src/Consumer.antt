-- ===== src/Consumer.antt =====
-- rust/tenzorbus/src/ring.rs, `Consumer`: how a publication is found, its header read and checked,
-- its lease released. Each load sees the slot as it is at that moment: `Reads` gives the slots as
-- they are seen in each pass, at the entry of `read_validated`, while the header is read, and at
-- the second check.
pub mod Scan
pub mod Take
pub mod Release
pub mod Validate
pub mod Header
use tenzor_bus.Common.{
  ℕ, zero, suc, ◌+◌, Bool, not, ◌&&◌, ◌||◌, ltb, leb, ◌==◌, if◌then◌else◌, for_to, Option, none,
  some, List, [], ◌∷◌, take,
}
use tenzor_bus.Common.Bits.{test_bit, clear_bit, count_ones}
use tenzor_bus.Proto.{DType, from_code, max_ndim, state_committed, seq_newer}
use tenzor_bus.Errors.{Result, ok, err, timeout, lease_violation, recycled, released_twice}
use tenzor_bus.Host.{Host}
use tenzor_bus.Mem.{Slot, Mem, Ring, Consumer, at_slot, at_entry, signal_reclaim}
use tenzor_bus.Registry.{clear_reader}
use tenzor_bus.Producer.{Candidate, older, Tick}

pub record TensorMeta : Type 0 where
  pub sequence : ℕ
  pub timestamp_ns : ℕ
  pub nbytes : ℕ
  pub dtype : DType
  pub ndim : ℕ
  pub shape : List ℕ
  pub strides : List ℕ
  pub slot_index : ℕ
  pub readers_remaining : ℕ

-- One round of `scan_oldest`.
abbrev pub is_addressed : ℕ → ℕ → Slot → Bool
is_addressed index last s =
    s.state == state_committed && test_bit s.mask index && seq_newer s.sequence last

abbrev pub scan_body : ℕ → ℕ → (ℕ → Slot) → ℕ → Candidate → Candidate
scan_body index last slots i best =
    if is_addressed index last (slots i) then older best (slots i).sequence i else best

unfoldable pub scan_oldest : Ring → Consumer → (ℕ → Slot) → Candidate
scan_oldest r c slots = for_to r.slot_count (scan_body c.index c.last_sequence slots) none

pub record Reads : Type 0 where
  pub passes : ℕ → ℕ → Slot
  pub entry : ℕ → Slot
  pub header : ℕ → Slot
  pub recheck : ℕ → Slot

-- All loads see one state of the memory.
abbrev pub steady : Mem → Reads
steady m = record { passes = λ _. m.slots; entry = m.slots; header = m.slots; recheck = m.slots }

-- The metadata that a header gives, if its type code is known.
abbrev pub meta_of : ℕ → ℕ → Slot → Option DType → Option TensorMeta
meta_of slot sequence s none = none
meta_of slot sequence s (some d) = some (record {
  sequence = sequence;
  timestamp_ns = s.timestamp_ns;
  nbytes = s.nbytes;
  dtype = d;
  ndim = s.ndim;
  shape = s.shape;
  strides = s.strides;
  slot_index = slot;
  readers_remaining = count_ones 64 s.mask;
})

module _ (r : Ring) (c : Consumer) where
  -- `read_validated`
  unfoldable pub read_validated : Reads → ℕ → ℕ → Option TensorMeta
  read_validated reads slot expected =
      let a = reads.entry slot in
      let s = reads.header slot in
      let b = reads.recheck slot in
      if not (a.state == state_committed)
      then none
      else if not (a.sequence == expected)
      then none
      else if not (b.state == state_committed)
      then none
      else if not (b.sequence == expected)
      then none
      else if not (test_bit s.mask c.index) || not (test_bit b.mask c.index)
      then none
      else if ltb max_ndim s.ndim || ltb r.slot_capacity s.nbytes
      then none
      else meta_of slot expected s (from_code s.dtype)

  -- The passes of `try_take` behind the first, at most `rounds` of them.
  unfoldable pub rescan : (ℕ → ℕ → Slot) → ℕ → ℕ → ℕ × ℕ → ℕ × ℕ
  rescan passes zero pass best = best
  rescan passes (suc rounds) pass best = elim (scan_oldest r c (passes pass)) [
    | none ↦ best
    | some next ↦
        let rest = rescan passes rounds (pass + 1) next in
        if seq_newer best.0 next.0 then rest else best
  ]

  -- `try_take`
  unfoldable pub try_take : Reads → Option TensorMeta
  try_take reads = elim (scan_oldest r c (reads.passes 0)) [
    | none ↦ none
    | some first ↦
        let best = rescan reads.passes r.slot_count 1 first in read_validated reads best.1 best.0
  ]

abbrev pub heartbeat : Host → Consumer → Mem → Mem
heartbeat h c = at_entry c.index (λ e. record e { heartbeat_ns = h.clock_ns })

-- What `next_raw` records of a publication that it takes.
abbrev pub taken : Host → Consumer → TensorMeta → Mem → Consumer × Mem
taken h c t m = (
  record c { last_sequence = t.sequence },
  heartbeat h c (at_entry c.index (λ e. record e { last_sequence = t.sequence }) m),
)

module _ (h : Host) (r : Ring) (deadline : ℕ) where
  -- `next_raw`. At the end of the ticks it is still waiting: `none`.
  unfoldable pub next_raw : List Tick → Consumer → Mem → Option (Result TensorMeta × Consumer × Mem)
  next_raw [] c m = elim (try_take r c (steady m)) [
    | some t ↦ let (c', m') = taken h c t m in some (ok t, c', m')
    | none ↦ none
  ]
  next_raw (tick ∷ ts) c m =
      let rest = next_raw ts c (tick.others m) in
      elim (try_take r c (steady m)) [
        | some t ↦ let (c', m') = taken h c t m in some (ok t, c', m')
        | none ↦ if leb deadline tick.now then some (err timeout, c, m) else rest
      ]

-- The bytes of a lease: `from_raw_parts(ptr, meta.nbytes)`.
unfoldable pub lease_data : TensorMeta → Mem → List ℕ
lease_data t m = take t.nbytes (m.slots t.slot_index).payload

-- `release`
unfoldable pub release : Host → Consumer → TensorMeta → Mem → Result (Unit {0}) × Mem
release h c t m =
    let s = m.slots t.slot_index in
    let now = clear_bit s.mask c.index in
    let m1 = at_slot t.slot_index (clear_reader c.index) m in
    let m2 = heartbeat h c m1 in
    if not (s.sequence == t.sequence)
    then (err (lease_violation (recycled t.slot_index t.sequence)), m)
    else if not (test_bit s.mask c.index)
    then (err (lease_violation released_twice), m1)
    else (ok tt, if now == 0 then signal_reclaim m2 else m2)

-- `Lease`: a lease is released by the call or when it is dropped, whichever comes first.
pub record Lease : Type 0 where
  pub meta : TensorMeta
  pub released : Bool

unfoldable pub drop_lease : Host → Consumer → Lease → Mem → Mem
drop_lease h c l m = if l.released then m else (release h c l.meta m).1
