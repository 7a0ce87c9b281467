-- ===== src/Producer.antt =====
-- rust/tenzorbus/src/ring.rs, `Producer` and `SlotWriter`: how a slot is chosen, reserved, filled,
-- committed or given back, and the loop that waits for one.
pub mod Oldest
pub mod Select
pub mod Reserve
pub mod Acquire
use tenzor_bus.Common.{
  ℕ, ◌+◌, ◌%◌, ◌^◌, Bool, true, false, ltb, leb, ◌==◌, if◌then◌else◌, for_to, u16, u64, unwrap_or,
  Option, none, some, List, [], ◌∷◌, length,
}
use tenzor_bus.Common.Bits.{count_ones}
use tenzor_bus.Proto.{DType, code, max_ndim, state_free, state_committed, state_writing, seq_newer}
use tenzor_bus.Errors.{Result, ok, err, ring_full, invalid, ndim_exceeds, tensor_requires}
use tenzor_bus.Host.{Host, pid_start_token}
use tenzor_bus.Mem.{
  Slot, Mem, Ring, at_slot, signal_publish, signal_reclaim, lock_registry, unlock_registry,
}
use tenzor_bus.Tensor.{TensorView, byte_size, pad, strides_loop}
use tenzor_bus.Registry.{active_mask, reap_dead}

pub data Backpressure : Type 0 where
  block drop_newest : Backpressure

pub record PublishResult : Type 0 where
  pub sequence : ℕ
  pub slot_index : ℕ
  pub nbytes : ℕ
  pub readers : ℕ

-- What `reserve_header` writes besides the slot's own state.
pub record Header : Type 0 where
  pub dtype : DType
  pub ndim : ℕ
  pub shape : List ℕ
  pub strides : List ℕ
  pub nbytes : ℕ
  pub timestamp_ns : Option ℕ

-- Slot, sequence number and reader mask of a reservation.
pub record Reserved : Type 0 where
  pub slot : ℕ
  pub sequence : ℕ
  pub mask : ℕ

abbrev pub Candidate : Type 0
Candidate = Option (ℕ × ℕ)

-- `match oldest { Some((best, _)) if !seq_newer(best, seq) => {} _ => oldest = Some((seq, i)) }`
abbrev pub older : Candidate → ℕ → ℕ → Candidate
older none seq i = some (seq, i)
older (some (best, j)) seq i = if seq_newer best seq then some (seq, i) else some (best, j)

abbrev pub first_free : Option ℕ → ℕ → Option ℕ
first_free none i = some i
first_free (some j) i = some j

-- One round of the loop that chooses a slot.
abbrev pub select_body : (ℕ → Slot) → ℕ → Option ℕ × Candidate → Option ℕ × Candidate
select_body slots i (free, oldest) =
    if (slots i).state == state_free
    then (first_free free i, oldest)
    else if (slots i).state == state_committed
    then (if (slots i).mask == 0 then (free, older oldest (slots i).sequence i) else (free, oldest))
    else (free, oldest)

-- `free_slot.or(oldest.map(|(_, i)| i))`
abbrev pub prefer_free : Option ℕ → Candidate → Option ℕ
prefer_free (some i) oldest = some i
prefer_free none none = none
prefer_free none (some (seq, i)) = some i

unfoldable pub select : ℕ → (ℕ → Slot) → Option ℕ
select n slots =
    let (free, oldest) = for_to n (select_body slots) (none, none) in prefer_free free oldest

module _ (h : Host) where
  -- The stores to the header of the chosen slot.
  abbrev pub write_header : Header → ℕ → ℕ → Slot → Slot
  write_header hd sequence mask s = record s {
    state = state_writing;
    producer_pid = h.pid;
    start_token = pid_start_token h h.pid;
    sequence = sequence;
    timestamp_ns = unwrap_or hd.timestamp_ns h.clock_ns;
    nbytes = u64 hd.nbytes;
    dtype = code hd.dtype;
    ndim = hd.ndim % 2 ^ 8;
    flags = 0;
    shape = hd.shape;
    strides = hd.strides;
    mask = mask;
    readers = u16 (count_ones 64 mask);
  }

  abbrev pub take_slot : Header → ℕ → Mem → Reserved × Mem
  take_slot hd slot m =
      let sequence = m.next_seq in
      let mask = active_mask m in
      let m1 = at_slot slot (write_header hd sequence mask) m in
      (
        record { slot = slot; sequence = sequence; mask = mask },
        record m1 { next_seq = u64 (sequence + 1) },
      )

  module _ (r : Ring) where
    -- `reserve_header`
    unfoldable pub reserve_header : Header → Mem → Option Reserved × Mem
    reserve_header hd m =
        let m1 = reap_dead h r m in
        elim (select r.slot_count m1.slots) [
          | none ↦ (none, m1)
          | some slot ↦ let (res, m2) = take_slot hd slot m1 in (some res, m2)
        ]

    -- One attempt: the reservation under the registry lock.
    unfoldable pub attempt : Header → Mem → Option Reserved × Mem
    attempt hd m =
        let (res, m1) = reserve_header hd (lock_registry h m) in (res, unlock_registry m1)

-- One round of waiting: the clock as it is read after the attempt, and what the other processes
-- do to the memory while this one sleeps on the futex.
pub record Tick : Type 0 where
  pub now : ℕ
  pub others : Mem → Mem

abbrev pub Outcome : Type 0 → Type 0
Outcome A = Option (Result (Option A) × Mem)

-- What follows an attempt that found no slot; `retry` is the rest of the loop.
abbrev pub give_up : Backpressure → Mem → Outcome Reserved → Outcome Reserved
give_up drop_newest m retry = some (ok none, record m { drop_count = u64 (m.drop_count + 1) })
give_up block m retry = retry

-- The end of a round: a reservation is returned, else `retry` is the rest of the loop.
abbrev pub settle :
    Backpressure → Option Reserved × Mem → (Mem → Outcome Reserved) → Outcome Reserved
settle policy (some a, m1) retry = some (ok (some a), m1)
settle policy (none, m1) retry = give_up policy m1 (retry m1)

module _ (h : Host) (r : Ring) (hd : Header) (policy : Backpressure) (deadline : ℕ) where
  -- The loop of `publish` and of `reserve`. At the end of the ticks it is still waiting: `none`.
  unfoldable pub acquire : List Tick → Mem → Outcome Reserved
  acquire [] m = settle policy (attempt h r hd m) (λ m1. none)
  acquire (t ∷ ts) m = settle policy (attempt h r hd m) (λ m1. elim (leb deadline t.now) [
    | true ↦ some (err ring_full, m1)
    | false ↦ acquire ts (t.others m1)
  ])

-- Bytes copied over the front of a payload.
abbrev pub overwrite : List ℕ → List ℕ → List ℕ
overwrite [] old = old
overwrite (b ∷ bs) [] = b ∷ bs
overwrite (b ∷ bs) (o ∷ old) = b ∷ overwrite bs old

-- `copy_nonoverlapping` of the tensor into the slot, and a fill through `SlotWriter::payload`.
abbrev pub write_payload : ℕ → List ℕ → Mem → Mem
write_payload slot bytes = at_slot slot (λ s. record s { payload = overwrite bytes s.payload })

-- The store of `STATE_COMMITTED` with what follows it.
unfoldable pub commit_slot : ℕ → Mem → Mem
commit_slot slot m =
    let m1 = at_slot slot (λ s. record s { state = state_committed }) m in
    signal_publish (record m1 { publish_count = u64 (m1.publish_count + 1) })

abbrev pub view_header : TensorView → Header
view_header v = record {
  dtype = v.dtype;
  ndim = v.ndim;
  shape = v.shape;
  strides = v.strides;
  nbytes = length v.bytes;
  timestamp_ns = v.timestamp_ns;
}

-- The part of `publish` behind a reservation; `copying` is what other processes do to the memory
-- between the reservation and the commit.
abbrev pub finish_publish : TensorView → (Mem → Mem) → Outcome Reserved → Outcome PublishResult
finish_publish v copying none = none
finish_publish v copying (some (err e, m)) = some (err e, m)
finish_publish v copying (some (ok none, m)) = some (ok none, m)
finish_publish v copying (some (ok (some a), m)) = some (
  ok (
      some (record {
        sequence = a.sequence;
        slot_index = a.slot;
        nbytes = length v.bytes;
        readers = count_ones 64 a.mask;
      })),
  commit_slot a.slot (write_payload a.slot v.bytes (copying m)),
)

-- `SlotWriter`
pub record SlotWriter : Type 0 where
  pub slot : ℕ
  pub sequence : ℕ
  pub mask : ℕ
  pub nbytes : ℕ
  pub committed : Bool

abbrev pub finish_reserve : ℕ → Outcome Reserved → Outcome SlotWriter
finish_reserve nbytes none = none
finish_reserve nbytes (some (err e, m)) = some (err e, m)
finish_reserve nbytes (some (ok none, m)) = some (ok none, m)
finish_reserve nbytes (some (ok (some a), m)) = some (
  ok (
      some (record {
        slot = a.slot;
        sequence = a.sequence;
        mask = a.mask;
        nbytes = nbytes;
        committed = false;
      })),
  m,
)

module _ (h : Host) (r : Ring) where
  -- `Producer::publish`
  unfoldable pub publish :
      TensorView → Backpressure → ℕ → (Mem → Mem) → List Tick → Mem → Outcome PublishResult
  publish v policy deadline copying ticks m =
      if ltb r.slot_capacity (length v.bytes)
      then some (err (invalid (tensor_requires (length v.bytes) r.slot_capacity)), m)
      else finish_publish v copying (acquire h r (view_header v) policy deadline ticks m)

  -- `Producer::reserve`
  unfoldable pub reserve : DType → List ℕ → Backpressure → ℕ → List Tick → Mem → Outcome SlotWriter
  reserve dtype shape policy deadline ticks m =
      let nbytes = byte_size dtype shape in
      if ltb max_ndim (length shape)
      then some (err (invalid (ndim_exceeds (length shape))), m)
      else if ltb r.slot_capacity nbytes
      then some (err (invalid (tensor_requires nbytes r.slot_capacity)), m)
      else finish_reserve nbytes (
          acquire h r
            (record {
              dtype = dtype;
              ndim = length shape;
              shape = pad shape;
              strides = pad (strides_loop dtype shape).1;
              nbytes = nbytes;
              timestamp_ns = none;
            })
            policy deadline ticks m)

  -- `Producer::reserve_without_commit`
  unfoldable pub reserve_without_commit : TensorView → Mem → Result ℕ × Mem
  reserve_without_commit v m =
      let (res, m1) = attempt h r (view_header v) m in
      elim res [ none ↦ (err ring_full, m1) | some a ↦ (ok a.slot, m1) ]

-- `SlotWriter::set_timestamp_ns`
unfoldable pub set_timestamp_ns : SlotWriter → ℕ → Mem → Mem
set_timestamp_ns w ns = at_slot w.slot (λ s. record s { timestamp_ns = ns })

-- `SlotWriter::commit`
unfoldable pub commit : SlotWriter → Mem → PublishResult × Mem
commit w m = (
  record {
    sequence = w.sequence;
    slot_index = w.slot;
    nbytes = w.nbytes;
    readers = count_ones 64 w.mask;
  },
  commit_slot w.slot m,
)

-- `SlotWriter::release_slot`, which `abort` and a drop without a commit run.
unfoldable pub release_slot : Host → SlotWriter → Mem → Mem
release_slot h w m =
    let m1 = lock_registry h m in
    let m2 = at_slot w.slot (λ s. record s { mask = 0; readers = 0; state = state_free }) m1 in
    let m3 = record m2 {
      next_seq = if m2.next_seq == u64 (w.sequence + 1) then w.sequence else m2.next_seq;
    } in
    signal_reclaim (unlock_registry m3)

-- `SlotWriter::abort`, and `Drop for SlotWriter`.
unfoldable pub abort : Host → SlotWriter → Mem → SlotWriter × Mem
abort h w m = (record w { committed = true }, release_slot h w m)

unfoldable pub drop_writer : Host → SlotWriter → Mem → Mem
drop_writer h w m = if w.committed then m else release_slot h w m
