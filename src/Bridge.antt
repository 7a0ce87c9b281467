-- ===== src/Bridge.antt =====
-- integration/bridge/src/main.rs: `BusSink`, which hands slots of the ring to a decoder and
-- publishes them, and the options that the program makes of its arguments. The decoder is not part
-- of the repository: it is any sequence of calls of the sink. The ring enters as the operations
-- that the sink calls, on a memory of any type.
pub mod Balance
pub mod Options
pub mod Main
pub mod Ingest
use tenzor_bus.Common.{
  ℕ, ◌+◌, ◌*◌, ◌%◌, ◌^◌, ◌≡◌, Bool, true, false, not, ◌==◌, if◌then◌else◌, u32, u64, Option, none,
  some, List, [], ◌∷◌, ◌++◌,
}
use tenzor_bus.Proto.{f32}
use tenzor_bus.Errors.{Error, Result, ok, err}
use tenzor_bus.Tensor.{TensorView, contiguous, with_timestamp_ns}
use tenzor_bus.Producer.{PublishResult, SlotWriter}

-- What the sink calls; the producer, the `Block` policy and the timeout are fixed. `discard` is
-- both `abort` and a drop without a commit.
pub record BusApi (M : Type 0) : Type 0 where
  pub reserve : List ℕ → M → Result (Option SlotWriter) × M
  pub publish : TensorView → M → Result (Option PublishResult) × M
  pub commit : SlotWriter → M → PublishResult × M
  pub discard : SlotWriter → M → M
  pub set_timestamp_ns : SlotWriter → ℕ → M → M
  -- `payload[0] += 1.0`
  pub perturb : SlotWriter → M → M

pub data SinkError : Type 0 where
  wrong_length : ℕ → ℕ → SinkError
  reserve_failed publish_failed view_failed : Error → SinkError
  no_slot : SinkError
  tensor_and_destination : SinkError
  no_tensor_no_destination : SinkError

pub data SinkResult {ℓ} (A : Type ℓ) : Type ℓ where
  done : A → SinkResult A
  bail : SinkError → SinkResult A

-- `i64`: `negative n` is -(n + 1).
pub data Pts : Type 0 where
  millis negative : ℕ → Pts

-- `pts.max(0) as u64 * 1_000_000`
unfoldable pub media_ns : Pts → ℕ
media_ns (millis n) = u64 (n * 1000000)
media_ns (negative n) = 0

pub record BusSink : Type 0 where
  pub shape : List ℕ
  pub len : ℕ
  pub direct : Bool
  pub pending : Option SlotWriter
  pub published : ℕ
  pub destinations_taken : ℕ
  pub copied : ℕ
  pub slot_trace : List (ℕ × ℕ)
  pub corrupt_epoch : Option ℕ
  pub first_sequence : Option ℕ
  pub last_sequence : ℕ

-- `BusSink::new`
abbrev pub new_sink : ℕ → Bool → BusSink
new_sink resolution direct = record {
  shape = 3 ∷ u32 resolution ∷ u32 resolution ∷ [];
  len = u64 (3 * resolution * resolution);
  direct = direct;
  pending = none;
  published = 0;
  destinations_taken = 0;
  copied = 0;
  slot_trace = [];
  corrupt_epoch = none;
  first_sequence = none;
  last_sequence = 0;
}

abbrev pub record_slot : ℕ → ℕ → BusSink → BusSink
record_slot sequence slot s = record s { slot_trace = s.slot_trace ++ (sequence, slot) ∷ [] }

abbrev pub or_this : Option ℕ → ℕ → Option ℕ
or_this none x = some x
or_this (some y) x = some y

-- `record`
abbrev pub record_sequence : ℕ → BusSink → BusSink
record_sequence sequence s = record s {
  first_sequence = or_this s.first_sequence sequence;
  last_sequence = sequence;
  published = u64 (s.published + 1);
}

abbrev pub is_epoch : Option ℕ → ℕ → Bool
is_epoch none epoch = false
is_epoch (some e) epoch = e == epoch

module _ {M : Type 0} (api : BusApi M) where
  abbrev pub discard_pending : Option SlotWriter → M → M
  discard_pending none m = m
  discard_pending (some w) m = api.discard w m

  -- What follows the reservation; the writer that was pending is dropped as it is replaced.
  abbrev pub take_destination :
      Pts → BusSink → Result (Option SlotWriter) × M → SinkResult (Option SlotWriter) × BusSink × M
  take_destination pts s (err e, m) = (bail (reserve_failed e), s, m)
  take_destination pts s (ok none, m) = (bail no_slot, s, m)
  take_destination pts s (ok (some w), m) = (
    done (some w),
    record s { destinations_taken = u64 (s.destinations_taken + 1); pending = some w },
    discard_pending s.pending (api.set_timestamp_ns w (media_ns pts) m),
  )

  -- `video_destination`; the payload that it returns is that of the pending writer.
  unfoldable pub video_destination :
      Pts → ℕ → BusSink → M → SinkResult (Option SlotWriter) × BusSink × M
  video_destination pts len s m =
      if not s.direct
      then (done none, s, m)
      else if not (len == s.len)
      then (bail (wrong_length len s.len), s, m)
      else take_destination pts s (api.reserve s.shape m)

  abbrev pub commit_pending : SlotWriter → BusSink → M → SinkResult (Unit {0}) × BusSink × M
  commit_pending w s m =
      let (res, m') = api.commit w m in
      (done tt, record_sequence res.sequence (record_slot res.sequence w.slot s), m')

  abbrev pub finish_copy :
      BusSink → Result (Option PublishResult) × M → SinkResult (Unit {0}) × BusSink × M
  finish_copy s (err e, m) = (bail (publish_failed e), s, m)
  finish_copy s (ok none, m) = (bail no_slot, s, m)
  finish_copy s (ok (some res), m) = (
    done tt,
    record_sequence res.sequence
        (record_slot res.sequence res.slot_index (record s { copied = u64 (s.copied + 1) })),
    m,
  )

  abbrev pub copy_tensor :
      Pts → Result TensorView → BusSink → M → SinkResult (Unit {0}) × BusSink × M
  copy_tensor pts (err e) s m = (bail (view_failed e), s, m)
  copy_tensor pts (ok v) s m = finish_copy s (api.publish (with_timestamp_ns v (media_ns pts)) m)

  abbrev pub ready :
      ℕ
      → Pts
      → Option (List ℕ)
      → Option SlotWriter
      → BusSink
      → M
      → SinkResult (Unit {0}) × BusSink × M
  ready epoch pts none (some w) s m =
      commit_pending w s (if is_epoch s.corrupt_epoch epoch then api.perturb w m else m)
  ready epoch pts (some bytes) none s m = copy_tensor pts (contiguous f32 s.shape bytes) s m
  ready epoch pts (some bytes) (some w) s m = (bail tensor_and_destination, s, api.discard w m)
  ready epoch pts none none s m = (bail no_tensor_no_destination, s, m)

  -- `epoch_ready`; a tensor is given by its bytes.
  unfoldable pub epoch_ready :
      ℕ → Pts → Option (List ℕ) → BusSink → M → SinkResult (Unit {0}) × BusSink × M
  epoch_ready epoch pts tensor s m =
      ready epoch pts tensor s.pending (record s { pending = none }) m

  -- `abort_epoch`
  unfoldable pub abort_epoch : BusSink → M → BusSink × M
  abort_epoch s m = (record s { pending = none }, discard_pending s.pending m)

-- The calls of the decoder.
pub data Call : Type 0 where
  asks_destination : Pts → ℕ → Call
  epoch_is_ready : ℕ → Pts → Option (List ℕ) → Call
  aborts_epoch : Call

module _ {M : Type 0} (api : BusApi M) where
  unfoldable pub call : Call → BusSink → M → BusSink × M
  unfolding video_destination epoch_ready abort_epoch
  call (asks_destination pts len) s m =
      let (res, s', m') = video_destination api pts len s m in (s', m')
  call (epoch_is_ready epoch pts tensor) s m =
      let (res, s', m') = epoch_ready api epoch pts tensor s m in (s', m')
  call aborts_epoch s m = abort_epoch api s m

  unfoldable pub calls : List Call → BusSink → M → BusSink × M
  calls [] s m = (s, m)
  calls (c ∷ cs) s m = let (s', m') = call c s m in calls cs s' m'
