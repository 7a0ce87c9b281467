-- ===== src/Bridge/Balance.antt =====
-- What the sink's counters say of the ring.
use tenzor_bus.Common.{
  ℕ, ◌+◌, ◌≡◌, refl, Bool, true, false, not, ◌==◌, if◌then◌else◌, u64, Option, none, some, List, [],
  ◌∷◌, ◌++◌, length, arith,
}
use tenzor_bus.Errors.{Result, ok, err}
use tenzor_bus.Tensor.{TensorView, contiguous, with_timestamp_ns}
use tenzor_bus.Proto.{f32}
use tenzor_bus.Producer.{PublishResult, SlotWriter}
use tenzor_bus.Bridge.{
  BusApi, BusSink, new_sink, or_this, is_epoch, done, bail, Pts, media_ns, take_destination,
  video_destination, finish_copy, copy_tensor, ready, epoch_ready, abort_epoch, Call,
  asks_destination, epoch_is_ready, aborts_epoch, call, calls, wrong_length,
}

-- What the ring has seen: the reservations it gave, the commits, the slots that came back, and the
-- tensors it copied.
pub record Log : Type 0 where
  pub reserved : ℕ
  pub committed : ℕ
  pub discarded : ℕ
  pub copies : ℕ

abbrev pub no_calls : Log
no_calls = record { reserved = 0; committed = 0; discarded = 0; copies = 0 }

abbrev pub count_reserve :
    {M : Type 0} → Result (Option SlotWriter) × M → Log → Result (Option SlotWriter) × (M × Log)
count_reserve (err e, m) g = (err e, (m, g))
count_reserve (ok none, m) g = (ok none, (m, g))
count_reserve (ok (some w), m) g = (ok (some w), (m, record g { reserved = g.reserved + 1 }))

abbrev pub count_copy :
    {M : Type 0}
    → Result (Option PublishResult) × M
    → Log
    → Result (Option PublishResult) × (M × Log)
count_copy (err e, m) g = (err e, (m, g))
count_copy (ok none, m) g = (ok none, (m, g))
count_copy (ok (some p), m) g = (ok (some p), (m, record g { copies = g.copies + 1 }))

-- The operations on a memory beside the log.
abbrev pub logged : {M : Type 0} → BusApi M → BusApi (M × Log)
logged api = record {
  reserve = λ shape p. count_reserve (api.reserve shape p.0) p.1;
  publish = λ v p. count_copy (api.publish v p.0) p.1;
  commit = λ w p.
      let (res, m) = api.commit w p.0 in (res, (m, record (p.1) { committed = p.1.committed + 1 }));
  discard = λ w p. (api.discard w p.0, record (p.1) { discarded = p.1.discarded + 1 });
  set_timestamp_ns = λ w ns p. (api.set_timestamp_ns w ns p.0, p.1);
  perturb = λ w p. (api.perturb w p.0, p.1);
}

abbrev pub open_slots : Option SlotWriter → ℕ
open_slots none = 0
open_slots (some w) = 1

-- The sequence numbers at the ends of the trace.
abbrev pub first_of : List (ℕ × ℕ) → Option ℕ
first_of [] = none
first_of (e ∷ es) = some e.0

abbrev pub last_of : ℕ → List (ℕ × ℕ) → ℕ
last_of default [] = default
last_of default (e ∷ es) = last_of e.0 es

pub record IsBalanced (s : BusSink) (g : Log) : Type 0 where
  -- every reservation was committed, came back, or is the pending one
  pub reserved : g.reserved ≡ g.committed + g.discarded + open_slots s.pending
  pub destinations : s.destinations_taken ≡ u64 g.reserved
  pub copied : s.copied ≡ u64 g.copies
  pub published : s.published ≡ u64 (g.committed + g.copies)
  pub traced : length s.slot_trace ≡ g.committed + g.copies
  pub first : s.first_sequence ≡ first_of s.slot_trace
  pub last : s.last_sequence ≡ last_of 0 s.slot_trace

length-snoc : (xs : List (ℕ × ℕ)) (x : ℕ × ℕ) → length (xs ++ x ∷ []) ≡ length xs + 1
length-snoc [] x = omega arith
length-snoc (y ∷ xs) x = omega (arith, length-snoc xs x)

last_of-snoc : (d : ℕ) (xs : List (ℕ × ℕ)) (x : ℕ × ℕ) → last_of d (xs ++ x ∷ []) ≡ x.0
last_of-snoc d [] x = refl
last_of-snoc d (y ∷ xs) x = last_of-snoc y.0 xs x

first_of-snoc :
    (xs : List (ℕ × ℕ)) (x : ℕ × ℕ) → first_of (xs ++ x ∷ []) ≡ or_this (first_of xs) x.0
first_of-snoc [] x = refl
first_of-snoc (y ∷ xs) x = refl

module _ {M : Type 0} (api : BusApi M) where
  take_destination-IsBalanced :
      (pts : Pts) (s : BusSink) (m : M) (g : Log) (x : Result (Option SlotWriter) × M)
      → IsBalanced s g
      → let (res, s', m') = take_destination (logged api) pts s (count_reserve x g) in
        IsBalanced s' m'.1
  take_destination-IsBalanced pts s m g (err e, m1) b = b
  take_destination-IsBalanced pts s m g (ok none, m1) b = b
  take_destination-IsBalanced pts s m g (ok (some w), m1) b = ground arith

  video_destination-IsBalanced :
      (pts : Pts) (len : ℕ) (s : BusSink) (m : M × Log)
      → IsBalanced s m.1
      → let (res, s', m') = video_destination (logged api) pts len s m in IsBalanced s' m'.1
  unfolding video_destination
  video_destination-IsBalanced pts len s m b = go (s.direct) (len == s.len)
    where
      go :
          (direct same : Bool)
          → let (res, s', m') =
              (if not direct
                then (done none, s, m)
                else if not same
                then (bail (wrong_length len s.len), s, m)
                else take_destination
                    (logged api)
                    pts
                    s
                    (count_reserve (api.reserve s.shape m.0) m.1)) in
            IsBalanced s' m'.1
      go false same = b
      go true false = b
      go true true = take_destination-IsBalanced pts s (m.0) (m.1) (api.reserve s.shape m.0) b

  finish_copy-IsBalanced :
      (s : BusSink) (g : Log) (x : Result (Option PublishResult) × M)
      → s.pending ≡ none
      → IsBalanced s g
      → let (res, s', m') = finish_copy (logged api) s (count_copy x g) in IsBalanced s' m'.1
  finish_copy-IsBalanced s g (err e, m1) p b = b
  finish_copy-IsBalanced s g (ok none, m1) p b = b
  finish_copy-IsBalanced s g (ok (some res), m1) p b = ground (
    arith,
    length-snoc s.slot_trace (res.sequence, res.slot_index),
    first_of-snoc s.slot_trace (res.sequence, res.slot_index),
    last_of-snoc 0 s.slot_trace (res.sequence, res.slot_index),
  )

  copy_tensor-IsBalanced :
      (pts : Pts) (x : Result TensorView) (s : BusSink) (m : M × Log)
      → s.pending ≡ none
      → IsBalanced s m.1
      → let (res, s', m') = copy_tensor (logged api) pts x s m in IsBalanced s' m'.1
  copy_tensor-IsBalanced pts (err e) s m p b = b
  copy_tensor-IsBalanced pts (ok v) s m p b =
      finish_copy-IsBalanced s (m.1) (api.publish (with_timestamp_ns v (media_ns pts)) m.0) p b

  ready-IsBalanced :
      (epoch : ℕ) (pts : Pts) (tensor : Option (List ℕ)) (s : BusSink) (m : M × Log)
      (pending : Option SlotWriter)
      → s.pending ≡ pending
      → IsBalanced s m.1
      → let (res, s', m') =
          ready (logged api) epoch pts tensor pending (record s { pending = none }) m in
        IsBalanced s' m'.1
  ready-IsBalanced epoch pts none s m (some w) e b =
      let res =
        (api.commit w (if is_epoch s.corrupt_epoch epoch then api.perturb w m.0 else m.0)).0 in
      ground (
        arith,
        length-snoc s.slot_trace (res.sequence, w.slot),
        first_of-snoc s.slot_trace (res.sequence, w.slot),
        last_of-snoc 0 s.slot_trace (res.sequence, w.slot),
      )
  ready-IsBalanced epoch pts (some bytes) s m none e b =
      copy_tensor-IsBalanced pts (contiguous f32 s.shape bytes) (record s { pending = none }) m refl
        (ground arith)
  ready-IsBalanced epoch pts (some bytes) s m (some w) e b = ground arith
  ready-IsBalanced epoch pts none s m none e b = ground arith

  call-IsBalanced :
      (c : Call) (s : BusSink) (m : M × Log)
      → IsBalanced s m.1
      → let (s', m') = call (logged api) c s m in IsBalanced s' m'.1
  unfolding call epoch_ready abort_epoch
  call-IsBalanced (asks_destination pts len) s m b = video_destination-IsBalanced pts len s m b
  call-IsBalanced (epoch_is_ready epoch pts tensor) s m b =
      ready-IsBalanced epoch pts tensor s m (s.pending) refl b
  call-IsBalanced aborts_epoch s m b = ground arith

  calls-IsBalanced :
      (cs : List Call) (s : BusSink) (m : M × Log)
      → IsBalanced s m.1
      → let (s', m') = calls (logged api) cs s m in IsBalanced s' m'.1
  unfolding calls
  calls-IsBalanced [] s m b = b
  calls-IsBalanced (c ∷ cs) s m b = calls-IsBalanced cs _ _ (call-IsBalanced c s m b)

  -- Whatever the decoder calls, and whatever the ring answers: every slot that was reserved was
  -- committed or came back, or is the one that is pending; the counters of destinations, copies and
  -- publications are, modulo 2^64, what the ring has seen; and the trace has one entry for each
  -- publication, with the first and the last sequence number at its ends.
  pub sink_balance :
      (resolution : ℕ) (direct : Bool) (corrupt : Option ℕ) (m : M) (cs : List Call)
      → let (s, m') =
          calls
            (logged api)
            cs
            (record (new_sink resolution direct) { corrupt_epoch = corrupt })
            (m, no_calls) in
        IsBalanced s m'.1
  sink_balance resolution direct corrupt m cs = calls-IsBalanced cs _ (m, no_calls) (ground arith)
