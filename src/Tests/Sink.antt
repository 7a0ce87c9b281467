-- ===== src/Tests/Sink.antt =====
-- The theorems on the bridge's sink, applied to a ring that is only a counter.
use tenzor_bus.Common.{
  ◌^◌, ◌<◌, ℕ, ◌+◌, ◌≡◌, ◌≤◌, ◌*◌, refl, true, false, none, some, List, [], ◌∷◌, arith,
}
use tenzor_bus.Proto.{f32}
use tenzor_bus.Errors.{ok, err, ring_full}
use tenzor_bus.Host.{parse_u64}
use tenzor_bus.Tensor.{byte_size}
use tenzor_bus.Bridge.{
  call, BusApi, new_sink, Call, asks_destination, epoch_is_ready, aborts_epoch, millis, calls,
}
use tenzor_bus.Bridge.Balance.{logged, no_calls, IsBalanced, sink_balance}
use tenzor_bus.Bridge.Ingest.{ingest, Settled, ingest-Settled}
use tenzor_bus.Bridge.Options.{
  value, number, ring_options, frame_fits, resolution_of, resolution_key,
}

-- The memory counts the publications.
abbrev counter : BusApi ℕ
counter = record {
  reserve = λ shape n. (
    ok (some (record { slot = 0; sequence = n + 1; mask = 0; nbytes = 48; committed = false })),
    n,
  );
  publish = λ v n. (err ring_full, n);
  commit = λ w n. (
    record { sequence = w.sequence; slot_index = w.slot; nbytes = w.nbytes; readers = 0 },
    n + 1,
  );
  discard = λ w n. n;
  set_timestamp_ns = λ w ns n. n;
  perturb = λ w n. n;
}

-- A frame is published, one is given up, and one destination stays pending.
abbrev frames : List Call
frames =
    asks_destination (millis 5) 12
    ∷ epoch_is_ready 0 (millis 5) none
    ∷ asks_destination (millis 6) 12
    ∷ aborts_epoch
    ∷ asks_destination (millis 7) 12
    ∷ []

sink_balance_example :
    let (s, m') =
      calls
        (logged counter)
        frames
        (record (new_sink 2 true) { corrupt_epoch = none })
        (0, no_calls) in
    IsBalanced s m'.1
sink_balance_example = sink_balance counter 2 true none 0 frames

-- One epoch is published, and the number of a destination given up is used again.
frames-run :
    let (s, m') = calls (logged counter) frames (new_sink 2 true) (0, no_calls) in
    (s.slot_trace ≡ (1, 0) ∷ []) × (s.destinations_taken ≡ 3) × (m'.1.discarded ≡ 1)
unfolding calls call
frames-run = (refl, refl, refl)

-- "--resolution 2", in one argument each
abbrev arguments : List (List ℕ)
arguments = resolution_key ∷ (b'2' ∷ []) ∷ []

two : resolution_of arguments < 2 ^ 30
unfolding number value parse_u64
two = omega arith

frame_fits_example :
    (byte_size f32 (new_sink (resolution_of arguments) true).shape
      ≡ 4 * (new_sink (resolution_of arguments) true).len)
    × (byte_size f32 (new_sink (resolution_of arguments) true).shape
        ≤ (ring_options arguments).slot_capacity)
frame_fits_example = frame_fits arguments true two

-- The engine leaves a destination pending, and counts the one epoch that was published.
ingest-Settled_example :
    let (e, m') = ingest (logged counter) 2 true none frames (some 1) (0, no_calls) in
    Settled e (some 1) m'.1
ingest-Settled_example = ingest-Settled counter 2 true none frames (some 1) 0
