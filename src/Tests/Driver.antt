-- ===== src/Tests/Driver.antt =====
-- The lab at concrete inputs.
use tenzor_bus.Common.{
  inl, inr, ◌≡◌, ◌↔◌, refl, true, false, for_to, none, some, List, [], ◌∷◌, arith,
}
use tenzor_bus.Common.Bits.{set_bit}
use tenzor_bus.Proto.{i32, u8, itemsize}
use tenzor_bus.Errors.{ok}
use tenzor_bus.Mem.{Mem}
use tenzor_bus.Registry.{consumer, reap_dead, active_mask, is_active, is_dead}
use tenzor_bus.Tensor.{TensorView, new, contiguous, byte_size, strides_loop}
use tenzor_bus.Producer.{attempt, view_header, reserve_header, select, block}
use tenzor_bus.Consumer.{TensorMeta, steady, read_validated, lease_data}
use tenzor_bus.Create.{format}
use tenzor_bus.Delivery.{published, published_meta}
use tenzor_bus.Delivery.Typed.{IsTyped, received-IsTyped}
use tenzor_bus.Lab.{base_of, fill_from, fill, verify, as_bytes, as_elements, view_of}
use tenzor_bus.Lab.Payload.{verify_iff_fill, stale_payload_is_found}
use tenzor_bus.Lab.Delivered.{published_fill_verifies}
use tenzor_bus.Lab.Options.{ProduceOptions}
use tenzor_bus.Lab.Produce.{Round, produce_from_start}
use tenzor_bus.Lab.Produce.Totals.{Ends, HasRounds, produce-Ends}
use tenzor_bus.Lab.Consume.{Received}
use tenzor_bus.Tests.Scenario.{
  host, ring, reader, view, with_reader, reserved, reserved-eq, first_slot,
}

active_reader : is_active (with_reader.entries 0) ≡ true
unfolding consumer for_to reap_dead format
active_reader = refl

living_reader : is_dead host (with_reader.entries 0) ≡ false
unfolding consumer for_to reap_dead format
living_reader = refl

received-IsTyped_example :
    (read_validated ring reader (steady (published view first_slot reserved)) 0 1
      ≡ some (published_meta host view first_slot))
    × IsTyped
        (published_meta host view first_slot)
        (lease_data (published_meta host view first_slot) (published view first_slot reserved))
unfolding new byte_size itemsize
received-IsTyped_example =
    received-IsTyped host ring with_reader u8 (3 ∷ []) (1 ∷ []) (10 ∷ 20 ∷ 30 ∷ []) view refl
      reserved-eq reader (omega arith) active_reader living_reader (omega arith) (omega arith)

verify_iff_fill_example :
    (verify 1 (1000003 ∷ 1000004 ∷ []) ≡ none) ↔ ((1000003 ∷ 1000004 ∷ []) ≡ fill 1 2)
verify_iff_fill_example = verify_iff_fill 1 (1000003 ∷ 1000004 ∷ [])

stale_payload_is_found_example : verify 5 (fill 1 3) ≡ some 0
stale_payload_is_found_example =
    stale_payload_is_found 5 1 3 (omega arith) (λ e. absurd (omega arith))

-- Three elements under number 1.
abbrev lab_view : TensorView
lab_view = record {
  dtype = i32;
  ndim = 1;
  shape = 3 ∷ 0 ∷ 0 ∷ 0 ∷ 0 ∷ 0 ∷ 0 ∷ 0 ∷ [];
  strides = 4 ∷ 0 ∷ 0 ∷ 0 ∷ 0 ∷ 0 ∷ 0 ∷ 0 ∷ [];
  bytes = 67 ∷ 66 ∷ 15 ∷ 0 ∷ 68 ∷ 66 ∷ 15 ∷ 0 ∷ 69 ∷ 66 ∷ 15 ∷ 0 ∷ [];
  timestamp_ns = none;
}

abbrev lab_reserved : Mem
lab_reserved = (attempt host ring (view_header lab_view) with_reader).1

lab_reserved-eq :
    attempt host ring (view_header lab_view) with_reader ≡ (some first_slot, lab_reserved)
unfolding consumer for_to reap_dead format attempt reserve_header select active_mask set_bit
lab_reserved-eq = refl

lab_view-eq : view_of false with_reader.next_seq 3 ≡ ok lab_view
unfolding consumer for_to reap_dead format view_of contiguous new byte_size strides_loop itemsize
    as_bytes fill fill_from base_of
lab_view-eq = refl

published_fill_verifies_example :
    (t : TensorMeta) × (read_validated ring reader
        (steady (published lab_view first_slot lab_reserved))
        first_slot.slot
        first_slot.sequence
      ≡ some t)
    × (t.sequence ≡ with_reader.next_seq)
    × (verify t.sequence (as_elements (lease_data t (published lab_view first_slot lab_reserved)))
        ≡ none)
    × (as_elements (lease_data t (published lab_view first_slot lab_reserved)) ≡ fill t.sequence 3)
published_fill_verifies_example =
    published_fill_verifies host ring with_reader false 3 lab_view lab_view-eq lab_reserved-eq
      reader (omega arith) active_reader living_reader (omega arith) (omega arith)

-- Two leases in order, and the bytes of what the lab publishes.
abbrev two_leases : List Received
two_leases =
    record { sequence = 1; bytes = 67 ∷ 66 ∷ 15 ∷ 0 ∷ []; released = true }
    ∷ record { sequence = 2; bytes = 134 ∷ 132 ∷ 30 ∷ 0 ∷ []; released = true }
    ∷ []

-- Rounds in which nothing else happens, with one failed attempt at the deadline.
abbrev quiet_round : Round
quiet_round = record {
  started_s = 0;
  now_ms = 0;
  copying = λ m. m;
  ticks = record { now = 5000; others = λ m. m } ∷ [];
  others = λ m. m;
}

abbrev two_small : ProduceOptions
two_small = record {
  count = 2;
  elements = 4;
  timeout_ms = 5000;
  policy = block;
  vary = true;
  start_sequence = none;
  duration_s = 0;
}

two_small-HasRounds : HasRounds two_small 2 (quiet_round ∷ quiet_round ∷ [])
unfolding HasRounds
two_small-HasRounds = (inr (inl (omega arith)), (inr (inl (omega arith)), tt))

produce-Ends_example :
    Ends two_small
      (produce_from_start host ring two_small (quiet_round ∷ quiet_round ∷ []) with_reader).0
produce-Ends_example =
    produce-Ends host ring two_small (omega arith) (λ _. omega arith) refl
      (quiet_round ∷ quiet_round ∷ []) with_reader two_small-HasRounds
