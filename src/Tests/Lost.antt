-- ===== src/Tests/Lost.antt =====
-- Two runs in which a publication is lost to a registered consumer.
use tenzor_bus.Common.{◌<◌, ◌^◌, ◌≡◌, refl, true, false, for_to, some, arith}
use tenzor_bus.Common.Bits.{set_bit, test_bit}
use tenzor_bus.Proto.{state_committed}
use tenzor_bus.Errors.{ok}
use tenzor_bus.Mem.{Consumer, Mem}
use tenzor_bus.Registry.{consumer, reap_dead, active_mask}
use tenzor_bus.Producer.{
  release_slot, Reserved, abort, attempt, reserve_header, select, view_header, commit,
}
use tenzor_bus.Registry.{is_dead}
use tenzor_bus.Consumer.Scan.{is_pending}
use tenzor_bus.Create.{format}
use tenzor_bus.Consumer.{TensorMeta, taken}
use tenzor_bus.Delivery.Lost.{aborted_number_is_lost, late_commit_is_lost}
use tenzor_bus.System.{writer_of}
use tenzor_bus.Tests.Scenario.{
  second_slot, blank, host, ring, reader, view, first_slot, first_meta, with_reader, reserved,
  reserved-eq,
}

-- A slot is reserved before the reader registers, and given back after it.
abbrev early : Mem
early = (attempt host ring (view_header view) blank).1

abbrev early_slot : Reserved
early_slot = record { slot = 0; sequence = 1; mask = 0 }

early-eq : attempt host ring (view_header view) blank ≡ (some early_slot, early)
unfolding for_to reap_dead format attempt reserve_header select active_mask set_bit
early-eq = refl

abbrev late_reader : Consumer
late_reader = record { index = 0; generation = 1; last_sequence = 1; closed = false }

abbrev late : Mem
late = (consumer host ring early).1

late-eq : consumer host ring early ≡ (ok late_reader, late)
unfolding consumer for_to reap_dead format attempt reserve_header select active_mask set_bit
late-eq = refl

abbrev given_back : Mem
given_back = (abort host (writer_of early_slot 3) late).1

abbrev again : Mem
again = (attempt host ring (view_header view) given_back).1

again-eq : attempt host ring (view_header view) given_back ≡ (some first_slot, again)
unfolding consumer for_to reap_dead format attempt reserve_header select active_mask set_bit abort
    release_slot
again-eq = refl

late-alive : is_dead host (late.entries 0) ≡ false
unfolding consumer for_to reap_dead format attempt reserve_header select active_mask set_bit
late-alive = refl

blank-low : blank.next_seq < 2 ^ 62
unfolding format for_to
blank-low = omega arith

aborted_number_is_lost_example :
    (((commit (writer_of first_slot 3) again).1.slots 0).state ≡ state_committed)
    × (test_bit ((commit (writer_of first_slot 3) again).1.slots 0).mask 0 ≡ true)
    × (is_pending late_reader ((commit (writer_of first_slot 3) again).1.slots 0) ≡ false)
aborted_number_is_lost_example =
    aborted_number_is_lost host host ring (view_header view) (view_header view) 3 3 blank blank-low
      early-eq late-eq late-alive again-eq

-- Two slots are reserved for the reader, and the later one is taken before the earlier is
-- committed.
abbrev two_reserved : Mem
two_reserved = (attempt host ring (view_header view) reserved).1

two-eq : attempt host ring (view_header view) reserved ≡ (some second_slot, two_reserved)
unfolding consumer for_to reap_dead format attempt reserve_header select active_mask set_bit
two-eq = refl

abbrev second_meta : TensorMeta
second_meta = record first_meta { sequence = 2; slot_index = 1 }

reader-low : with_reader.next_seq < 2 ^ 62
unfolding consumer for_to reap_dead format
reader-low = omega arith

first-number : (two_reserved.slots 0).sequence ≡ 1
unfolding consumer for_to reap_dead format attempt reserve_header select active_mask set_bit
first-number = refl

late_commit_is_lost_example :
    (((commit (writer_of first_slot 3) two_reserved).1.slots 0).state ≡ state_committed)
    × (((commit (writer_of first_slot 3) two_reserved).1.slots 0).mask
        ≡ (two_reserved.slots 0).mask)
    × (is_pending
          (taken host reader second_meta two_reserved).0
          ((commit (writer_of first_slot 3) two_reserved).1.slots 0)
        ≡ false)
late_commit_is_lost_example =
    late_commit_is_lost host host ring (view_header view) (view_header view) 3 with_reader reader
      second_meta two_reserved reader-low reserved-eq two-eq refl first-number
