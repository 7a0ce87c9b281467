-- ===== src/Tests/Run.antt =====
-- The theorems on reachable states and on delivery, applied to the run of the scenario.
use tenzor_bus.Common.{◌<◌, ◌^◌, ℕ, ◌≡◌, ◌≢◌, refl, true, false, for_to, none, some, arith}
use tenzor_bus.Common.Bits.{count_ones, set_bit, test_bit}
use tenzor_bus.Proto.{seq_newer, from_code, code}
use tenzor_bus.Errors.{ok}
use tenzor_bus.Mem.{Mem}
use tenzor_bus.Registry.{consumer, reap_dead, active_mask}
use tenzor_bus.Producer.{
  attempt, reserve_header, select, view_header, commit_slot, commit, SlotWriter,
}
use tenzor_bus.Producer.Reserve.{Reservation, attempt-Reservation, attempt-none}
use tenzor_bus.Producer.Select.{is_free, is_released}
use tenzor_bus.Registry.{is_abandoned, is_active, is_dead}
use tenzor_bus.Consumer.Scan.{is_pending}
use tenzor_bus.Create.{format}
use tenzor_bus.Consumer.{read_validated, steady, lease_data, try_take, release}
use tenzor_bus.Consumer.Take.{Taking, try_take-Taking}
use tenzor_bus.Consumer.Validate.{Validated, read_validated-Validated}
use tenzor_bus.Delivery.{published, published_meta, publish_delivers, publish_is_taken}
use tenzor_bus.System.Invariant.{SlotHolds}
use tenzor_bus.System.Order.{Ordered}
use tenzor_bus.System.Inbox.{view as view_of, steps}
use tenzor_bus.System.Inbox.Refine.{Reach-Ordered}
use tenzor_bus.System.Safety.{lease_holds, writer_not_leased, writers_exclusive, release_succeeds}
use tenzor_bus.Tests.Scenario.{
  before_take, steps-before_take, delivered, host, ring, reader, view, first_slot, first_meta,
  with_reader, reserved, reserved-eq, writer, committed, taken-eq, with_lease, second_reserved,
  held, run, longer_run,
}

lease_holds_example : SlotHolds ring with_lease (record reader { last_sequence = 1 }) held
lease_holds_example = lease_holds run 0 held (record reader { last_sequence = 1 }) refl refl

-- The writer of the second slot, beside the lease on the first.
abbrev second_writer : SlotWriter
second_writer = record writer { slot = 1; sequence = 2 }

writer_not_leased_example : second_writer.slot ≢ held.meta.slot_index
writer_not_leased_example =
    writer_not_leased longer_run 0 0 second_writer held (record reader { last_sequence = 1 }) refl
      refl refl

writers_exclusive_example : ◌≡◌ {A = ℕ} 0 0
writers_exclusive_example =
    writers_exclusive longer_run 0 0 second_writer second_writer refl refl refl

release_succeeds_example :
    (release host (record reader { last_sequence = 1 }) first_meta with_lease).0 ≡ ok tt
release_succeeds_example =
    release_succeeds run 0 held (record reader { last_sequence = 1 }) host refl refl

attempt-Reservation_example :
    Reservation host ring (view_header view) with_reader first_slot reserved
attempt-Reservation_example =
    attempt-Reservation host ring (view_header view) with_reader reserved-eq

-- With one slot leased and the other being written, there is none to reserve.
abbrev exhausted : Mem
exhausted = (attempt host ring (view_header view) second_reserved).1

exhausted-eq : attempt host ring (view_header view) second_reserved ≡ (none, exhausted)
unfolding consumer for_to reap_dead format attempt reserve_header select active_mask set_bit commit
    commit_slot test_bit
exhausted-eq = refl

attempt-none_example :
    (is_free (second_reserved.slots 0) ≡ false)
    × (is_abandoned host (second_reserved.slots 0) ≡ false)
    × (is_released (exhausted.slots 0) ≡ false)
attempt-none_example =
    attempt-none host ring (view_header view) second_reserved 0 exhausted-eq (omega arith)

active_reader : is_active (with_reader.entries 0) ≡ true
unfolding consumer for_to reap_dead format
active_reader = refl

living_reader : is_dead host (with_reader.entries 0) ≡ false
unfolding consumer for_to reap_dead format
living_reader = refl

publish_delivers_example :
    (read_validated ring reader (steady (published view first_slot reserved)) 0 1
      ≡ some (published_meta host view first_slot))
    × (lease_data (published_meta host view first_slot) (published view first_slot reserved)
        ≡ view.bytes)
publish_delivers_example =
    publish_delivers host ring view with_reader reserved-eq reader (omega arith) active_reader
      living_reader (omega arith) (omega arith) (omega arith)

newer_first : seq_newer 1 0 ≡ true
unfolding seq_newer
newer_first = refl

second_idle : is_pending reader ((published view first_slot reserved).slots 1) ≡ false
unfolding consumer for_to reap_dead format attempt reserve_header select active_mask set_bit
    commit_slot
second_idle = refl

publish_is_taken_example :
    try_take ring reader (steady (published view first_slot reserved))
    ≡ some (published_meta host view first_slot)
publish_is_taken_example =
    publish_is_taken host ring view with_reader reserved-eq reader (omega arith) active_reader
      living_reader (omega arith) (omega arith) (omega arith) (omega arith) newer_first
      (λ j lt ne. rw (only_other j lt ne) second_idle)
  where
    only_other : (j : ℕ) → j < 2 → j ≢ 0 → j ≡ 1
    only_other j lt ne = omega arith

try_take-Taking_example : Taking ring reader committed first_meta
try_take-Taking_example = try_take-Taking ring reader committed taken-eq

validated-eq : read_validated ring reader (steady committed) 0 1 ≡ some first_meta
unfolding consumer for_to reap_dead format attempt reserve_header select active_mask set_bit commit
    commit_slot test_bit read_validated from_code code count_ones
validated-eq = refl

read_validated-Validated_example : Validated ring reader (steady committed) 0 1 first_meta
read_validated-Validated_example =
    read_validated-Validated ring reader (steady committed) 0 1 validated-eq

few_steps : steps before_take < 2 ^ 61
few_steps = omega (arith, steps-before_take)

Reach-Ordered_example : Ordered ring delivered
Reach-Ordered_example = Reach-Ordered before_take few_steps
