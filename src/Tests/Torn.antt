-- ===== src/Tests/Torn.antt =====
-- The slot's single stores and loads at concrete interleavings.
use tenzor_bus.Common.{ℕ, ◌+◌, ◌≡◌, refl, ◌==◌, if◌then◌else◌, List, [], ◌∷◌, ◌++◌, replicate}
use tenzor_bus.Common.Bits.{test_bit, clear_bit, count_ones}
use tenzor_bus.Seqlock
use tenzor_bus.Seqlock.{Publication, World, Reader, loads, nbytes_word}
use tenzor_bus.Seqlock.Run.{Event, run, fresh, snapshot}
use tenzor_bus.Seqlock.Lease.{taken_is_snapshot, lease_in_place}

-- Two bytes for the consumers 0 and 3.
abbrev two_bytes : Publication
two_bytes = record { word = λ o. if o == nbytes_word then 2 else 100 + o; mask = 9 }

-- The consumer looks too early, while the header is written; then at the committed slot.
abbrev early_and_late : List (Event 0)
early_and_late =
    Event.begin two_bytes
    ∷ (replicate 5 Event.store
        ++ (Event.load
            ∷ Event.load
            ∷ (replicate 30 Event.store ++ (Event.withdraws 3 ∷ replicate 30 Event.load))))

abbrev shown : List (ℕ × ℕ)
unfolding snapshot
shown = snapshot two_bytes loads

early_and_late_takes : (run 0 early_and_late fresh).reader ≡ Reader.taken 1 shown
unfolding run test_bit clear_bit count_ones Seqlock.words_from snapshot
early_and_late_takes = refl

taken_is_snapshot_example : shown ≡ snapshot ((run 0 early_and_late fresh).book 1) loads
taken_is_snapshot_example = taken_is_snapshot 0 early_and_late 1 shown early_and_late_takes

-- The producer looks at the slot again, and consumer 3 has given its bit back: the lease stays.
abbrev meanwhile : List (Event 0)
meanwhile =
    Event.begin two_bytes
    ∷ (replicate 4 Event.store ++ (Event.recount 1 ∷ Event.crash ∷ Event.elsewhere 2 ∷ []))

lease_in_place_example : (run 0 meanwhile (run 0 early_and_late fresh)).sequence ≡ 1
lease_in_place_example =
    (lease_in_place 0 early_and_late meanwhile 1 shown early_and_late_takes refl).1
