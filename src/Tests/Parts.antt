-- ===== src/Tests/Parts.antt =====
-- The theorems on the parts of the ring, applied to small memories.
use tenzor_bus.Common.{
  ℕ, suc, ◌≡◌, ◌≢◌, ◌↔◌, inl, inr, refl, true, false, for_to, map_below, ltb, ◌&&◌, none, [], ◌∷◌,
  arith, ◌+◌, ◌≤◌,
}
use tenzor_bus.Common.Bits.{test_bit}
use tenzor_bus.Proto.{state_free, state_committed, registry_active, max_consumers}
use tenzor_bus.Errors.{
  ok, err, capacity, maximum_consumers, lease_violation, released_twice, recycled,
}
use tenzor_bus.Host.{Host}
use tenzor_bus.Mem.{lock_registry, Mem, Slot, unlock_registry}
use tenzor_bus.Registry.{
  consumer, reap_dead, is_dead, is_active, active_mask, drop_consumer_bit, clear_reader, close,
}
use tenzor_bus.Registry.Drop.{drop_consumer_bit-eq, test_bit-active_mask}
use tenzor_bus.Registry.Reap.{Reaped, reap_dead-Reaped}
use tenzor_bus.Registry.Register.{is_vacant, consumer-full}
use tenzor_bus.Registry.Close.{Closed, close-Closed, close-clears}
use tenzor_bus.Producer.{Tick, block, acquire, select, view_header}
use tenzor_bus.Producer.Acquire.{acquire_ends, acquire-Explained, Explained}
use tenzor_bus.Producer.Oldest.{Oldest}
use tenzor_bus.Producer.Select.{Chosen, select-Chosen}
use tenzor_bus.Consumer.{scan_oldest, release}
use tenzor_bus.Consumer.Scan.{is_pending, scan_oldest-Oldest}
use tenzor_bus.Consumer.Release.{
  release_iff, Released, release-Released, release_twice, release_recycled,
}
use tenzor_bus.Create.{zeroed, zero_slot, zero_entry, stats}
use tenzor_bus.Create.Counts.{stats_counts, in_state}
use tenzor_bus.Tests.Scenario.{host, ring, reader, view, first_meta}

-- Only process 7 is alive.
abbrev lonely : Host
lonely = record host { signalable = λ p. false }

-- Slot `j` carries publication `j + 1` for the consumers of `mask`.
abbrev row : ℕ → ℕ → Slot
row mask j = record (zero_slot 64) { state = state_committed; sequence = suc j; mask = mask }

abbrev shelf : ℕ → Mem
shelf mask = record (zeroed 64) { slots = row mask }

-- Every entry names process `pid`.
abbrev crowd : ℕ → Mem
crowd pid = record (shelf 1) {
  entries = λ _. record zero_entry { state = registry_active; pid = pid };
}

drop_consumer_bit-eq_example :
    (drop_consumer_bit ring 0 (shelf 1)).0
    ≡ record (shelf 1) { slots = map_below 2 (clear_reader 0) (row 1) }
drop_consumer_bit-eq_example = drop_consumer_bit-eq ring 0 (shelf 1)

test_bit-active_mask_example :
    test_bit (active_mask (crowd 7)) 3 ≡ (ltb 3 max_consumers && is_active ((crowd 7).entries 3))
test_bit-active_mask_example = test_bit-active_mask (crowd 7) 3

reap_dead-Reaped_example : Reaped lonely ring (crowd 9) (reap_dead lonely ring (crowd 9))
reap_dead-Reaped_example = reap_dead-Reaped lonely ring (crowd 9)

abbrev crowded : Mem
crowded = (consumer host ring (crowd 7)).1

crowded-eq : consumer host ring (crowd 7) ≡ (err (capacity maximum_consumers), crowded)
unfolding consumer for_to reap_dead
crowded-eq = refl

consumer-full_example :
    (crowded ≡ unlock_registry (reap_dead host ring (lock_registry host (crowd 7))))
    × (is_vacant ((crowd 7).entries 5) ≡ false)
    × (is_dead host ((crowd 7).entries 5) ≡ false)
consumer-full_example = consumer-full host ring (crowd 7) 5 crowded-eq (omega arith)

close-Closed_example : Closed host ring reader (crowd 7) (close host ring reader (crowd 7)).1
close-Closed_example = close-Closed host ring reader (crowd 7) refl

close-clears_example : test_bit ((close host ring reader (crowd 7)).1.slots 1).mask 0 ≡ false
close-clears_example = close-clears host ring reader (crowd 7) 1 (omega arith) refl

select-Chosen_example : Chosen (row 0) 2 suc (select 2 (row 0))
select-Chosen_example =
    select-Chosen (row 0) 2 suc
      (record { number = λ j lt e. ground arith; window = λ i j li lj ei ej. omega arith })

scan_oldest-Oldest_example :
    Oldest (is_pending reader) (row 1) suc 2 (scan_oldest ring reader (row 1))
scan_oldest-Oldest_example =
    scan_oldest-Oldest ring reader (row 1) suc
      (record { number = λ j lt e. ground arith; window = λ i j li lj ei ej. omega arith })

release_iff_example :
    ((release host reader first_meta (shelf 1)).0 ≡ ok tt)
    ↔ ((((shelf 1).slots 0).sequence ≡ 1) × (test_bit ((shelf 1).slots 0).mask 0 ≡ true))
release_iff_example = release_iff host reader first_meta (shelf 1)

released : (release host reader first_meta (shelf 1)).0 ≡ ok tt
unfolding release test_bit
released = refl

release-Released_example :
    Released host reader first_meta (shelf 1) (release host reader first_meta (shelf 1)).1
release-Released_example = release-Released host reader first_meta (shelf 1) released

release_twice_example :
    (release host reader first_meta (release host reader first_meta (shelf 1)).1).0
    ≡ err (lease_violation released_twice)
release_twice_example = release_twice host reader first_meta (shelf 1) released

release_recycled_example :
    release host reader (record first_meta { slot_index = 1 }) (shelf 1)
    ≡ (err (lease_violation (recycled 1 1)), shelf 1)
release_recycled_example =
    release_recycled host reader (record first_meta { slot_index = 1 }) (shelf 1) (omega arith)

abbrev tick : Tick
tick = record { now = 5; others = λ m. m }

acquire_ends_example : acquire host ring (view_header view) block 5 (tick ∷ []) (crowd 7) ≢ none
acquire_ends_example =
    acquire_ends host ring (view_header view) block 5 (tick ∷ []) (crowd 7)
      (inr (inl (omega arith)))

acquire-Explained_example :
    Explained host ring
      (view_header view)
      block
      (acquire host ring (view_header view) block 5 (tick ∷ []) (crowd 7))
acquire-Explained_example =
    acquire-Explained host ring (view_header view) block 5 (tick ∷ []) (crowd 7)

stats_counts_example :
    ((stats ring (shelf 1)).free_slots ≡ in_state state_free 2 (row 1))
    × ((stats ring (shelf 1)).committed_slots ≡ in_state state_committed 2 (row 1))
    × ((stats ring (shelf 1)).free_slots + (stats ring (shelf 1)).committed_slots ≤ 2)
stats_counts_example = stats_counts ring (shelf 1)
