-- ===== src/Create/Counts.antt =====
-- What `stats` counts.
use tenzor_bus.Common.{ℕ, zero, suc, ◌+◌, ◌≤◌, ◌≡◌, refl, ◌==◌, if◌then◌else◌, for_to, arith}
use tenzor_bus.Proto.{state_free, state_committed}
use tenzor_bus.Mem.{Slot, Mem, Ring}
use tenzor_bus.Create.{count_body, stats}

-- How many of the first `n` slots are in a state.
unfoldable pub in_state : ℕ → ℕ → (ℕ → Slot) → ℕ
in_state state zero slots = 0
in_state state (suc n) slots = in_state state n slots + (if (slots n).state == state then 1 else 0)

count_loop :
    (slots : ℕ → Slot) (n : ℕ)
    → ((for_to n (count_body slots) (0, 0)).0 ≡ in_state state_free n slots)
      × ((for_to n (count_body slots) (0, 0)).1 ≡ in_state state_committed n slots)
unfolding for_to in_state
count_loop slots zero = (refl, refl)
count_loop slots (suc n) = ground (arith, count_loop slots n)

in_state-disjoint :
    (n : ℕ) (slots : ℕ → Slot) → in_state state_free n slots + in_state state_committed n slots ≤ n
unfolding in_state
in_state-disjoint zero slots = omega arith
in_state-disjoint (suc n) slots = ground (arith, in_state-disjoint n slots)

-- The counts of `stats` are the numbers of free and of committed slots; together they are at most
-- the number of slots.
pub stats_counts :
    (r : Ring) (m : Mem)
    → ((stats r m).free_slots ≡ in_state state_free r.slot_count m.slots)
      × ((stats r m).committed_slots ≡ in_state state_committed r.slot_count m.slots)
      × ((stats r m).free_slots + (stats r m).committed_slots ≤ r.slot_count)
unfolding stats
stats_counts r m =
    ground (arith, count_loop m.slots r.slot_count, in_state-disjoint r.slot_count m.slots)
