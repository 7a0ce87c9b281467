-- ===== src/Python/RingClass.antt =====
-- rust/tenzorbus-py/src/lib.rs, `PyRing`: what Python reads of a ring and the methods that do not
-- hand out a role.
use tenzor_bus.Common.{ℕ, ◌≡◌, refl, codes, true, false, List, [], ◌∷◌}
use tenzor_bus.Host.{Host}
use tenzor_bus.Mem.{Mem}
use tenzor_bus.Registry
use tenzor_bus.Create.{RingStats, stats}
use tenzor_bus.Handle.{Memory, Inner, set_unlink_on_drop, drop}
use tenzor_bus.Handle.Balance.{beside_log}
use tenzor_bus.Shm.Balance.{Log}

-- The getters.
unfoldable pub name : Inner → List ℕ
name i = i.name

unfoldable pub slot_count : Inner → ℕ
slot_count i = i.ring.slot_count

unfoldable pub slot_capacity : Inner → ℕ
slot_capacity i = i.ring.slot_capacity

-- A value in a dict: a text or a number.
pub data Item : Type 0 where
  text : List ℕ → Item
  number : ℕ → Item

-- The dict of the counts, in the order of its keys.
abbrev pub dict_of : List ℕ → RingStats → List (List ℕ × Item)
dict_of name s =
    (codes "name", text name)
    ∷ (codes "slot_count", number s.slot_count)
    ∷ (codes "slot_capacity", number s.slot_capacity)
    ∷ (codes "next_sequence", number s.next_sequence)
    ∷ (codes "consumers", number s.consumers)
    ∷ (codes "published", number s.published)
    ∷ (codes "dropped", number s.dropped)
    ∷ (codes "reaped", number s.reaped)
    ∷ (codes "free_slots", number s.free_slots)
    ∷ (codes "committed_slots", number s.committed_slots)
    ∷ []

unfoldable pub py_stats : Inner → Mem → List (List ℕ × Item)
py_stats i m = dict_of i.name (stats i.ring m)

unfoldable pub py_sweep : Host → Inner → Mem → Mem
py_sweep h i m = Registry.sweep h i.ring m

unfoldable pub unlink_on_close : Inner → Inner
unlink_on_close i = set_unlink_on_drop true i

unfoldable pub keep_on_close : Inner → Inner
keep_on_close i = set_unlink_on_drop false i

-- A handle that is told to keep the shared object does not unlink it when it is dropped, whoever
-- made the object.
pub keep_on_close-keeps :
    {K : Type 0} (memory : Memory K) (i : Inner) (p : K × Log)
    → (drop (beside_log memory) (keep_on_close i) p).1.unlinks ≡ p.1.unlinks
unfolding keep_on_close drop
keep_on_close-keeps memory i p = refl
