-- ===== src/System/Order.antt =====
-- The numbers of the publications in the slots, and of those that each consumer has taken.
pub mod Shrink
pub mod Keep
pub mod Steps
use tenzor_bus.Common.{ℕ, ◌+◌, ◌^◌, ◌<◌, ◌≤◌, ◌≡◌, true, false, some, none, arith}
use tenzor_bus.Mem.{Mem, Slot, Ring, Consumer}
use tenzor_bus.Producer.{SlotWriter}
use tenzor_bus.Producer.Select.{is_free}
use tenzor_bus.System.{Held, System}
use tenzor_bus.System.Invariant.{Inv}

-- No number has reached 2^62, so none has wrapped.
abbrev pub Young : System → Type 0
Young s = s.mem.next_seq < 2 ^ 62

-- Every slot that is in use has a number below the counter, no two the same, and each consumer's
-- last number is at least that of every lease that it holds.
pub record Ordered (r : Ring) (s : System) : Type 0 where
  pub counting : 1 ≤ s.mem.next_seq
  pub numbered :
      (j : ℕ)
      → j < r.slot_count
      → is_free (s.mem.slots j) ≡ false
      → (1 ≤ (s.mem.slots j).sequence) × ((s.mem.slots j).sequence < s.mem.next_seq)
  pub distinct :
      (i j : ℕ)
      → i < r.slot_count
      → j < r.slot_count
      → is_free (s.mem.slots i) ≡ false
      → is_free (s.mem.slots j) ≡ false
      → (s.mem.slots i).sequence ≡ (s.mem.slots j).sequence
      → i ≡ j
  pub writer :
      (id : ℕ) (w : SlotWriter)
      → s.writers id ≡ some w
      → (w.slot < r.slot_count) × ((s.mem.slots w.slot).sequence ≡ w.sequence)
  pub low : (id : ℕ) (c : Consumer) → s.consumers id ≡ some c → c.last_sequence < 2 ^ 62
  pub seen :
      (l : ℕ) (x : Held) (c : Consumer)
      → s.leases l ≡ some x
      → s.consumers x.owner ≡ some c
      → x.meta.sequence ≤ c.last_sequence

-- The counter is the same, and every slot in use was in use, with the same number.
pub record Shrinks (r : Ring) (m m' : Mem) : Type 0 where
  pub next_seq : m'.next_seq ≡ m.next_seq
  pub used :
      (j : ℕ)
      → j < r.slot_count
      → is_free (m'.slots j) ≡ false
      → (is_free (m.slots j) ≡ false) × ((m'.slots j).sequence ≡ (m.slots j).sequence)

module _ (r : Ring) (s : System) (ord : Ordered r s) where
  -- A step that numbers no slot, and opens no writer.
  pub Ordered-Shrinks :
      (t : System)
      → Inv r t
      → Shrinks r s.mem t.mem
      → ((id : ℕ) (w : SlotWriter) → t.writers id ≡ some w → s.writers id ≡ some w)
      → ((id : ℕ) (c : Consumer) → t.consumers id ≡ some c → c.last_sequence < 2 ^ 62)
      → ((l : ℕ) (x : Held) (c : Consumer)
          → t.leases l ≡ some x
          → t.consumers x.owner ≡ some c
          → x.meta.sequence ≤ c.last_sequence)
      → Ordered r t
  Ordered-Shrinks t inv p writers low seen = record {
    counting = rw (p.next_seq) ord.counting;
    numbered = λ j lt u. ground (arith, p.next_seq, p.used j lt u, ord.numbered j lt);
    distinct = λ i j lt lt' u u' e.
        ground (arith, p.used i lt u, p.used j lt' u', ord.distinct i j lt lt');
    writer = λ id w e.
        let old = ord.writer id w (writers id w e) in
        let used : is_free (t.mem.slots w.slot) ≡ false = ground (arith, inv.writing id w e) in
        ground (arith, old, p.used w.slot old.0 used);
    low = low;
    seen = seen;
  }

  -- A step of the memory alone.
  pub Ordered-Keeps :
      (m : Mem)
      → Inv r (record s { mem = m })
      → Shrinks r s.mem m
      → Ordered r (record s { mem = m })
  Ordered-Keeps m inv p =
      Ordered-Shrinks (record s { mem = m }) inv p (λ id w e. e) ord.low ord.seen
