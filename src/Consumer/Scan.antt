-- ===== src/Consumer/Scan.antt =====
-- What a consumer finds: `scan_oldest`, and the passes of `try_take`.
use tenzor_bus.Common.{
  ℕ, ◌<◌, ◌≤◌, ◌≡◌, refl, Bool, true, for_to_inv, arith, none, some, Bool-cases, inl, inr,
}
use tenzor_bus.Proto.{seq_newer}
use tenzor_bus.Mem.{Slot, Ring, Consumer}
use tenzor_bus.Producer.{Candidate, older}
use tenzor_bus.Producer.Oldest.{Numbered, Oldest, Oldest-step}
use tenzor_bus.Consumer.{is_addressed, scan_body, scan_oldest}

-- The slot holds a committed publication that is addressed to `c` and newer than all it has taken.
abbrev pub is_pending : Consumer → Slot → Bool
is_pending c s = is_addressed c.index c.last_sequence s

-- One pass finds nothing exactly if nothing is pending for the consumer, else the pending
-- publication with the smallest number, with its slot; all provided that the pending publications
-- span less than 2^63 sequence numbers.
pub scan_oldest-Oldest :
    (r : Ring) (c : Consumer) (slots : ℕ → Slot) (num : ℕ → ℕ)
    → Numbered (is_pending c) slots r.slot_count num
    → Oldest (is_pending c) slots num r.slot_count (scan_oldest r c slots)
unfolding scan_oldest
scan_oldest-Oldest r c slots num w =
    let end =
      for_to_inv (λ k best. (k ≤ r.slot_count → Oldest (is_pending c) slots num k best))
        r.slot_count (scan_body c.index c.last_sequence slots) none (λ _ j lt. absurd (omega arith))
        (λ i t lt p le.
          Oldest-step (is_pending c) slots r.slot_count num i t w lt (p (omega arith))) in
    end (omega arith)

-- Whatever the order, what a pass finds is pending.
abbrev pub IsFound : Consumer → ℕ → (ℕ → Slot) → Candidate → Type 0
IsFound c n slots none = Unit {0}
IsFound c n slots (some (seq, i)) =
    (i < n) × (seq ≡ (slots i).sequence) × (is_pending c (slots i) ≡ true)

scan_body-IsFound :
    (c : Consumer) (n : ℕ) (slots : ℕ → Slot) (i : ℕ) (best : Candidate)
    → i < n
    → IsFound c n slots best
    → IsFound c n slots (scan_body c.index c.last_sequence slots i best)
scan_body-IsFound c n slots i best lt p = elim (Bool-cases (is_pending c (slots i))) [
  | inl e ↦ rw e (keep e best p)
  | inr e ↦ rw e p
]
  where
    keep :
        is_pending c (slots i) ≡ true
        → (b : Candidate) → IsFound c n slots b
        → IsFound c n slots (older b (slots i).sequence i)
    keep e none q = (lt, refl, e)
    keep e (some (seq, j)) q = elim (Bool-cases (seq_newer seq (slots i).sequence)) [
      | inl new ↦ rw new (lt, refl, e)
      | inr old ↦ rw old q
    ]

pub scan_oldest-IsFound :
    (r : Ring) (c : Consumer) (slots : ℕ → Slot)
    → IsFound c r.slot_count slots (scan_oldest r c slots)
unfolding scan_oldest
scan_oldest-IsFound r c slots =
    for_to_inv (λ _ best. IsFound c r.slot_count slots best) r.slot_count
      (scan_body c.index c.last_sequence slots) none tt
      (λ i t lt p. scan_body-IsFound c r.slot_count slots i t lt p)
