-- ===== src/Consumer/Take.antt =====
-- What `try_take` returns when its loads see one state of the memory.
use tenzor_bus.Common.{
  false, ◌^◌, ℕ, zero, suc, ◌+◌, ◌<◌, ◌≡◌, refl, sym, subst, true, arith, none, some, Bool-cases,
  inl, inr,
}
use tenzor_bus.Proto.{seq_newer}
use tenzor_bus.Mem.{Slot, Mem, Ring, Consumer}
use tenzor_bus.Producer.{Candidate}
use tenzor_bus.Consumer.{TensorMeta, steady, scan_oldest, rescan, read_validated, try_take}
use tenzor_bus.Proto.Order.{seq_newer_irrefl}
use tenzor_bus.Producer.Oldest.{Oldest}
use tenzor_bus.Consumer.Scan.{is_pending, scan_oldest-Oldest, IsFound, scan_oldest-IsFound}
use tenzor_bus.Consumer.Validate.{Validated, read_validated-Validated}

-- Passes that see the same slots find the same publication.
pub rescan_same :
    (r : Ring) (c : Consumer) (slots : ℕ → Slot) (best : ℕ × ℕ)
    → scan_oldest r c slots ≡ some best
    → seq_newer best.0 best.0 ≡ false
    → (rounds pass : ℕ) → rescan r c (λ _. slots) rounds pass best ≡ best
unfolding rescan
rescan_same r c slots best e irrefl zero pass = refl
rescan_same r c slots best e irrefl (suc rounds) pass = rw (e, rescan, irrefl)

module _ (r : Ring) (c : Consumer) (m : Mem) where
  abbrev Found : ℕ × ℕ → Type 0
  Found best = IsFound c r.slot_count m.slots (some best)

  rescan-Found :
      (rounds pass : ℕ) (best : ℕ × ℕ)
      → Found best
      → Found (rescan r c (λ _. m.slots) rounds pass best)
  unfolding rescan
  rescan-Found zero pass best p = p
  rescan-Found (suc rounds) pass best p =
      go (scan_oldest r c m.slots) refl (scan_oldest-IsFound r c m.slots)
        (λ next q. rescan-Found rounds (pass + 1) next q)
    where
      go :
          (o : Candidate)
          → scan_oldest r c m.slots ≡ o
          → IsFound c r.slot_count m.slots (scan_oldest r c m.slots)
          → ((next : ℕ × ℕ) → Found next → Found (rescan r c (λ _. m.slots) rounds (pass + 1) next))
          → Found (rescan r c (λ _. m.slots) (suc rounds) pass best)
      go none e f rest = rw (e, rescan) p
      go (some next) e f rest = elim (Bool-cases (seq_newer best.0 next.0)) [
        | inl new ↦
            rw (e, rescan, new) (rest next (subst (λ o. IsFound c r.slot_count m.slots o) e f))
        | inr old ↦ rw (e, rescan, old) p
      ]

  -- The publication that `try_take` has validated, at one moment.
  pub record Taking (t : TensorMeta) : Type 0 where
    pub in_range : t.slot_index < r.slot_count
    pub newer : seq_newer t.sequence c.last_sequence ≡ true
    pub valid : Validated r c (steady m) t.slot_index t.sequence t

  try_take-parts :
      {t : TensorMeta}
      → try_take r c (steady m) ≡ some t
      → (best : ℕ × ℕ) × Found best × (read_validated r c (steady m) best.1 best.0 ≡ some t)
  unfolding try_take
  try_take-parts {t} e = go (scan_oldest r c m.slots) refl (scan_oldest-IsFound r c m.slots)
    where
      go :
          (o : Candidate)
          → scan_oldest r c m.slots ≡ o
          → IsFound c r.slot_count m.slots (scan_oldest r c m.slots)
          → (best : ℕ × ℕ) × Found best × (read_validated r c (steady m) best.1 best.0 ≡ some t)
      go none q f = let z = rw (q, try_take) at e in cc
      go (some first) q f = (
        rescan r c (λ _. m.slots) r.slot_count 1 first,
        rescan-Found r.slot_count 1 first (subst (λ o. IsFound c r.slot_count m.slots o) q f),
        rw (q, try_take) at e,
      )

  -- What `try_take` returns is committed, addressed to the consumer, and newer than the last that it
  -- took.
  pub try_take-Taking : {t : TensorMeta} → try_take r c (steady m) ≡ some t → Taking t
  try_take-Taking {t} e =
      let (best, found, read) = try_take-parts e in
      let v = read_validated-Validated r c (steady m) best.1 best.0 read in
      record {
        in_range = rw (v.slot_index) (found.0);
        newer = ground (arith, found, v.sequence);
        valid =
            subst (λ i. Validated r c (steady m) i t.sequence t) (sym v.slot_index)
              (subst (λ n. Validated r c (steady m) best.1 n t) (sym v.sequence) v);
      }

  -- A pass that sees the same slots does not look further.
  try_take-scan :
      {t : TensorMeta}
      → ((j : ℕ)
          → j < r.slot_count
          → is_pending c (m.slots j) ≡ true
          → (m.slots j).sequence < 2 ^ 62)
      → try_take r c (steady m) ≡ some t
      → scan_oldest r c m.slots ≡ some (t.sequence, t.slot_index)
  unfolding try_take
  try_take-scan {t} small e = go (scan_oldest r c m.slots) refl (scan_oldest-IsFound r c m.slots)
    where
      go :
          (o : Candidate)
          → scan_oldest r c m.slots ≡ o
          → IsFound c r.slot_count m.slots (scan_oldest r c m.slots)
          → scan_oldest r c m.slots ≡ some (t.sequence, t.slot_index)
      go none q f = let z = rw (q, try_take) at e in cc
      go (some (seq, i)) q f =
          let found : Found (seq, i) = subst (λ o. IsFound c r.slot_count m.slots o) q f in
          let low : seq < 2 ^ 62 = rw (found.1) (small i found.0 found.2) in
          let same =
            rescan_same r c m.slots (seq, i) q (seq_newer_irrefl seq (omega arith)) r.slot_count
              1 in
          let z = rw (q, try_take, same) at e in
          let v = read_validated-Validated r c (steady m) i seq z in rw (v.sequence, v.slot_index) q

  -- Where the publications that are pending have numbers below 2^62, what `try_take` returns is the
  -- oldest of them.
  pub try_take-Oldest :
      {t : TensorMeta}
      → ((j : ℕ)
          → j < r.slot_count
          → is_pending c (m.slots j) ≡ true
          → (m.slots j).sequence < 2 ^ 62)
      → try_take r c (steady m) ≡ some t
      → Oldest
          (is_pending c)
          m.slots
          (λ j. (m.slots j).sequence)
          r.slot_count
          (some (t.sequence, t.slot_index))
  try_take-Oldest {t} small e =
      subst (λ o. Oldest (is_pending c) m.slots (λ j. (m.slots j).sequence) r.slot_count o)
        (try_take-scan small e)
        (scan_oldest-Oldest r c m.slots (λ j. (m.slots j).sequence)
          (record {
            number = λ j lt p. let k = small j lt p in omega arith;
            window = λ i j lt lt' p p'. let k = small i lt p in omega arith;
          }))
