-- ===== src/Producer/Oldest.antt =====
-- The search for the oldest publication, which `reserve_header` and `scan_oldest` make over the
-- slots that a test `keep` accepts.
use mathlib.Core.Bool.{false≢true}
use native.Mathlib.Decide.{ℕ_discrete, dec_lt}
use tenzor_bus.Common.{
  below, ℕ, suc, ◌+◌, ◌<◌, ◌≤◌, ◌≡◌, ◌^◌, ◌↔◌, refl, sym, ◌∙◌, subst, Bool, true, false,
  if◌then◌else◌, Bool-cases, inl, inr, arith, u64, none, some,
}
use tenzor_bus.Proto.{seq_newer}
use tenzor_bus.Proto.Order.{seq_newer_iff_lt}
use tenzor_bus.Mem.{Slot}
use tenzor_bus.Producer.{Candidate, older}

module _ (keep : Slot → Bool) (slots : ℕ → Slot) where
  -- Publication `num j` is in slot `j`, and the numbers of the accepted slots span less than half
  -- of the 64-bit circle.
  pub record Numbered (n : ℕ) (num : ℕ → ℕ) : Type 0 where
    pub number : (j : ℕ) → j < n → keep (slots j) ≡ true → (slots j).sequence ≡ u64 (num j)
    pub window :
        (i j : ℕ)
        → i < n
        → j < n
        → keep (slots i) ≡ true
        → keep (slots j) ≡ true
        → num i < num j + 2 ^ 63

  -- The candidate so far is the oldest accepted slot.
  abbrev pub Oldest : (ℕ → ℕ) → ℕ → Candidate → Type 0
  Oldest num k none = (j : ℕ) → j < k → keep (slots j) ≡ false
  Oldest num k (some (seq, i)) =
      (i < k)
      × (keep (slots i) ≡ true)
      × (seq ≡ (slots i).sequence)
      × ((j : ℕ) → j < k → keep (slots j) ≡ true → num i ≤ num j)

  -- A bound on the numbers of the accepted slots, with one more slot looked at.
  least :
      (num : ℕ → ℕ) (v k : ℕ)
      → ((j : ℕ) → j < k → keep (slots j) ≡ true → v ≤ num j)
      → (keep (slots k) ≡ true → v ≤ num k)
      → (j : ℕ) → j < suc k
      → keep (slots j) ≡ true
      → v ≤ num j
  least num v k p last j lt h = elim (ℕ_discrete j k) [
    | yes q ↦ rw q (last (rw q at h))
    | no q ↦ p j (omega arith) h
  ]

  -- `seq_newer` compares the numbers of two accepted slots.
  newer_iff :
      {n : ℕ} {num : ℕ → ℕ} (i k : ℕ)
      → Numbered n num
      → i < n
      → k < n
      → keep (slots i) ≡ true
      → keep (slots k) ≡ true
      → (seq_newer (slots i).sequence (slots k).sequence ≡ true) ↔ (num k < num i)
  newer_iff {num} i k w lti ltk hi hk =
      rw (w.number i lti hi, w.number k ltk hk)
        (seq_newer_iff_lt (num i) (num k) (w.window i k lti ltk hi hk) (w.window k i ltk lti hk hi))

  Oldest-replace :
      (n : ℕ) (num : ℕ → ℕ) (k seq i : ℕ)
      → Numbered n num
      → k < n
      → Oldest num k (some (seq, i))
      → keep (slots k) ≡ true
      → Oldest num (suc k) (older (some (seq, i)) (slots k).sequence k)
  Oldest-replace n num k seq i w lt p e =
      let iff = newer_iff i k w (omega arith) lt p.1 e in
      elim (Bool-cases (seq_newer seq (slots k).sequence)) [
        | inl new ↦
            let lt' : num k < num i =
              iff.0 (subst (λ q. seq_newer q (slots k).sequence ≡ true) p.2 new) in
            rw new (
              omega arith,
              e,
              refl,
              least num (num k) k (λ j ltj h. omega (arith, p.3 j ltj h)) (λ _. omega arith),
            )
        | inr old ↦ rw old (
          omega arith,
          p.1,
          p.2,
          least num (num i) k p.3 (λ _. elim (dec_lt (num k) (num i)) [
            | yes q ↦ absurd (false≢true (sym old ∙ rw p.2 (iff.1 q)))
            | no q ↦ omega arith
          ]),
        )
      ]

  -- One round of the search.
  pub Oldest-step :
      (n : ℕ) (num : ℕ → ℕ) (k : ℕ) (best : Candidate)
      → Numbered n num
      → k < n
      → Oldest num k best
      → Oldest num (suc k) (if keep (slots k) then older best (slots k).sequence k else best)
  Oldest-step n num k none w lt p = elim (Bool-cases (keep (slots k))) [
    | inl e ↦ rw e (
      omega arith,
      e,
      refl,
      least num (num k) k (λ j lt' h. absurd (false≢true (sym (p j lt') ∙ h))) (λ _. omega arith),
    )
    | inr e ↦ rw e (λ j lt'. below {P = λ j. keep (slots j)} p e j lt')
  ]
  Oldest-step n num k (some (seq, i)) w lt p = elim (Bool-cases (keep (slots k))) [
    | inl e ↦ rw e (Oldest-replace n num k seq i w lt p e)
    | inr e ↦
        rw e (omega arith, p.1, p.2, least num (num i) k p.3 (λ h. absurd (false≢true (sym e ∙ h))))
  ]
