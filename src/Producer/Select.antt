-- ===== src/Producer/Select.antt =====
-- Which slot a reservation takes.
use tenzor_bus.Common.{
  below, ◌⊎◌, inr, inl, Bool-cases, ℕ, suc, ◌<◌, ◌≤◌, ◌≡◌, Bool, true, false, ◌&&◌, ◌==◌,
  if◌then◌else◌, for_to_inv, arith, Option, none, some,
}
use tenzor_bus.Proto.{state_free, state_committed, seq_newer}
use tenzor_bus.Mem.{Slot}
use tenzor_bus.Producer.Oldest.{Numbered, Oldest, Oldest-step}
use tenzor_bus.Producer.{Candidate, older, first_free, select_body, prefer_free, select}

-- A committed slot that no reader holds any more.
abbrev pub is_released : Slot → Bool
is_released s = s.state == state_committed && s.mask == 0

abbrev pub is_free : Slot → Bool
is_free s = s.state == state_free

module _ (slots : ℕ → Slot) where
  -- The slot found so far is the first free one.
  abbrev FirstFree : ℕ → Option ℕ → Type 0
  FirstFree k none = (j : ℕ) → j < k → is_free (slots j) ≡ false
  FirstFree k (some i) =
      (i < k) × (is_free (slots i) ≡ true) × ((j : ℕ) → j < i → is_free (slots j) ≡ false)

  select_body-free :
      (k : ℕ) (free : Option ℕ) (oldest : Candidate)
      → (select_body slots k (free, oldest)).0
        ≡ (if is_free (slots k) then first_free free k else free)
  select_body-free k free oldest = ground arith

  select_body-oldest :
      (k : ℕ) (free : Option ℕ) (oldest : Candidate)
      → (select_body slots k (free, oldest)).1
        ≡ (if is_released (slots k) then older oldest (slots k).sequence k else oldest)
  select_body-oldest k free oldest = ground arith

  FirstFree-step :
      (k : ℕ) (free : Option ℕ) (oldest : Candidate)
      → FirstFree k free
      → FirstFree (suc k) (select_body slots k (free, oldest)).0
  FirstFree-step k none oldest p = elim (Bool-cases (is_free (slots k))) [
    | inl e ↦ rw (select_body-free k none oldest, e) (omega arith, e, p)
    | inr e ↦
        rw (select_body-free k none oldest, e) (λ j lt. below {P = λ j. is_free (slots j)} p e j lt)
  ]
  FirstFree-step k (some i) oldest p = elim (Bool-cases (is_free (slots k))) [
    | inl e ↦ rw (select_body-free k (some i) oldest, e) (omega arith, p.1, p.2)
    | inr e ↦ rw (select_body-free k (some i) oldest, e) (omega arith, p.1, p.2)
  ]

  -- What a choice among `n` slots promises.
  abbrev pub Chosen : ℕ → (ℕ → ℕ) → Option ℕ → Type 0
  Chosen n num none =
      (j : ℕ) → j < n → (is_free (slots j) ≡ false) × (is_released (slots j) ≡ false)
  Chosen n num (some i) =
      (i < n)
      × ((is_free (slots i) ≡ true)
          ⊎ ((is_released (slots i) ≡ true)
              × ((j : ℕ) → j < n → is_free (slots j) ≡ false)
              × ((j : ℕ) → j < n → is_released (slots j) ≡ true → num i ≤ num j)))

  prefer_free-Chosen :
      (n : ℕ) (num : ℕ → ℕ) (free : Option ℕ) (oldest : Candidate)
      → FirstFree n free
      → Oldest is_released slots num n oldest
      → Chosen n num (prefer_free free oldest)
  prefer_free-Chosen n num (some i) oldest f o = (f.0, inl f.1)
  prefer_free-Chosen n num none none f o = λ j lt. (f j lt, o j lt)
  prefer_free-Chosen n num none (some (seq, i)) f o = (o.0, inr (o.1, f, o.3))

  -- The loop finds a slot exactly if there is a free one or a committed one without readers. It
  -- takes a free slot if there is any, else the released slot whose publication is the oldest,
  -- provided that the publications in released slots span less than 2^63 sequence numbers.
  pub select-Chosen :
      (n : ℕ) (num : ℕ → ℕ) → Numbered is_released slots n num → Chosen n num (select n slots)
  unfolding select
  select-Chosen n num w =
      let end =
        for_to_inv
          (λ k (acc : Option ℕ × Candidate).
            (k ≤ n → FirstFree k acc.0 × Oldest is_released slots num k acc.1))
          n (select_body slots) (none, none)
          (λ _. (λ j lt. absurd (omega arith), λ j lt. absurd (omega arith)))
          (λ i t lt p le.
            let q = p (omega arith) in
            (
              FirstFree-step i t.0 t.1 q.0,
              rw (select_body-oldest i t.0 t.1)
                  (Oldest-step is_released slots n num i t.1 w lt q.1),
            )) in
      let done = end (omega arith) in prefer_free-Chosen n num _ _ done.0 done.1

  -- Whatever the order of the numbers: the candidates are a free and a released slot, and there is
  -- no such slot where there is no candidate.
  abbrev FoundReleased : ℕ → ℕ → Candidate → Type 0
  FoundReleased n k none = (j : ℕ) → j < k → is_released (slots j) ≡ false
  FoundReleased n k (some (seq, i)) = (i < n) × (is_released (slots i) ≡ true)

  older-FoundReleased :
      (n k : ℕ) (best : Candidate)
      → k < n
      → is_released (slots k) ≡ true
      → FoundReleased n k best
      → FoundReleased n (suc k) (older best (slots k).sequence k)
  older-FoundReleased n k none lt e p = (lt, e)
  older-FoundReleased n k (some (seq, i)) lt e p =
      elim (Bool-cases (seq_newer seq (slots k).sequence)) [
        | inl new ↦ rw new (lt, e)
        | inr old ↦ rw old p
      ]

  skip-FoundReleased :
      (n k : ℕ) (best : Candidate)
      → is_released (slots k) ≡ false
      → FoundReleased n k best
      → FoundReleased n (suc k) best
  skip-FoundReleased n k none e p = λ j lt. below {P = λ j. is_released (slots j)} p e j lt
  skip-FoundReleased n k (some (seq, i)) e p = p

  FoundReleased-step :
      (n k : ℕ) (best : Candidate)
      → k < n
      → FoundReleased n k best
      → FoundReleased n
          (suc k)
          (if is_released (slots k) then older best (slots k).sequence k else best)
  FoundReleased-step n k best lt p = elim (Bool-cases (is_released (slots k))) [
    | inl e ↦ rw e (older-FoundReleased n k best lt e p)
    | inr e ↦ rw e (skip-FoundReleased n k best e p)
  ]

  -- A chosen slot is below the count, and free or released; if none is chosen, there is none.
  abbrev pub IsReclaimable : ℕ → Option ℕ → Type 0
  IsReclaimable n none =
      (j : ℕ) → j < n → (is_free (slots j) ≡ false) × (is_released (slots j) ≡ false)
  IsReclaimable n (some i) = (i < n) × ((is_free (slots i) ≡ true) ⊎ (is_released (slots i) ≡ true))

  prefer_free-IsReclaimable :
      (n : ℕ) (free : Option ℕ) (oldest : Candidate)
      → FirstFree n free
      → FoundReleased n n oldest
      → IsReclaimable n (prefer_free free oldest)
  prefer_free-IsReclaimable n (some i) oldest f o = (f.0, inl f.1)
  prefer_free-IsReclaimable n none none f o = λ j lt. (f j lt, o j lt)
  prefer_free-IsReclaimable n none (some (seq, i)) f o = (o.0, inr o.1)

  pub select-IsReclaimable : (n : ℕ) → IsReclaimable n (select n slots)
  unfolding select
  select-IsReclaimable n =
      let done =
        for_to_inv (λ k (acc : Option ℕ × Candidate). FirstFree k acc.0 × FoundReleased n k acc.1) n
          (select_body slots) (none, none)
          (λ j lt. absurd (omega arith), λ j lt. absurd (omega arith))
          (λ k t lt p. (
            FirstFree-step k t.0 t.1 p.0,
            rw (select_body-oldest k t.0 t.1) (FoundReleased-step n k t.1 lt p.1),
          )) in
      prefer_free-IsReclaimable n _ _ done.0 done.1
