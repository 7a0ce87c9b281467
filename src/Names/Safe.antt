-- ===== src/Names/Safe.antt =====
-- What `safe_name` returns.
use tenzor_bus.Common.{
  subst, ℕ, zero, suc, ◌≤◌, ◌≡◌, refl, ap, true, false, take, length, List, [], ◌∷◌, arith,
}
use tenzor_bus.Errors.{ok}
use tenzor_bus.Host.{is_whitespace}
use tenzor_bus.Names.{trim_start, trim_end, is_safe, clean, clean_all, bounded, safe_name}

-- Every character is safe.
abbrev pub Clean : List ℕ → Type 0
Clean [] = Unit {0}
Clean (c ∷ cs) = (is_safe c ≡ true) × Clean cs

clean-is_safe : (c : ℕ) → is_safe (clean c) ≡ true
unfolding is_safe
clean-is_safe c = ground arith

clean_all-Clean : (cs : List ℕ) → Clean (clean_all cs)
clean_all-Clean [] = tt
clean_all-Clean (c ∷ cs) = (clean-is_safe c, clean_all-Clean cs)

take-Clean : (n : ℕ) (cs : List ℕ) → Clean cs → Clean (take n cs)
take-Clean zero [] p = tt
take-Clean zero (c ∷ cs) p = tt
take-Clean (suc n) [] p = tt
take-Clean (suc n) (c ∷ cs) p = (p.0, take-Clean n cs p.1)

length-take : (n : ℕ) (cs : List ℕ) → length (take n cs) ≤ n
length-take zero [] = omega arith
length-take zero (c ∷ cs) = omega arith
length-take (suc n) [] = omega arith
length-take (suc n) (c ∷ cs) = omega (arith, length-take n cs)

take-take : (n : ℕ) (cs : List ℕ) → take n (take n cs) ≡ take n cs
take-take zero [] = refl
take-take zero (c ∷ cs) = refl
take-take (suc n) [] = refl
take-take (suc n) (c ∷ cs) = ap (λ l. c ∷ l) (take-take n cs)

-- A safe character is not blank.
safe_not_blank : (c : ℕ) → is_safe c ≡ true → is_whitespace c ≡ false
unfolding is_safe is_whitespace
safe_not_blank c e = ground arith

clean_all-Clean-id : (cs : List ℕ) → Clean cs → clean_all cs ≡ cs
clean_all-Clean-id [] p = refl
clean_all-Clean-id (c ∷ cs) p = rw (p.0, clean_all-Clean-id cs p.1) refl

trim_end-Clean : (cs : List ℕ) → Clean cs → trim_end cs ≡ cs
unfolding trim_end
trim_end-Clean [] p = refl
trim_end-Clean (c ∷ []) p = rw (safe_not_blank c p.0) refl
trim_end-Clean (c ∷ d ∷ cs) p = rw (trim_end-Clean (d ∷ cs) p.1) refl

trim_start-Clean : (cs : List ℕ) → Clean cs → trim_start cs ≡ cs
unfolding trim_start
trim_start-Clean [] p = refl
trim_start-Clean (c ∷ cs) p = rw (safe_not_blank c p.0) refl

bounded-Clean : (cs t : List ℕ) → Clean cs → bounded cs ≡ ok t → (take 64 cs ≡ t) × (1 ≤ length t)
bounded-Clean [] t p e = absurd (ground arith)
bounded-Clean (c ∷ cs) t p e =
    let same : take 64 (c ∷ cs) ≡ t = ground arith in
    (same, subst (λ l. 1 ≤ length l) same (omega arith))

bounded-again : (t : List ℕ) → 1 ≤ length t → take 64 t ≡ t → bounded t ≡ ok t
bounded-again [] short e = absurd (omega arith)
bounded-again (c ∷ t) long e = ap ok e

-- A name that is accepted is not empty, has at most 64 characters, all of them safe, and is its own
-- safe name: two processes that pass the name on agree on the shared object.
pub safe_name-stable :
    (name t : List ℕ)
    → safe_name name ≡ ok t
    → (1 ≤ length t) × (length t ≤ 64) × Clean t × (safe_name t ≡ ok t)
unfolding safe_name
safe_name-stable name t e =
    let cs = clean_all (trim_end (trim_start name)) in
    let (same, long) = bounded-Clean cs t (clean_all-Clean _) e in
    let safe : Clean t = subst Clean same (take-Clean 64 cs (clean_all-Clean _)) in
    let short : length t ≤ 64 = subst (λ l. length l ≤ 64) same (length-take 64 cs) in
    let again : take 64 t ≡ t = subst (λ l. take 64 l ≡ l) same (take-take 64 cs) in
    (
      long,
      short,
      safe,
      rw (trim_start-Clean t safe, trim_end-Clean t safe, clean_all-Clean-id t safe)
          (bounded-again t long again),
    )
