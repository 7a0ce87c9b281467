-- ===== src/Common/Loops.antt =====
-- Counted loops, families indexed by a number, and lists by a native index.
use Prim.Native.Nat.{ℕ, zero, suc, ◌<◌}
use native.Mathlib.Decide.{ℕ_discrete}
use mathlib.Core.Bool.{Bool, false}
use mathlib.Core.Path.{◌≡◌, fun_ext}
use mathlib.Core.List.{List, [], ◌∷◌}
use native.Mathlib.Omega.{arith}
use tenzor_bus.Common.Tests.{ltb, ◌==◌, if◌then◌else◌}

-- `for i in 0..n { s = body(i, s) }`.
unfoldable pub for_to {ℓ} : {S : Type ℓ} → ℕ → (ℕ → S → S) → S → S
for_to zero body s = s
for_to (suc n) body s = body n (for_to n body s)

-- An invariant of the loop: what each round keeps holds at its end.
pub for_to_inv {ℓ κ} :
    {S : Type ℓ} (P : ℕ → S → Type κ) (n : ℕ) (body : ℕ → S → S) (s : S)
    → P 0 s
    → ((i : ℕ) (t : S) → i < n → P i t → P (suc i) (body i t))
    → P n (for_to n body s)
unfolding for_to
for_to_inv P zero body s start keep = start
for_to_inv P (suc n) body s start keep =
    keep n (for_to n body s) (omega arith)
      (for_to_inv P n body s start (λ i t lt. keep i t (omega arith)))

-- A test that fails below `k` and at `k` fails below `suc k`.
pub below :
    {P : ℕ → Bool} {k : ℕ}
    → ((j : ℕ) → j < k → P j ≡ false)
    → P k ≡ false
    → (j : ℕ) → j < suc k
    → P j ≡ false
below {P} {k} p e j lt = elim (ℕ_discrete j k) [ yes q ↦ rw q e | no q ↦ p j (omega arith) ]

-- A family with one value replaced.
abbrev pub update {ℓ} : {A : Type ℓ} → (ℕ → A) → ℕ → A → ℕ → A
update f i a j = if i == j then a else f j

-- A family with a function applied below `n`.
abbrev pub map_below {ℓ} : {A : Type ℓ} → ℕ → (A → A) → (ℕ → A) → ℕ → A
map_below n g f j = if ltb j n then g (f j) else f j

pub map_below-suc {ℓ} :
    {A : Type ℓ} (n : ℕ) (g : A → A) (f : ℕ → A)
    → update (map_below n g f) n (g (map_below n g f n)) ≡ map_below (suc n) g f
map_below-suc n g f = fun_ext (λ j. ground arith)

module _ {ℓ} {A : Type ℓ} where
  abbrev pub length : List A → ℕ
  length [] = 0
  length (x ∷ xs) = suc (length xs)

  abbrev pub take : ℕ → List A → List A
  take zero xs = []
  take (suc n) [] = []
  take (suc n) (x ∷ xs) = x ∷ take n xs

  abbrev pub replicate : ℕ → A → List A
  replicate zero a = []
  replicate (suc n) a = a ∷ replicate n a
