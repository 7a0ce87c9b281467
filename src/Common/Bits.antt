-- ===== src/Common/Bits.antt =====
-- 64-bit masks: `mask & (1 << i) != 0`, `mask | (1 << i)`, `mask & !(1 << i)` and `count_ones`, by
-- recursion on the binary digits.
use tenzor_bus.Common.{
  ℕ, zero, suc, ◌+◌, ◌*◌, ◌/◌, ◌%◌, ◌≤◌, ◌<◌, ◌≡◌, ◌≢◌, refl, Bool, true, false, ◌==◌,
  if◌then◌else◌, arith,
}

-- `mask & (1 << i) != 0`
unfoldable pub test_bit : ℕ → ℕ → Bool
test_bit m zero = m % 2 == 1
test_bit m (suc i) = test_bit (m / 2) i

-- `mask | (1 << i)`
unfoldable pub set_bit : ℕ → ℕ → ℕ
set_bit m zero = 2 * (m / 2) + 1
set_bit m (suc i) = m % 2 + 2 * set_bit (m / 2) i

-- `mask & !(1 << i)`
unfoldable pub clear_bit : ℕ → ℕ → ℕ
clear_bit m zero = 2 * (m / 2)
clear_bit m (suc i) = m % 2 + 2 * clear_bit (m / 2) i

-- The ones among the lowest `w` digits: `u64::count_ones` is `count_ones 64`.
unfoldable pub count_ones : ℕ → ℕ → ℕ
count_ones zero m = 0
count_ones (suc w) m = m % 2 + count_ones w (m / 2)

-- Clearing bit `i` clears that bit and no other.
pub test_bit-clear_bit :
    (m i j : ℕ) → test_bit (clear_bit m i) j ≡ (if i == j then false else test_bit m j)
unfolding test_bit clear_bit
test_bit-clear_bit m zero zero = ground arith
test_bit-clear_bit m zero (suc j) =
    let e : 2 * (m / 2) / 2 ≡ m / 2 = omega arith in rw e (ground arith)
test_bit-clear_bit m (suc i) zero =
    let e : (m % 2 + 2 * clear_bit (m / 2) i) % 2 ≡ m % 2 = omega arith in rw e (ground arith)
test_bit-clear_bit m (suc i) (suc j) =
    let e : (m % 2 + 2 * clear_bit (m / 2) i) / 2 ≡ clear_bit (m / 2) i = omega arith in
    rw e (ground (arith, test_bit-clear_bit (m / 2) i j))

-- Setting bit `i` sets that bit and no other.
pub test_bit-set_bit :
    (m i j : ℕ) → test_bit (set_bit m i) j ≡ (if i == j then true else test_bit m j)
unfolding test_bit set_bit
test_bit-set_bit m zero zero = ground arith
test_bit-set_bit m zero (suc j) =
    let e : (2 * (m / 2) + 1) / 2 ≡ m / 2 = omega arith in rw e (ground arith)
test_bit-set_bit m (suc i) zero =
    let e : (m % 2 + 2 * set_bit (m / 2) i) % 2 ≡ m % 2 = omega arith in rw e (ground arith)
test_bit-set_bit m (suc i) (suc j) =
    let e : (m % 2 + 2 * set_bit (m / 2) i) / 2 ≡ set_bit (m / 2) i = omega arith in
    rw e (ground (arith, test_bit-set_bit (m / 2) i j))

-- A mask without a bit is zero.
no_bits_below : (n m : ℕ) → m ≤ n → ((i : ℕ) → test_bit m i ≡ false) → m ≡ 0
unfolding test_bit
no_bits_below zero m le none_set = omega arith
no_bits_below (suc n) m le none_set =
    let half : m / 2 ≡ 0 = no_bits_below n (m / 2) (omega arith) (λ i. none_set (suc i)) in
    let even = none_set 0 in ground (arith, half, even)

pub no_bits : (m : ℕ) → ((i : ℕ) → test_bit m i ≡ false) → m ≡ 0
no_bits m none_set = no_bits_below m m (omega arith) none_set

-- Clearing a bit that is not set changes nothing.
pub clear_bit_unset : (m i : ℕ) → test_bit m i ≡ false → clear_bit m i ≡ m
unfolding test_bit clear_bit
clear_bit_unset m zero h = ground arith
clear_bit_unset m (suc i) h = omega (arith, clear_bit_unset (m / 2) i h)

pub test_bit-zero : (i : ℕ) → test_bit 0 i ≡ false
unfolding test_bit
test_bit-zero zero = refl
test_bit-zero (suc i) = test_bit-zero i

-- A mask with a set bit is not zero.
pub mask-ne-zero : (m i : ℕ) → test_bit m i ≡ true → m ≢ 0
mask-ne-zero m i h e = cc (test_bit-zero i)

-- A cleared bit leaves one reader fewer.
pub count_ones-clear_bit :
    (w m i : ℕ) → i < w → test_bit m i ≡ true → count_ones w (clear_bit m i) + 1 ≡ count_ones w m
unfolding test_bit clear_bit count_ones
count_ones-clear_bit zero m i lt h = absurd (omega arith)
count_ones-clear_bit (suc w) m zero lt h =
    let e : 2 * (m / 2) / 2 ≡ m / 2 = omega arith in rw e (ground arith)
count_ones-clear_bit (suc w) m (suc i) lt h =
    let e : (m % 2 + 2 * clear_bit (m / 2) i) / 2 ≡ clear_bit (m / 2) i = omega arith in
    let e' : (m % 2 + 2 * clear_bit (m / 2) i) % 2 ≡ m % 2 = omega arith in
    rw (e, e') (omega (arith, count_ones-clear_bit w (m / 2) i (omega arith) h))

pub count_ones-zero : (w : ℕ) → count_ones w 0 ≡ 0
unfolding count_ones
count_ones-zero zero = refl
count_ones-zero (suc w) = omega (arith, count_ones-zero w)

pub count_ones-le : (w m : ℕ) → count_ones w m ≤ w
unfolding count_ones
count_ones-le zero m = omega arith
count_ones-le (suc w) m = omega (arith, count_ones-le w (m / 2))
