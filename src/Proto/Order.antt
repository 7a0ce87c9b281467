-- ===== src/Proto/Order.antt =====
-- `seq_newer` orders sequence numbers within half of the 64-bit circle.
use tenzor_bus.Common.{ℕ, ◌+◌, ◌^◌, ◌<◌, ◌≡◌, ◌↔◌, true, false, u64, arith}
use tenzor_bus.Proto.{seq_newer}

-- Publications are numbered consecutively modulo 2^64. Of the `n`-th and the `m`-th, for any `n`
-- and `m` fewer than 2^63 apart, `seq_newer` tells the later one from the earlier, also across
-- the wraparound of the counter.
pub seq_newer_iff_lt :
    (n m : ℕ) → n < m + 2 ^ 63 → m < n + 2 ^ 63 → (seq_newer (u64 n) (u64 m) ≡ true) ↔ (m < n)
unfolding seq_newer
seq_newer_iff_lt n m h k = (λ e. ground arith, λ e. ground arith)

-- No number is newer than one that is newer than itself.
pub seq_newer_asymm :
    (a b : ℕ) → a < 2 ^ 64 → b < 2 ^ 64 → seq_newer a b ≡ true → seq_newer b a ≡ false
unfolding seq_newer
seq_newer_asymm a b ha hb h = ground arith

pub seq_newer_irrefl : (a : ℕ) → a < 2 ^ 64 → seq_newer a a ≡ false
unfolding seq_newer
seq_newer_irrefl a ha = ground arith
