-- ===== src/Lab/Consume/Clean.antt =====
-- A clean report of `consume` means a clean stream.
use tenzor_bus.Common.{ℕ, ◌+◌, ◌≡◌, true, u64, List, [], ◌∷◌, length}
use tenzor_bus.Lab.{fill, as_elements}
use tenzor_bus.Lab.Consume.{Received, Arrival, lease, Tally, check_lease, release_lease}

abbrev pub leases : List Received → List Arrival
leases [] = []
leases (l ∷ ls) = lease l ∷ leases ls

-- The payload is what `fill` writes for the number, and the release succeeded.
abbrev pub IsGood : Received → Type 0
IsGood l =
    (as_elements l.bytes ≡ fill l.sequence (length (as_elements l.bytes))) × (l.released ≡ true)

-- Each number follows the one before it.
abbrev pub Follows : ℕ → List Received → Type 0
Follows last [] = Unit {0}
Follows last (l ∷ ls) = (l.sequence ≡ u64 (last + 1)) × Follows l.sequence ls

abbrev pub AllGood : List Received → Type 0
AllGood [] = Unit {0}
AllGood (l ∷ ls) = IsGood l × AllGood ls

-- Every payload is right and every lease lasted, and the numbers follow one another.
abbrev pub IsCleanStream : List Received → Type 0
IsCleanStream [] = Unit {0}
IsCleanStream (l ∷ ls) = IsGood l × AllGood ls × Follows l.sequence ls

abbrev pub IsClean : Tally → Type 0
IsClean t = (t.bad_elements ≡ 0) × (t.gaps ≡ 0) × (t.lease_violations ≡ 0)

-- The counts over a list of leases.
abbrev pub after : List Received → Tally → Tally
after [] t = t
after (l ∷ ls) t = after ls (release_lease l (check_lease l t))

-- One more lease.
abbrev counted : Received → Tally → Tally
counted l t = release_lease l (check_lease l t)
