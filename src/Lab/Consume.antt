-- ===== src/Lab/Consume.antt =====
-- rust/tenzorbus/src/bin/tenzorbus-lab.rs, `consume`: what it counts over the leases that
-- `Consumer::next` hands out. No counter passes that of the leases, which ends at `expect`.
pub mod Clean
use tenzor_bus.Common.{
  ℕ, ◌+◌, Bool, true, false, ◌&&◌, ltb, ◌==◌, if◌then◌else◌, u64, Option, none, some, List, [], ◌∷◌,
}
use tenzor_bus.Lab.{verify, as_elements}

-- A lease with its number, its bytes, and whether its release succeeds.
pub record Received : Type 0 where
  pub sequence : ℕ
  pub bytes : List ℕ
  pub released : Bool

-- What a call of `next` brings: a lease, or an error.
pub data Arrival : Type 0 where
  lease : Received → Arrival
  failed : Arrival

pub record Tally : Type 0 where
  pub received : ℕ
  pub bad_elements : ℕ
  pub first : ℕ
  pub last : ℕ
  pub gaps : ℕ
  pub lease_violations : ℕ

abbrev pub no_leases : Tally
no_leases = record {
  received = 0;
  bad_elements = 0;
  first = 0;
  last = 0;
  gaps = 0;
  lease_violations = 0;
}

abbrev pub is_bad : Received → Bool
is_bad l = elim (verify l.sequence (as_elements l.bytes)) [ none ↦ false | some i ↦ true ]

abbrev pub count_if : Bool → ℕ → ℕ
count_if b n = if b then n + 1 else n

-- The body of the loop between `next` and the release.
unfoldable pub check_lease : Received → Tally → Tally
check_lease l t = record t {
  bad_elements = count_if (is_bad l) t.bad_elements;
  first = if t.received == 0 then l.sequence else t.first;
  gaps =
      if t.received == 0
      then t.gaps
      else if l.sequence == u64 (t.last + 1)
      then t.gaps
      else t.gaps + 1;
  last = l.sequence;
  received = t.received + 1;
}

abbrev pub release_lease : Received → Tally → Tally
release_lease l t = record t {
  lease_violations = if l.released then t.lease_violations else t.lease_violations + 1;
}

-- How `consume` ends: it prints its counts, prints them with an error, or is killed with a lease.
pub data End : Type 0 where
  printed errored killed : Tally → End

module _ (expect die_after : ℕ) (until_idle : Bool) where
  -- `next` has failed: the end of a stream, or an error.
  abbrev pub on_failure : Tally → End
  on_failure t = if until_idle && ltb 0 t.received then printed t else errored t

  -- The loop. At the end of the arrivals it is still waiting for the next one: `none`.
  unfoldable pub consume : List Arrival → Tally → Option End
  consume [] t = if ltb t.received expect then none else some (printed t)
  consume (failed ∷ xs) t = if ltb t.received expect then some (on_failure t) else some (printed t)
  consume (lease l ∷ xs) t =
      let t' = check_lease l t in
      let rest = consume xs (release_lease l t') in
      if ltb t.received expect
      then if ltb 0 die_after && t'.received == die_after then some (killed t') else rest
      else some (printed t)
