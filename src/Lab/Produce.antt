-- ===== src/Lab/Produce.antt =====
-- rust/tenzorbus/src/bin/tenzorbus-lab.rs, `produce`: the loop over its publications. Each round
-- has the clock, in milliseconds, and what the other processes do meanwhile; the pauses change
-- nothing. A counter stays below the number of rounds.
pub mod Totals
use Prim.Native.Nat.{bit_xor, bit_or}
use tenzor_bus.Common.{
  ◌||◌, ℕ, zero, suc, ◌+◌, ◌*◌, ◌/◌, ◌%◌, ◌^◌, Bool, true, false, ◌&&◌, ◌||◌, ltb, leb, ◌==◌,
  if◌then◌else◌, u64, Option, none, some, List, [], ◌∷◌,
}
use tenzor_bus.Host.{Host}
use tenzor_bus.Mem.{Mem, Ring}
use tenzor_bus.Errors.{Error, Result, ok, err}
use tenzor_bus.Tensor.{TensorView}
use tenzor_bus.Create.{stats}
use tenzor_bus.Producer.{
  Backpressure, PublishResult, Tick, Outcome, publish, reserve_without_commit,
}
use tenzor_bus.Lab.{view_of}
use tenzor_bus.Lab.Options.{ProduceOptions}

-- `Xorshift::new` and `Xorshift::next`, whose result is also the next state.
unfoldable pub seeded : ℕ → ℕ
seeded seed = bit_or seed 1

abbrev pub shift_left : ℕ → ℕ → ℕ
shift_left x k = u64 (x * 2 ^ k)

unfoldable pub next_random : ℕ → ℕ
next_random x =
    let a = bit_xor x (shift_left x 13) in
    let b = bit_xor a (a / 2 ^ 7) in bit_xor b (shift_left b 17)

pub record Round : Type 0 where
  pub started_s : ℕ
  pub now_ms : ℕ
  pub copying : Mem → Mem
  pub ticks : List Tick
  pub others : Mem → Mem

pub record Counts : Type 0 where
  pub published : ℕ
  pub dropped : ℕ

-- How `produce` ends; at the end of the rounds, or of a wait, it is still at work: `waiting`.
pub data Ended : Type 0 where
  done : Counts → Ended
  failed : ℕ → Counts → Error → Ended
  panicked waiting : Ended

-- The number of elements of a round and the next state of the generator; `%` panics on nought.
unfoldable pub size_of : Bool → ℕ → ℕ → Option (ℕ × ℕ)
size_of false elements rng = some (elements, rng)
size_of true elements rng =
    let x = next_random rng in if elements == 0 then none else some (1 + x % elements, x)

-- `Ring::set_next_sequence`, which `produce` calls for "--start-sequence".
abbrev pub set_next_sequence : ℕ → Mem → Mem
set_next_sequence seq m = record m { next_seq = seq }

abbrev pub start_at : Option ℕ → Mem → Mem
start_at none m = m
start_at (some seq) m = set_next_sequence seq m

-- What follows a publication; `rest` is the rest of the loop.
abbrev pub settle :
    ℕ → Counts → Outcome PublishResult → (Counts → Mem → Ended × Mem) → Mem → Ended × Mem
settle n c none rest m = (waiting, m)
settle n c (some (err e, m1)) rest m = (failed n c e, m1)
settle n c (some (ok none, m1)) rest m = rest (record c { dropped = c.dropped + 1 }) m1
settle n c (some (ok (some p), m1)) rest m = rest (record c { published = c.published + 1 }) m1

module _ (h : Host) (r : Ring) (o : ProduceOptions) where
  -- The view is made, or `expect` panics; it is published.
  abbrev pub publish_in :
      Round → ℕ → Counts → Result TensorView → (Counts → Mem → Ended × Mem) → Mem → Ended × Mem
  publish_in round n c (err e) rest m = (panicked, m)
  publish_in round n c (ok v) rest m =
      settle n c (publish h r v o.policy (round.now_ms + o.timeout_ms) round.copying round.ticks m)
        rest m

  abbrev pub run_round :
      Round → ℕ → Counts → Option (ℕ × ℕ) → (ℕ → Counts → Mem → Ended × Mem) → Mem → Ended × Mem
  run_round round n c none rest m = (panicked, m)
  run_round round n c (some (elements, rng)) rest m =
      publish_in round n c (view_of o.vary (stats r m).next_sequence elements) (rest rng) m

  -- The time is up.
  abbrev pub is_over : Round → Bool
  is_over round = ltb 0 o.duration_s && leb o.duration_s round.started_s

  -- The loop, at publication `n`.
  unfoldable pub produce : List Round → ℕ → ℕ → Counts → Mem → Ended × Mem
  produce [] n rng c m = (if n == o.count then done c else waiting, m)
  produce (round ∷ rounds) n rng c m =
      let go =
        run_round round n c (size_of o.vary o.elements rng)
          (λ rng' c' m'. produce rounds (n + 1) rng' c' (round.others m')) m in
      if n == o.count || is_over round then (done c, m) else go

abbrev pub nothing_yet : Counts
nothing_yet = record { published = 0; dropped = 0 }

-- The process `pid` from the start of its loop on.
unfoldable pub produce_from_start : Host → Ring → ProduceOptions → List Round → Mem → Ended × Mem
produce_from_start h r o rounds m =
    produce h r o rounds 0 (seeded (bit_xor 0x5eed1234 h.pid)) nothing_yet
      (start_at o.start_sequence m)

-- What `abandon` does before it kills itself: `none` is a panic of `expect`.
unfoldable pub abandon : Host → Ring → ℕ → Mem → Option (Result ℕ × Mem)
abandon h r elements m = elim (view_of false 1 elements) [
  | err e ↦ none
  | ok v ↦ some (reserve_without_commit h r v m)
]
