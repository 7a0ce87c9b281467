-- ===== src/Futex/Reclaim.antt =====
-- rust/tenzorbus/src/ring.rs: how `publish` and `reserve` wait for a slot, against `release` and
-- its signal. Unlike `next_raw`, they observe the word after the attempt that failed.
use tenzor_bus.Common.{
  ℕ, zero, suc, ◌+◌, ◌≡◌, refl, Bool, true, false, ◌==◌, if◌then◌else◌, u32, List, [], ◌∷◌, eq_refl,
}

-- The producer's next operation, with the word that it has observed.
pub data Waiter : Type 0 where
  attempting timing observing asleep reserved refused : Waiter
  waiting : ℕ → Waiter

-- The consumer's next operation in `release`, after it has cleared the last reader bit of a slot.
pub data Releaser : Type 0 where
  idle bumping waking : Releaser

-- `free` counts the slots that an attempt can reserve.
pub record Yard : Type 0 where
  pub word : ℕ
  pub free : ℕ
  pub late : Bool
  pub waiter : Waiter
  pub releaser : Releaser

-- FUTEX_WAIT and FUTEX_WAKE, as in `futex.rs`.
abbrev pub wait : ℕ → ℕ → Waiter
wait word expected = if word == expected then asleep else attempting

abbrev pub wake_all : Waiter → Waiter
wake_all asleep = attempting
wake_all c = c

-- One attempt under the registry lock.
abbrev pub attempt_at : ℕ → Yard → Yard
attempt_at zero y = record y { waiter = timing }
attempt_at (suc n) y = record y { free = n; waiter = reserved }

-- The loop of `publish` and of `reserve` under `Backpressure::Block`.
abbrev pub claim_at : Waiter → Yard → Yard
claim_at attempting y = attempt_at y.free y
claim_at timing y = record y { waiter = if y.late then refused else observing }
claim_at observing y = record y { waiter = waiting y.word }
claim_at (waiting o) y = record y { waiter = wait y.word o }
claim_at _ y = y

-- The last bit of a slot is cleared, and `signal`.
abbrev pub release_at : Releaser → Yard → Yard
release_at idle y = record y { free = y.free + 1; releaser = bumping }
release_at bumping y = record y { word = u32 (y.word + 1); releaser = waking }
release_at waking y = record y { waiter = wake_all y.waiter; releaser = idle }

-- The end of the five milliseconds.
abbrev pub interrupt : Waiter → Waiter
interrupt asleep = attempting
interrupt c = c

pub data Event : Type 0 where
  claims releases interrupts expires : Event

abbrev pub act : Event → Yard → Yard
act claims y = claim_at y.waiter y
act releases y = release_at y.releaser y
act interrupts y = record y { waiter = interrupt y.waiter }
act expires y = record y { late = true }

unfoldable pub run : List Event → Yard → Yard
run [] y = y
run (x ∷ xs) y = run xs (act x y)

-- An attempt fails; a slot is released and signalled; the producer observes the word and waits.
abbrev pub released_between : List Event
released_between =
    Event.claims ∷ Event.releases ∷ Event.releases ∷ Event.releases ∷ Event.claims ∷ Event.claims
    ∷ Event.claims ∷ []

-- An attempt at a full ring, before its deadline, with a release between the attempt and the
-- observation of the word: the producer sleeps over the free slot, and no signal is under way; only
-- the timeout of its wait makes it reserve the slot.
pub release_is_missed :
    (word : ℕ)
    → let y =
        run released_between
          (record { word = word; free = 0; late = false; waiter = attempting; releaser = idle }) in
      (y.waiter ≡ asleep)
      × (y.free ≡ 1)
      × (y.releaser ≡ idle)
      × ((run (Event.interrupts ∷ Event.claims ∷ []) y).waiter ≡ reserved)
unfolding run
release_is_missed word = rw (eq_refl (u32 (word + 1))) (refl, refl, refl, refl)
