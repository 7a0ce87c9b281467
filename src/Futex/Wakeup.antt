-- ===== src/Futex/Wakeup.antt =====
-- rust/tenzorbus/src/futex.rs: `wait`, `wake_all` and `signal`, and the loop around them in
-- `next_raw` of rust/tenzorbus/src/ring.rs against the end of `publish`. The kernel puts a caller
-- to sleep only if the word still has the expected value, wakes all sleepers of a word on
-- FUTEX_WAKE, and may wake them at any other time. Publications that the consumer can take are
-- counted; whether a passage of `try_take` finds one is told by that count.
pub mod Heard
pub mod Called
use tenzor_bus.Common.{
  ℕ, zero, suc, ◌+◌, ◌<◌, ◌≡◌, refl, Bool, true, false, ◌==◌, if◌then◌else◌, u32, List, [], ◌∷◌,
}

-- The consumer's next operation, with the word that it has observed.
pub data Caller : Type 0 where
  away observing asleep took timed_out : Caller
  trying timing waiting : ℕ → Caller

-- The producer's next operation after it has stored COMMITTED.
pub data Signaller : Type 0 where
  idle counting bumping waking : Signaller

pub record Bell : Type 0 where
  pub word : ℕ
  pub pending : ℕ
  pub late : Bool
  pub caller : Caller
  pub signaller : Signaller

-- FUTEX_WAIT: asleep only if the word still has the expected value.
abbrev pub wait : ℕ → ℕ → Caller
wait word expected = if word == expected then asleep else observing

-- FUTEX_WAKE of all.
abbrev pub wake_all : Caller → Caller
wake_all asleep = observing
wake_all c = c

-- One pass of `try_take`.
abbrev pub try_at : ℕ → ℕ → Bell → Bell
try_at o zero b = record b { caller = timing o }
try_at o (suc n) b = record b { pending = n; caller = took }

-- The loop of `next_raw`.
abbrev pub call_at : Caller → Bell → Bell
call_at observing b = record b { caller = trying b.word }
call_at (trying o) b = try_at o b.pending b
call_at (timing o) b = record b { caller = if b.late then timed_out else waiting o }
call_at (waiting o) b = record b { caller = wait b.word o }
call_at _ b = b

-- The last stores of `publish`, and `signal`.
abbrev pub signal_at : Signaller → Bell → Bell
signal_at idle b = b
signal_at counting b = record b { signaller = bumping }
signal_at bumping b = record b { word = u32 (b.word + 1); signaller = waking }
signal_at waking b = record b { caller = wake_all b.caller; signaller = idle }

-- COMMITTED is stored in a slot, addressed to this consumer or not.
abbrev pub commit_at : Signaller → Bool → Bell → Bell
commit_at idle addressed b = record b {
  pending = if addressed then b.pending + 1 else b.pending;
  signaller = counting;
}
commit_at _ addressed b = b

-- The timeout of FUTEX_WAIT, or a wake-up for no reason.
abbrev pub interrupt : Caller → Caller
interrupt asleep = observing
interrupt c = c

-- `next_raw` is called.
abbrev pub enter_at : Caller → Bell → Bell
enter_at away b = record b { caller = observing; late = false }
enter_at took b = record b { caller = observing; late = false }
enter_at timed_out b = record b { caller = observing; late = false }
enter_at _ b = b

pub data Event : Type 0 where
  calls enters interrupts expires signals : Event
  commits : Bool → Event

abbrev pub act : Event → Bell → Bell
act calls b = call_at b.caller b
act enters b = enter_at b.caller b
act interrupts b = record b { caller = interrupt b.caller }
act expires b = record b { late = true }
act signals b = signal_at b.signaller b
act (commits addressed) b = commit_at b.signaller addressed b

unfoldable pub run : List Event → Bell → Bell
run [] b = b
run (x ∷ xs) b = run xs (act x b)

abbrev pub silent : Bell
silent = record { word = 0; pending = 0; late = false; caller = away; signaller = idle }
