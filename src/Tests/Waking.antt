-- ===== src/Tests/Waking.antt =====
-- Waiting and waking at concrete schedules.
use tenzor_bus.Common.{◌≡◌, refl, true, false, List, [], ◌∷◌, ◌++◌, replicate, arith}
use tenzor_bus.Futex.Wakeup.{Event, Caller, run, silent}
use tenzor_bus.Futex.Wakeup.Heard.{is_signalling}
use tenzor_bus.Futex.Wakeup.Called.{sleeper_is_called, called_takes}
use tenzor_bus.Futex.Reclaim
use tenzor_bus.Futex.Reclaim.{release_is_missed, released_between}

-- The consumer finds nothing and goes to sleep; then a publication is committed for it.
abbrev asleep_then_commit : List Event
asleep_then_commit =
    Event.enters ∷ Event.calls ∷ Event.calls ∷ Event.calls ∷ Event.calls ∷ Event.commits true ∷ []

falls_asleep : (run asleep_then_commit silent).caller ≡ Caller.asleep
unfolding run
falls_asleep = refl

sleeper_is_called_example : is_signalling (run asleep_then_commit silent).signaller ≡ true
unfolding run
sleeper_is_called_example =
    sleeper_is_called asleep_then_commit (omega arith) falls_asleep (omega arith)

-- The signal goes out.
abbrev signalled : List Event
signalled = asleep_then_commit ++ replicate 3 Event.signals

called_takes_example : (run (replicate 4 Event.calls) (run signalled silent)).caller ≡ Caller.took
unfolding run
called_takes_example = called_takes signalled (omega arith) refl (omega arith) refl refl

release_is_missed_example :
    (Reclaim.run released_between (record {
      word = 4294967295;
      free = 0;
      late = false;
      waiter = Reclaim.attempting;
      releaser = Reclaim.idle;
    })).waiter
    ≡ Reclaim.asleep
release_is_missed_example = (release_is_missed 4294967295).0
