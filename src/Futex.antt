-- ===== src/Futex.antt =====
-- rust/tenzorbus/src/futex.rs: `lock` and `unlock`, one atomic operation at a time. The kernel puts
-- a waiting thread to sleep and may wake it at any time; both change no memory.
pub mod Exclusion
pub mod Wakeup
pub mod Reclaim
use tenzor_bus.Common.{ℕ, Bool, true, false, not, ◌&&◌, ◌==◌, if◌then◌else◌, update, List, [], ◌∷◌}
use tenzor_bus.Mem.{unlocked, locked, contended}

-- The three words of the lock.
pub record Words : Type 0 where
  pub word : ℕ
  pub owner : ℕ
  pub token : ℕ

-- The operation that a thread makes next.
pub data Place : Type 0 where
  outside claiming naming stamping inside : Place
  swapping waiting checking reading : Place
  reading_token : ℕ → Place
  judging : ℕ → ℕ → Place
  stealing stealing_token stealing_word : Place
  leaving leaving_token leaving_word : Place

module _ (alive : ℕ → ℕ → Bool) (me me_token : ℕ) where
  -- One operation of the process `me`; `alive` is `pid_alive_with_token`.
  abbrev pub act : Place → Words → Place × Words
  act outside w = (claiming, w)
  act claiming w =
      if w.word == unlocked then (naming, record w { word = locked }) else (swapping, w)
  act naming w = (stamping, record w { owner = me })
  act stamping w = (inside, record w { token = me_token })
  act swapping w = (if w.word == unlocked then naming else waiting, record w { word = contended })
  act waiting w = (checking, w)
  act checking w = (if w.word == unlocked then swapping else reading, w)
  act reading w = (reading_token w.owner, w)
  act (reading_token holder) w = (judging holder w.token, w)
  act (judging holder holder_token) w = (
    if not (holder == 0) && not (holder == me) && not (alive holder holder_token)
        then stealing
        else swapping,
    w,
  )
  act stealing w = (stealing_token, record w { owner = me })
  act stealing_token w = (stealing_word, record w { token = me_token })
  act stealing_word w = (inside, record w { word = contended })
  act inside w = (leaving, w)
  act leaving w = (leaving_token, record w { owner = 0 })
  act leaving_token w = (leaving_word, record w { token = 0 })
  act leaving_word w = (outside, record w { word = unlocked })

pub record Lock : Type 0 where
  pub words : Words
  pub places : ℕ → Place

module _ (alive : ℕ → ℕ → Bool) (pid start_token : ℕ → ℕ) where
  -- The next operation of thread `i`.
  abbrev pub advance : ℕ → Lock → Lock
  advance i l =
      let (p, w) = act alive (pid i) (start_token i) (l.places i) l.words in
      record { words = w; places = update l.places i p }

  -- The operations in the order of a schedule.
  unfoldable pub run : List ℕ → Lock → Lock
  run [] l = l
  run (i ∷ is) l = run is (advance i l)

-- The words of a fresh ring, and no thread in `lock` or `unlock`.
abbrev pub fresh : Lock
fresh = record { words = record { word = unlocked; owner = 0; token = 0 }; places = λ _. outside }

-- The thread has the lock.
abbrev pub holds : Place → Bool
holds naming = true
holds stamping = true
holds inside = true
holds leaving = true
holds leaving_token = true
holds leaving_word = true
holds stealing = true
holds stealing_token = true
holds stealing_word = true
holds _ = false
