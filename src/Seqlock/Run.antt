-- ===== src/Seqlock/Run.antt =====
-- The loads of a consumer on the slot, what other consumers change, and runs of all of these.
use tenzor_bus.Common.{ℕ, ◌&&◌, ◌==◌, if◌then◌else◌, List, [], ◌∷◌, ◌++◌}
use tenzor_bus.Common.Bits.{test_bit, clear_bit}
use tenzor_bus.Proto.{state_free, state_committed}
use tenzor_bus.Seqlock.{
  Publication, World, Reader, loads, readers_word, put, store_at, begin_at, abort_at, crash_at,
  stamp_at, elsewhere_at, idle, away, spotting, sighting, naming, checking, comparing, loading,
  rechecking, recomparing, judging, taken,
}

-- The consumer looks elsewhere: another slot has an older publication, or the time is up.
abbrev pub retry_at : Reader → Reader
retry_at (taken e got) = taken e got
retry_at _ = away

module _ (me : ℕ) where
  -- The loads of `scan_oldest` in this slot, and those of `read_validated`.
  abbrev pub load_at : Reader → World → Reader
  load_at away w = spotting
  load_at spotting w = if w.state == state_committed then sighting else away
  load_at sighting w = if test_bit w.mask me then naming else away
  load_at naming w = checking w.sequence
  load_at (checking e) w = if w.state == state_committed then comparing e else away
  load_at (comparing e) w = if w.sequence == e then loading e loads [] else away
  load_at (loading e [] got) w = rechecking e got w.mask
  load_at (loading e (o ∷ os) got) w = loading e os (got ++ (o, w.word o) ∷ [])
  load_at (rechecking e got m) w = if w.state == state_committed then recomparing e got m else away
  load_at (recomparing e got m) w = if w.sequence == e then judging e got m else away
  load_at (judging e got m) w = if test_bit m me && test_bit w.mask me then taken e got else away
  load_at (taken e got) w = taken e got

  -- `release`, once it has found the number unchanged.
  abbrev pub give_back_at : Reader → World → World
  give_back_at (taken e got) w = record w { mask = clear_bit w.mask me; reader = away }
  give_back_at _ w = w

  -- `fetch_and` of another consumer's bit, in its release, its close or its reaping.
  abbrev pub withdraw : ℕ → World → World
  withdraw j w = if j == me then w else record w { mask = clear_bit w.mask j }

  pub data Event : Type 0 where
    begin : Publication → Event
    store abort crash load give_back retry : Event
    stamp elsewhere withdraws recount : ℕ → Event

  abbrev pub act : Event → World → World
  act (begin p) w = begin_at w.writer p w
  act store w = store_at w.writer w
  act abort w = abort_at w.writer w
  act crash w = crash_at w.writer w
  act load w = record w { reader = load_at w.reader w }
  act give_back w = give_back_at w.reader w
  act retry w = record w { reader = retry_at w.reader }
  act (stamp t) w = stamp_at w.writer t w
  act (elsewhere k) w = elsewhere_at w.writer k w
  act (withdraws j) w = withdraw j w
  act (recount r) w = put readers_word r w

  -- The stores and loads in the order in which the memory sees them.
  unfoldable pub run : List Event → World → World
  run [] w = w
  run (x ∷ xs) w = run xs (act x w)

-- A slot of a new ring.
abbrev pub fresh : World
fresh = record {
  state = state_free;
  sequence = 0;
  mask = 0;
  word = λ _. 0;
  next = 1;
  book = λ _. record { word = λ _. 0; mask = 0 };
  writer = idle;
  reader = away;
}

-- The words of a publication, as a reader collects them.
unfoldable pub snapshot : Publication → List ℕ → List (ℕ × ℕ)
snapshot p [] = []
snapshot p (o ∷ os) = (o, p.word o) ∷ snapshot p os
