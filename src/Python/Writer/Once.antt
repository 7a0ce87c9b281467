-- ===== src/Python/Writer/Once.antt =====
-- What the ring sees of a writer, whatever Python does with it.
use tenzor_bus.Common.{
  ℕ, ◌<◌, ◌≡◌, ◌⊎◌, ◌||◌, inl, inr, refl, ap, Bool, true, false, not, ltb, none, some, List, [],
  ◌∷◌, arith, Bool-cases,
}
use tenzor_bus.Proto.{DType}
use tenzor_bus.Producer.{SlotWriter, PublishResult}
use tenzor_bus.Python.Raise.{PyResult, raises, returns}
use tenzor_bus.Python.Writer.{
  WriterApi, PySlotWriter, new_writer, get_buffer, release_buffer, commit, abort, forget_result,
  answer_false, exit, drop, Event, opens_view, closes_view, stamps, commits, aborts, exits, others,
  event, events, set_timestamp_ns,
}

-- How the ring sees a writer end.
pub data Finish : Type 0 where
  published given_up : SlotWriter → Finish

-- The operations on a memory beside the list of the ends that it has seen.
abbrev pub logged : {M : Type 0} → WriterApi M → WriterApi (M × List Finish)
logged api = record {
  commit = λ w p. let (res, m') = api.commit w p.0 in (res, (m', published w ∷ p.1));
  give_up = λ w p. (api.give_up w p.0, given_up w ∷ p.1);
  set_timestamp_ns = λ w ns p. (api.set_timestamp_ns w ns p.0, p.1);
}

-- What the others do changes the memory, not the list.
abbrev pub beside_log : {M : Type 0} → List (Event M) → List (Event (M × List Finish))
beside_log [] = []
beside_log (opens_view filled ∷ es) = opens_view filled ∷ beside_log es
beside_log (closes_view ∷ es) = closes_view ∷ beside_log es
beside_log (stamps ns ∷ es) = stamps ns ∷ beside_log es
beside_log (commits ∷ es) = commits ∷ beside_log es
beside_log (aborts ∷ es) = aborts ∷ beside_log es
beside_log (exits raised ∷ es) = exits raised ∷ beside_log es
beside_log (others f ∷ es) = others (λ p. (f p.0, p.1)) ∷ beside_log es

-- Some call asks for the publication: `commit`, or `__exit__` without an exception.
abbrev pub asks_commit : {M : Type 0} → List (Event M) → Bool
asks_commit [] = false
asks_commit (commits ∷ es) = true
asks_commit (exits raised ∷ es) = not raised || asks_commit es
asks_commit (_ ∷ es) = asks_commit es

module _ {M : Type 0} (api : WriterApi M) (w : SlotWriter) (log : List Finish) where
  -- The writer is open and the ring has seen no end of it, or it is not, there is no view, and the
  -- ring has seen one end, a publication only if `asked`.
  abbrev Once : Bool → PySlotWriter → M × List Finish → Type 0
  Once asked p m =
      ((p.writer ≡ some w) × (m.1 ≡ log))
      ⊎ ((p.writer ≡ none)
          × (p.exports ≡ 0)
          × ((m.1 ≡ given_up w ∷ log) ⊎ ((asked ≡ true) × (m.1 ≡ published w ∷ log))))

  get_buffer-Once :
      (asked filled : Bool) (p : PySlotWriter) (m : M × List Finish)
      → Once asked p m
      → Once asked (get_buffer filled p).1 m
  unfolding get_buffer
  get_buffer-Once asked true p m (inl open_) = rw (open_.0) (inl (refl, open_.1))
  get_buffer-Once asked false p m (inl open_) = rw (open_.0) (inl (refl, open_.1))
  get_buffer-Once asked filled p m (inr done) = rw (done.0) (inr (refl, done.1, done.2))

  release_buffer-Once :
      (asked : Bool) (p : PySlotWriter) (m : M × List Finish)
      → Once asked p m
      → Once asked (release_buffer p) m
  unfolding release_buffer
  release_buffer-Once asked p m (inl open_) = inl open_
  release_buffer-Once asked p m (inr done) = inr (done.0, omega (arith, done.1), done.2)

  set_timestamp_ns-Once :
      (asked : Bool) (ns : ℕ) (p : PySlotWriter) (m : M × List Finish)
      → Once asked p m
      → Once asked p (set_timestamp_ns (logged api) ns p m).1
  unfolding set_timestamp_ns
  set_timestamp_ns-Once asked ns p m (inl open_) = rw (open_.0) (inl (refl, open_.1))
  set_timestamp_ns-Once asked ns p m (inr done) = rw (done.0) (inr (refl, done.1, done.2))

  commit-Once :
      (p : PySlotWriter) (m : M × List Finish)
      → Once true p m
      → let (res, p', m') = commit (logged api) p m in Once true p' m'
  unfolding commit
  commit-Once p m (inl open_) = elim (Bool-cases (ltb 0 p.exports)) [
    | inl viewed ↦ rw (open_.0, viewed) (inl (refl, open_.1))
    | inr bare ↦
        rw (open_.0, bare)
          (inr (refl, ground arith, inr (refl, ap (λ k. published w ∷ k) (open_.1))))
  ]
  commit-Once p m (inr done) = elim (Bool-cases (ltb 0 p.exports)) [
    | inl viewed ↦ rw (done.0, viewed) (inr (refl, done.1, done.2))
    | inr bare ↦ rw (done.0, bare) (inr (refl, done.1, done.2))
  ]

  abort-Once :
      (asked : Bool) (p : PySlotWriter) (m : M × List Finish)
      → Once asked p m
      → let (res, p', m') = abort (logged api) p m in Once asked p' m'
  unfolding abort
  abort-Once asked p m (inl open_) = elim (Bool-cases (ltb 0 p.exports)) [
    | inl viewed ↦ rw (open_.0, viewed) (inl (refl, open_.1))
    | inr bare ↦
        rw (open_.0, bare) (inr (refl, ground arith, inl (ap (λ k. given_up w ∷ k) (open_.1))))
  ]
  abort-Once asked p m (inr done) = elim (Bool-cases (ltb 0 p.exports)) [
    | inl viewed ↦ rw (done.0, viewed) (inr (refl, done.1, done.2))
    | inr bare ↦ rw (done.0, bare) (inr (refl, done.1, done.2))
  ]

  exit-Once :
      (asked raised : Bool) (p : PySlotWriter) (m : M × List Finish)
      → (raised ≡ false → asked ≡ true)
      → Once asked p m
      → let (res, p', m') = exit (logged api) raised p m in Once asked p' m'
  unfolding exit
  exit-Once asked true p m may h = answered (abort (logged api) p m) (abort-Once asked p m h)
    where
      answered :
          (x : PyResult (Unit {0}) × PySlotWriter × (M × List Finish))
          → Once asked x.1 x.2
          → Once asked (answer_false (logged api) x).1 (answer_false (logged api) x).2
      answered (returns u, p', m') q = q
      answered (raises c e, p', m') q = q
  exit-Once asked false p m may h =
      rw (may refl) (forgotten (commit (logged api) p m) (commit-Once p m (rw (may refl) at h)))
    where
      forgotten :
          (x : PyResult PublishResult × PySlotWriter × (M × List Finish))
          → Once true x.1 x.2
          → Once true (forget_result (logged api) x).1 (forget_result (logged api) x).2
      forgotten (returns u, p', m') q = q
      forgotten (raises c e, p', m') q = q

  events-Once :
      (asked : Bool) (es : List (Event M)) (p : PySlotWriter) (m : M × List Finish)
      → (asks_commit es ≡ true → asked ≡ true)
      → Once asked p m
      → let (p', m') = events (logged api) (beside_log es) p m in Once asked p' m'
  unfolding events event
  events-Once asked [] p m may h = h
  events-Once asked (opens_view filled ∷ es) p m may h =
      events-Once asked es _ m may (get_buffer-Once asked filled p m h)
  events-Once asked (closes_view ∷ es) p m may h =
      events-Once asked es _ m may (release_buffer-Once asked p m h)
  events-Once asked (stamps ns ∷ es) p m may h =
      events-Once asked es p _ may (set_timestamp_ns-Once asked ns p m h)
  events-Once true (commits ∷ es) p m may h =
      events-Once true es _ _ (λ q. refl) (commit-Once p m h)
  events-Once false (commits ∷ es) p m may h = absurd (cc (may refl))
  events-Once asked (aborts ∷ es) p m may h = events-Once asked es _ _ may (abort-Once asked p m h)
  events-Once asked (exits raised ∷ es) p m may h =
      events-Once asked es _ _ (λ q. may (ground arith))
        (exit-Once asked raised p m (λ q. may (ground arith)) h)
  events-Once asked (others f ∷ es) p m may h = events-Once asked es p _ may h

  drop-Once :
      (asked : Bool) (p : PySlotWriter) (m : M × List Finish)
      → Once asked p m
      → ((drop (logged api) p m).1 ≡ given_up w ∷ log)
        ⊎ ((asked ≡ true) × ((drop (logged api) p m).1 ≡ published w ∷ log))
  unfolding drop
  drop-Once asked p m (inl open_) = rw (open_.0) (inl (ap (λ k. given_up w ∷ k) (open_.1)))
  drop-Once asked p m (inr done) = rw (done.0) (done.2)

  module _ (dtype : DType) (shape : List ℕ) (es : List (Event M)) (m : M) where
    -- The writer and the memory after these events.
    abbrev pub after : PySlotWriter × (M × List Finish)
    after = events (logged api) (beside_log es) (new_writer dtype shape w) (m, log)

    -- Whatever Python calls on a writer, in whatever order, and whatever others do to the memory
    -- meanwhile: when the writer object is gone, the ring has seen exactly one end of the
    -- reservation, and a publication only if `commit` or `__exit__` without an exception was called.
    pub finished_once :
        ((drop (logged api) after.0 after.1).1 ≡ given_up w ∷ log)
        ⊎ ((asks_commit es ≡ true) × ((drop (logged api) after.0 after.1).1 ≡ published w ∷ log))
    finished_once = drop-Once (asks_commit es) _ _ (
        events-Once (asks_commit es) es (new_writer dtype shape w) (m, log) (λ q. q)
          (inl (refl, refl)))

    -- At any time, while a writable view of the slot is alive, the reservation is open: the ring
    -- has seen neither its publication nor its return.
    pub viewed_is_open : 0 < after.0.exports → (after.0.writer ≡ some w) × (after.1.1 ≡ log)
    viewed_is_open viewed =
        elim (events-Once (asks_commit es) es (new_writer dtype shape w) (m, log) (λ q. q)
          (inl (refl, refl))) [ inl open_ ↦ open_ | inr done ↦ absurd (omega (arith, done.1)) ]
