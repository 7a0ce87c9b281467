-- ===== src/Lab/Produce/Totals.antt =====
-- What `produce` counts, that it does not panic and that it ends.
use tenzor_bus.Common.{
  length, ltb, ◌≢◌, ◌⊎◌, ℕ, zero, suc, ◌+◌, ◌%◌, ◌<◌, ◌^◌, ◌≡◌, refl, Bool, Bool-cases, inl, inr,
  true, false, ◌==◌, ◌||◌, none, some, List, [], ◌∷◌, arith,
}
use tenzor_bus.Host.{Host}
use tenzor_bus.Mem.{Mem, Ring}
use tenzor_bus.Errors.{ok, err}
use tenzor_bus.Create.{stats}
use tenzor_bus.Tensor.{TensorView}
use tenzor_bus.Producer.{
  Backpressure, drop_newest, Tick, Reserved, Outcome, PublishResult, publish, finish_publish,
  view_header,
}
use tenzor_bus.Producer.Acquire.{Expires, acquire_ends}
use tenzor_bus.Lab.Payload.{view_of-accepted}
use tenzor_bus.Lab.Options.{ProduceOptions}
use tenzor_bus.Lab.Produce.{
  Round, Counts, Ended, done, panicked, size_of, settle, run_round, is_over, produce,
  produce_from_start, nothing_yet, next_random,
}

-- What holds of the end of a run: no panic, and at `done` the counts are those of all rounds.
abbrev pub Ends : ProduceOptions → Ended → Type 0
Ends o (done c) = c.published + c.dropped ≡ o.count
Ends o (Ended.failed n c e) = n ≡ c.published + c.dropped
Ends o panicked = ⊥
Ends o Ended.waiting = ⊥

-- The wait of a publication in this round ends: it does not block, or the clock of one of its
-- attempts reaches the deadline.
abbrev pub EndsWait : ProduceOptions → Round → Type 0
EndsWait o round = (o.policy ≡ drop_newest) ⊎ Expires (round.now_ms + o.timeout_ms) round.ticks

-- There are rounds for `left` more publications, in each of which the wait ends.
unfoldable pub HasRounds : ProduceOptions → ℕ → List Round → Type 0
HasRounds o zero rounds = Unit
HasRounds o (suc left) [] = ⊥
HasRounds o (suc left) (round ∷ rounds) = EndsWait o round × HasRounds o left rounds

publish_ends :
    (h : Host) (r : Ring) (v : TensorView) (policy : Backpressure) (deadline : ℕ)
    (copying : Mem → Mem) (ticks : List Tick) (m : Mem)
    → (policy ≡ drop_newest) ⊎ Expires deadline ticks
    → publish h r v policy deadline copying ticks m ≢ none
unfolding publish
publish_ends h r v policy deadline copying ticks m x =
    elim (Bool-cases (ltb r.slot_capacity (length v.bytes))) [
      | inl large ↦ rw large (λ e. cc)
      | inr fits ↦ rw fits (
          finish_publish_ends v copying _
            (acquire_ends h r (view_header v) policy deadline ticks m x))
    ]
  where
    finish_publish_ends :
        (v : TensorView) (copying : Mem → Mem) (p : Outcome Reserved)
        → p ≢ none
        → finish_publish v copying p ≢ none
    finish_publish_ends v copying none k = absurd (k refl)
    finish_publish_ends v copying (some (err e, m)) k = λ q. cc
    finish_publish_ends v copying (some (ok none, m)) k = λ q. cc
    finish_publish_ends v copying (some (ok (some a), m)) k = λ q. cc

sized :
    (vary : Bool) {elements : ℕ}
    → elements < 2 ^ 32
    → (vary ≡ true → 0 < elements)
    → (rng : ℕ) → (e : ℕ) × (x : ℕ) × (size_of vary elements rng ≡ some (e, x)) × (e < 2 ^ 32)
unfolding size_of
sized false {elements} small any rng = (elements, rng, refl, small)
sized true {elements} small any rng =
    let positive = any refl in
    let x = next_random rng in (1 + x % elements, x, ground arith, grind arith)

module _ (h : Host) (r : Ring) (o : ProduceOptions) (small : o.elements < 2 ^ 32)
    (some_elements : o.vary ≡ true → 0 < o.elements) (unlimited : o.duration_s ≡ 0) where
  size_of-small :
      (rng : ℕ) → (e : ℕ) × (x : ℕ) × (size_of o.vary o.elements rng ≡ some (e, x)) × (e < 2 ^ 32)
  size_of-small rng = sized o.vary small some_elements rng

  settle-Ends :
      (n : ℕ) (c : Counts) (p : Outcome PublishResult) (rest : Counts → Mem → Ended × Mem) (m : Mem)
      → p ≢ none
      → n ≡ c.published + c.dropped
      → ((c' : Counts) (m' : Mem) → suc n ≡ c'.published + c'.dropped → Ends o (rest c' m').0)
      → Ends o (settle n c p rest m).0
  settle-Ends n c none rest m ends e k = absurd (ends refl)
  settle-Ends n c (some (err x, m1)) rest m ends e k = e
  settle-Ends n c (some (ok none, m1)) rest m ends e k = k _ m1 (omega arith)
  settle-Ends n c (some (ok (some p), m1)) rest m ends e k = k _ m1 (omega arith)

  run_round-Ends :
      (round : Round) (n rng : ℕ) (c : Counts) (rest : ℕ → Counts → Mem → Ended × Mem) (m : Mem)
      → EndsWait o round
      → n ≡ c.published + c.dropped
      → ((x : ℕ) (c' : Counts) (m' : Mem)
          → suc n ≡ c'.published + c'.dropped
          → Ends o (rest x c' m').0)
      → Ends o (run_round h r o round n c (size_of o.vary o.elements rng) rest m).0
  run_round-Ends round n rng c rest m ends e k =
      let (size, x, sized, bound) = size_of-small rng in
      let (v, viewed, _, _) = view_of-accepted o.vary (stats r m).next_sequence size bound in
      let published = publish_ends h r v o.policy _ round.copying round.ticks m ends in
      rw sized (rw viewed (settle-Ends n c _ (rest x) m published e (k x)))

  -- `left` publications are left.
  loop-Ends :
      (left : ℕ) (rounds : List Round) (n rng : ℕ) (c : Counts) (m : Mem)
      → HasRounds o left rounds
      → n + left ≡ o.count
      → n ≡ c.published + c.dropped
      → Ends o (produce h r o rounds n rng c m).0
  unfolding produce HasRounds
  loop-Ends zero [] n rng c m enough all e =
      let last : (n == o.count) ≡ true = ground arith in rw last (omega arith)
  loop-Ends zero (round ∷ rounds) n rng c m enough all e =
      let last : (n == o.count) ≡ true = ground arith in rw last (omega arith)
  loop-Ends (suc left) [] n rng c m enough all e = absurd enough
  loop-Ends (suc left) (round ∷ rounds) n rng c m (ends, enough) all e =
      let on : (n == o.count || is_over h r o round) ≡ false = ground arith in
      rw on (
        run_round-Ends round n rng c _ m ends e (λ x c' m' e'.
          loop-Ends left rounds (n + 1) x c' (round.others m') enough (omega arith) (omega arith)))

  -- With fewer than 2^32 elements, at least one if the size varies, and no time limit, given a
  -- round for each publication in which its wait ends, whatever the ring holds and the other
  -- processes do: `produce` comes to its end and does not panic; an error at publication `n` comes
  -- with the counts of `n` publications; and when it is done, the published and the dropped tensors
  -- are as many as it was told to publish.
  pub produce-Ends :
      (rounds : List Round) (m : Mem)
      → HasRounds o o.count rounds
      → Ends o (produce_from_start h r o rounds m).0
  unfolding produce_from_start
  produce-Ends rounds m enough =
      loop-Ends o.count rounds 0 _ nothing_yet _ enough (omega arith) refl
