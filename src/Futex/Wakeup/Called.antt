-- ===== src/Futex/Wakeup/Called.antt =====
-- A consumer does not sleep over a publication whose signal is out, unless 2^32 operations go by.
use tenzor_bus.Common.{
  ◌-◌, ℕ, suc, ◌<◌, ◌^◌, ◌≡◌, refl, sym, subst, ◌⊎◌, inl, inr, Bool, true, false, ◌==◌, List,
  length, replicate, arith,
}
use tenzor_bus.Futex.Wakeup.{Caller, Signaller, Bell, Event, run, silent}
use tenzor_bus.Futex.Wakeup.Heard.{is_signalling, Noticed, HeardAt, run-Heard, silent-Heard}

-- After fewer than 2^32 operations of the two, in any order: a consumer that sleeps in `next_raw`
-- while a publication is there for it has the producer still on its way from the store of COMMITTED
-- to the wake-up.
pub sleeper_is_called :
    (xs : List Event)
    → length xs < 2 ^ 32
    → (run xs silent).caller ≡ Caller.asleep
    → 0 < (run xs silent).pending
    → is_signalling (run xs silent).signaller ≡ true
sleeper_is_called xs few e lt =
    subst (λ c. HeardAt c (run xs silent)) e
      (run-Heard xs silent (silent-Heard (length xs) few)).heard lt

-- The consumer is inside of `next_raw`.
abbrev pub is_calling : Caller → Bool
is_calling Caller.away = false
is_calling Caller.took = false
is_calling Caller.timed_out = false
is_calling _ = true

past :
    (b : Bell) (o : ℕ)
    → Noticed o b
    → 0 < b.pending
    → b.signaller ≡ Signaller.idle
    → (b.word == o) ≡ false
past b o h lt s = elim (h.1 lt) [ inl ring ↦ cc | inr old ↦ ground arith ]

-- A consumer that waits for a word other than the present one goes on to take.
calls_past_wait :
    (b : Bell) (o p : ℕ) (c : Caller)
    → (b.word == o) ≡ false
    → (c ≡ Caller.timing o) ⊎ (c ≡ Caller.waiting o)
    → (run
        (replicate 4 Event.calls)
        (record b { pending = suc p; late = false; caller = c })).caller
      ≡ Caller.took
unfolding run
calls_past_wait b o p c e (inl q) = rw (q, e) refl
calls_past_wait b o p c e (inr q) = rw (q, e) refl

calls_take_at :
    (b : Bell) (c : Caller) (p : ℕ)
    → HeardAt c b
    → 0 < b.pending
    → b.signaller ≡ Signaller.idle
    → is_calling c ≡ true
    → (run
        (replicate 4 Event.calls)
        (record b { pending = suc p; late = false; caller = c })).caller
      ≡ Caller.took
unfolding run
calls_take_at b Caller.observing p h lt s k = refl
calls_take_at b (Caller.trying o) p h lt s k = refl
calls_take_at b (Caller.timing o) p h lt s k = calls_past_wait b o p _ (past b o h lt s) (inl refl)
calls_take_at b (Caller.waiting o) p h lt s k = calls_past_wait b o p _ (past b o h lt s) (inr refl)
calls_take_at b Caller.asleep p h lt s k = cc (h lt)
calls_take_at b _ p h lt s k = cc

-- After fewer than 2^32 operations of the two, in any order: if a publication is there for the
-- consumer, the producer is through with `publish`, and the consumer is in `next_raw` and not late,
-- then the consumer takes a publication with its next four operations.
pub called_takes :
    (xs : List Event)
    → length xs < 2 ^ 32
    → (run xs silent).late ≡ false
    → 0 < (run xs silent).pending
    → (run xs silent).signaller ≡ Signaller.idle
    → is_calling (run xs silent).caller ≡ true
    → (run (replicate 4 Event.calls) (run xs silent)).caller ≡ Caller.took
called_takes xs few t lt s k =
    let b = run xs silent in
    let p : b.pending ≡ suc (b.pending - 1) = omega arith in
    let heard = (run-Heard xs silent (silent-Heard (length xs) few)).heard in
    subst (λ l. (run (replicate 4 Event.calls) (record b { late = l })).caller ≡ Caller.took)
      (sym t)
      (subst
        (λ n.
          (run (replicate 4 Event.calls) (record b { pending = n; late = false })).caller
          ≡ Caller.took)
        (sym p) (calls_take_at b b.caller (b.pending - 1) heard lt s k))
