-- ===== src/Futex/Wakeup/Heard.antt =====
-- What the consumer has observed is out of date as soon as a publication is signalled.
use tenzor_bus.Common.{
  ℕ, zero, suc, ◌+◌, ◌≤◌, ◌<◌, ◌^◌, ◌≡◌, refl, sym, subst, ◌⊎◌, inl, inr, Bool-cases, Bool, true,
  false, ◌==◌, u32, List, [], ◌∷◌, length, arith,
}
use tenzor_bus.Futex.Wakeup.{
  Caller, Signaller, Bell, Event, act, run, silent, call_at, try_at, wake_all, signal_at, commit_at,
  enter_at, interrupt,
}

-- The word is still to be bumped for the last commit.
abbrev pub is_ringing : Signaller → Bool
is_ringing Signaller.counting = true
is_ringing Signaller.bumping = true
is_ringing _ = false

abbrev pub is_signalling : Signaller → Bool
is_signalling Signaller.idle = false
is_signalling _ = true

-- What the consumer has seen is out of date, or the bump of the word is still to come.
abbrev pub Noticed : ℕ → Bell → Type 0
Noticed o b = (o ≤ b.word) × (0 < b.pending → (is_ringing b.signaller ≡ true) ⊎ (o < b.word))

abbrev pub HeardAt : Caller → Bell → Type 0
HeardAt (Caller.trying o) b = o ≤ b.word
HeardAt (Caller.timing o) b = Noticed o b
HeardAt (Caller.waiting o) b = Noticed o b
HeardAt Caller.asleep b = 0 < b.pending → is_signalling b.signaller ≡ true
HeardAt _ b = Unit {0}

-- The word does not wrap in the next `n` operations.
pub record Heard (n : ℕ) (b : Bell) : Type 0 where
  pub room : b.word + n < 2 ^ 32
  pub heard : HeardAt b.caller b

ringing_is_signalling : (t : Signaller) → is_ringing t ≡ true → is_signalling t ≡ true
ringing_is_signalling Signaller.idle h = cc
ringing_is_signalling _ h = refl

try-Heard :
    (n o p : ℕ) (b : Bell)
    → b.pending ≡ p
    → b.word + suc n < 2 ^ 32
    → o ≤ b.word
    → Heard n (try_at o p b)
try-Heard n o zero b e r h = record { room = omega arith; heard = (h, λ lt. absurd (omega arith)) }
try-Heard n o (suc p) b e r h = record { room = omega arith; heard = tt }

call-Heard :
    (n : ℕ) (c : Caller) (b : Bell)
    → b.caller ≡ c
    → b.word + suc n < 2 ^ 32
    → HeardAt c b
    → Heard n (call_at c b)
call-Heard n Caller.observing b e r h = record { room = omega arith; heard = omega arith }
call-Heard n (Caller.trying o) b e r h = try-Heard n o b.pending b refl r h
call-Heard n (Caller.timing o) b e r h = elim (Bool-cases b.late) [
  | inl late ↦ rw late (record { room = omega arith; heard = tt })
  | inr early ↦ rw early (record { room = omega arith; heard = h })
]
call-Heard n (Caller.waiting o) b e r h = elim (Bool-cases (b.word == o)) [
  | inl same ↦ rw same (record {
    room = omega arith;
    heard = λ lt. elim (h.1 lt) [
      | inl ring ↦ ringing_is_signalling b.signaller ring
      | inr old ↦ absurd (ground arith)
    ];
  })
  | inr other ↦ rw other (record { room = omega arith; heard = tt })
]
call-Heard n c b e r h = record { room = omega arith; heard = subst (λ d. HeardAt d b) (sym e) h }

-- What the steps of `signal` mean for a consumer at any place.
counting-Heard :
    (c : Caller) (b : Bell) → HeardAt c b → HeardAt c (record b { signaller = Signaller.bumping })
counting-Heard (Caller.timing o) b h = (h.0, λ lt. inl refl)
counting-Heard (Caller.waiting o) b h = (h.0, λ lt. inl refl)
counting-Heard Caller.asleep b h = λ lt. refl
counting-Heard _ b h = h

bumping-Heard :
    (c : Caller) (b : Bell)
    → b.word + 1 < 2 ^ 32
    → HeardAt c b
    → HeardAt c (record b { word = u32 (b.word + 1); signaller = Signaller.waking })
bumping-Heard (Caller.trying o) b r h = omega arith
bumping-Heard (Caller.timing o) b r h = let le = h.0 in (omega arith, λ lt. inr (omega arith))
bumping-Heard (Caller.waiting o) b r h = let le = h.0 in (omega arith, λ lt. inr (omega arith))
bumping-Heard Caller.asleep b r h = λ lt. refl
bumping-Heard _ b r h = h

waking-Heard :
    (c d : Caller) (b : Bell)
    → b.signaller ≡ Signaller.waking
    → HeardAt c b
    → HeardAt (wake_all c) (record b { caller = d; signaller = Signaller.idle })
waking-Heard (Caller.timing o) d b s h =
    (h.0, λ lt. elim (h.1 lt) [ inl ring ↦ cc | inr old ↦ inr old ])
waking-Heard (Caller.waiting o) d b s h =
    (h.0, λ lt. elim (h.1 lt) [ inl ring ↦ cc | inr old ↦ inr old ])
waking-Heard Caller.asleep d b s h = tt
waking-Heard _ d b s h = h

signal-Heard :
    (n : ℕ) (t : Signaller) (b : Bell)
    → b.signaller ≡ t
    → b.word + suc n < 2 ^ 32
    → HeardAt b.caller b
    → Heard n (signal_at t b)
signal-Heard n Signaller.idle b s r h = record { room = omega arith; heard = h }
signal-Heard n Signaller.counting b s r h = record {
  room = omega arith;
  heard = counting-Heard b.caller b h;
}
signal-Heard n Signaller.bumping b s r h = record {
  room = omega arith;
  heard = bumping-Heard b.caller b (omega arith) h;
}
signal-Heard n Signaller.waking b s r h = record {
  room = omega arith;
  heard = waking-Heard b.caller _ b s h;
}

commit-HeardAt :
    (c : Caller) (b : Bell) (p : ℕ)
    → HeardAt c b
    → HeardAt c (record b { pending = p; signaller = Signaller.counting })
commit-HeardAt (Caller.timing o) b p h = (h.0, λ lt. inl refl)
commit-HeardAt (Caller.waiting o) b p h = (h.0, λ lt. inl refl)
commit-HeardAt Caller.asleep b p h = λ lt. refl
commit-HeardAt _ b p h = h

commit-Heard :
    (n : ℕ) (t : Signaller) (addressed : Bool) (b : Bell)
    → b.word + suc n < 2 ^ 32
    → HeardAt b.caller b
    → Heard n (commit_at t addressed b)
commit-Heard n Signaller.idle addressed b r h = record {
  room = omega arith;
  heard = commit-HeardAt b.caller b _ h;
}
commit-Heard n _ addressed b r h = record { room = omega arith; heard = h }

enter-Heard :
    (n : ℕ) (c : Caller) (b : Bell)
    → b.caller ≡ c
    → b.word + suc n < 2 ^ 32
    → HeardAt c b
    → Heard n (enter_at c b)
enter-Heard n Caller.away b e r h = record { room = omega arith; heard = tt }
enter-Heard n Caller.took b e r h = record { room = omega arith; heard = tt }
enter-Heard n Caller.timed_out b e r h = record { room = omega arith; heard = tt }
enter-Heard n c b e r h = record { room = omega arith; heard = subst (λ d. HeardAt d b) (sym e) h }

interrupt-Heard :
    (c d : Caller) (b : Bell) → HeardAt c b → HeardAt (interrupt c) (record b { caller = d })
interrupt-Heard Caller.asleep d b h = tt
interrupt-Heard _ d b h = h

expire-Heard : (c : Caller) (b : Bell) → HeardAt c b → HeardAt c (record b { late = true })
expire-Heard Caller.away b h = h
expire-Heard _ b h = h

act-Heard : (n : ℕ) (x : Event) (b : Bell) → Heard (suc n) b → Heard n (act x b)
act-Heard n Event.calls b h = call-Heard n b.caller b refl h.room h.heard
act-Heard n Event.enters b h = enter-Heard n b.caller b refl h.room h.heard
act-Heard n Event.interrupts b h = record {
  room = let r = h.room in omega arith;
  heard = interrupt-Heard b.caller _ b h.heard;
}
act-Heard n Event.expires b h = record {
  room = let r = h.room in omega arith;
  heard = expire-Heard b.caller b h.heard;
}
act-Heard n Event.signals b h = signal-Heard n b.signaller b refl h.room h.heard
act-Heard n (Event.commits addressed) b h = commit-Heard n b.signaller addressed b h.room h.heard

pub run-Heard : (xs : List Event) (b : Bell) → Heard (length xs) b → Heard 0 (run xs b)
unfolding run
run-Heard [] b h = h
run-Heard (x ∷ xs) b h = run-Heard xs (act x b) (act-Heard (length xs) x b h)

pub silent-Heard : (n : ℕ) → n < 2 ^ 32 → Heard n silent
silent-Heard n h = record { room = omega arith; heard = tt }
