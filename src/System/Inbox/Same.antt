-- ===== src/System/Inbox/Same.antt =====
-- When a slot's message stays in the inboxes, and when it is in none.
use tenzor_bus.Common.{
  ℕ, ◌<◌, ◌≡◌, ◌≢◌, ◌⊎◌, refl, true, false, ltb, Bool-cases, inl, inr, Option, none, some, arith,
}
use tenzor_bus.Common.Bits.{test_bit}
use tenzor_bus.Proto.{state_committed}
use tenzor_bus.Host.{Host}
use tenzor_bus.Mem.{Mem, Slot, Ring, Consumer}
use tenzor_bus.Registry.{is_abandoned}
use tenzor_bus.Registry.Reap.{Reaped, SameTensor}
use tenzor_bus.Consumer.Scan.{is_pending}
use tenzor_bus.System.{System, Sees}
use tenzor_bus.System.Invariant.{Inv}
use tenzor_bus.System.Inbox.{Message, message_of, waiting_for, inboxes}

-- A slot that is not committed is in no inbox.
pub waiting_for-uncommitted :
    (o : Option Consumer) (x : Slot) → x.state ≢ state_committed → waiting_for o x ≡ none
waiting_for-uncommitted none x e = refl
waiting_for-uncommitted (some c) x e = ground (arith)

-- A slot that keeps its tensor and the consumer's bit is in the same inboxes.
pub waiting_for-same :
    (c : Consumer) (x y : Slot)
    → SameTensor x y
    → test_bit y.mask c.index ≡ test_bit x.mask c.index
    → waiting_for (some c) y ≡ waiting_for (some c) x
waiting_for-same c x y p e = ground (arith, p)

-- A slot that is not newer than what the consumer has taken is not in its inbox.
pub waiting_for-seen :
    (c : Consumer) (x : Slot) → is_pending c x ≡ false → waiting_for (some c) x ≡ none
waiting_for-seen c x e = rw e

module _ (r : Ring) (s t : System) where
  -- One inbox, at one slot.
  pub inboxes-at :
      (id k : ℕ)
      → (k < r.slot_count
          → waiting_for (t.consumers id) (t.mem.slots k)
            ≡ waiting_for (s.consumers id) (s.mem.slots k))
      → inboxes r t id k ≡ inboxes r s id k
  inboxes-at id k e = elim (Bool-cases (ltb k r.slot_count)) [
    | inl lt ↦ rw lt (e (ground arith))
    | inr ge ↦ rw ge
  ]

  -- The inboxes are the same if each slot is in the same ones.
  pub inboxes-same :
      ((id k : ℕ)
        → k < r.slot_count
        → waiting_for (t.consumers id) (t.mem.slots k)
          ≡ waiting_for (s.consumers id) (s.mem.slots k))
      → (id k : ℕ) → inboxes r t id k ≡ inboxes r s id k
  inboxes-same p id k = inboxes-at id k (p id k)

module _ (r : Ring) (s : System) (id k : ℕ) where
  pub inboxes-none : waiting_for (s.consumers id) (s.mem.slots k) ≡ none → inboxes r s id k ≡ none
  inboxes-none e = elim (Bool-cases (ltb k r.slot_count)) [ inl lt ↦ rw lt e | inr ge ↦ rw ge ]

  pub inboxes-some :
      {x : Message}
      → k < r.slot_count
      → waiting_for (s.consumers id) (s.mem.slots k) ≡ some x
      → inboxes r s id k ≡ some x
  inboxes-some lt e = let inside : ltb k r.slot_count ≡ true = ground arith in rw inside e

  pub inboxes-message :
      {x : Message} (c : Consumer)
      → s.consumers id ≡ some c
      → inboxes r s id k ≡ some x
      → (k < r.slot_count)
        × (is_pending c (s.mem.slots k) ≡ true)
        × (message_of (s.mem.slots k) ≡ x)
  inboxes-message {x} c known q = elim (Bool-cases (ltb k r.slot_count)) [
    | inl lt ↦ elim (Bool-cases (is_pending c (s.mem.slots k))) [
      | inl p ↦ (ground arith, p, let z = rw (lt, known, p) at q in cc)
      | inr p ↦ let z = rw (lt, known, p) at q in cc
    ]
    | inr ge ↦ let z = rw ge at q in cc
  ]

  -- An inbox has the slot's message or none.
  pub inboxes-either :
      (inboxes r s id k ≡ none) ⊎ (inboxes r s id k ≡ some (message_of (s.mem.slots k)))
  inboxes-either = elim (Bool-cases (ltb k r.slot_count)) [
    | inl lt ↦ rw lt (either (s.consumers id))
    | inr ge ↦ rw ge (inl refl)
  ]
    where
      either :
          (o : Option Consumer)
          → (waiting_for o (s.mem.slots k) ≡ none)
            ⊎ (waiting_for o (s.mem.slots k) ≡ some (message_of (s.mem.slots k)))
      either none = inl refl
      either (some c) = elim (Bool-cases (is_pending c (s.mem.slots k))) [
        | inl p ↦ rw p (inr refl)
        | inr p ↦ rw p (inl refl)
      ]

-- A slot after the dead were reaped.
pub waiting_for-Reaped :
    (h : Host) (r : Ring) (s : System) (m : Mem) (id k : ℕ) (o : Option Consumer)
    → Inv r s
    → Sees h r s
    → Reaped h r s.mem m
    → s.consumers id ≡ o
    → k < r.slot_count
    → waiting_for o (m.slots k) ≡ waiting_for o (s.mem.slots k)
waiting_for-Reaped h r s m id k none inv sees p q lt = refl
waiting_for-Reaped h r s m id k (some c) inv sees p q lt =
    elim (Bool-cases (is_abandoned h (s.mem.slots k))) [
      | inl dead ↦ rw (
        waiting_for-uncommitted (some c) (m.slots k) (λ e. ground (arith, p.abandoned k lt dead)),
        waiting_for-uncommitted (some c) (s.mem.slots k) (λ e. ground arith),
      )
      | inr alive ↦
          waiting_for-same c (s.mem.slots k) (m.slots k) (p.tensors k alive)
            (ground (arith, p.bits k c.index lt alive, sees.readers id c q, inv.registered id c q))
    ]
