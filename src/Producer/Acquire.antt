-- ===== src/Producer/Acquire.antt =====
-- The waiting loop of `publish` and `reserve`: it ends, and why.
use tenzor_bus.Common.{
  ◌≢◌, ℕ, ◌+◌, ◌≤◌, ◌≡◌, ◌≢◌, ◌⊎◌, inl, inr, refl, Bool, true, false, leb, u64, Option, none, some,
  List, [], ◌∷◌, arith,
}
use tenzor_bus.Errors.{ok, err, ring_full}
use tenzor_bus.Host.{Host}
use tenzor_bus.Mem.{Mem, Ring}
use tenzor_bus.Producer.{
  Backpressure, block, drop_newest, Header, Reserved, Tick, Outcome, attempt, give_up, settle,
  acquire,
}

-- The clock reaches the deadline in some round.
abbrev pub Expires : ℕ → List Tick → Type 0
Expires deadline [] = ⊥
Expires deadline (t ∷ ts) = (deadline ≤ t.now) ⊎ Expires deadline ts

module _ (h : Host) (r : Ring) (hd : Header) where
  -- How a result came about: the last attempt, in the memory `m0` that it met.
  abbrev pub Explained : Backpressure → Outcome Reserved → Type 0
  Explained policy none = policy ≡ block
  Explained policy (some (err e, m)) =
      (e ≡ ring_full) × (policy ≡ block) × ((m0 : Mem) × (attempt h r hd m0 ≡ (none, m)))
  Explained policy (some (ok none, m)) =
      (policy ≡ drop_newest)
      × ((m0 : Mem) × (m1 : Mem) × (attempt h r hd m0 ≡ (none, m1))
          × (m ≡ record m1 { drop_count = u64 (m1.drop_count + 1) }))
  Explained policy (some (ok (some a), m)) = (m0 : Mem) × (attempt h r hd m0 ≡ (some a, m))

  give_up-Explained :
      (policy : Backpressure) (m0 m1 : Mem) (retry : Outcome Reserved)
      → attempt h r hd m0 ≡ (none, m1)
      → (policy ≡ block → Explained policy retry)
      → Explained policy (give_up policy m1 retry)
  give_up-Explained drop_newest m0 m1 retry e p = (refl, (m0, m1, e, refl))
  give_up-Explained block m0 m1 retry e p = p refl

  settle-Explained :
      (policy : Backpressure) (m : Mem) (p : Option Reserved × Mem) (retry : Mem → Outcome Reserved)
      → attempt h r hd m ≡ p
      → (attempt h r hd m ≡ (none, p.1) → policy ≡ block → Explained policy (retry p.1))
      → Explained policy (settle policy p retry)
  settle-Explained policy m (some a, m1) retry e keep = (m, e)
  settle-Explained policy m (none, m1) retry e keep =
      give_up-Explained policy m m1 (retry m1) e (keep e)

  -- Every result of the loop has its reason: a reservation comes from an attempt that found a slot;
  -- `RingFull` comes only under `Block`, from an attempt that found none; under `DropNewest` an
  -- attempt that found none gives up at once and counts the drop.
  pub acquire-Explained :
      (policy : Backpressure) (deadline : ℕ) (ticks : List Tick) (m : Mem)
      → Explained policy (acquire h r hd policy deadline ticks m)
  unfolding acquire
  acquire-Explained policy deadline [] m =
      settle-Explained policy m (attempt h r hd m) (λ m1. none) refl (λ e q. q)
  acquire-Explained policy deadline (t ∷ ts) m =
      settle-Explained policy m (attempt h r hd m) _ refl
        (λ e q. late (leb deadline t.now) e q (acquire-Explained policy deadline ts (t.others _)))
    where
      late :
          (b : Bool) {m1 : Mem}
          → attempt h r hd m ≡ (none, m1)
          → policy ≡ block
          → Explained policy (acquire h r hd policy deadline ts (t.others m1))
          → Explained policy (elim b [
            | true ↦ some (err ring_full, m1)
            | false ↦ acquire h r hd policy deadline ts (t.others m1)
          ])
      late true {m1} e q rest = (refl, q, (m, e))
      late false e q rest = rest

  settle_ends :
      (policy : Backpressure) (p : Option Reserved × Mem) (retry : Mem → Outcome Reserved)
      → (policy ≡ drop_newest) ⊎ (retry p.1 ≢ none)
      → settle policy p retry ≢ none
  settle_ends policy (some a, m1) retry x = λ e. cc
  settle_ends drop_newest (none, m1) retry x = λ e. cc
  settle_ends block (none, m1) retry (inl e) = λ q. cc
  settle_ends block (none, m1) retry (inr x) = x

  -- The loop ends: under `DropNewest` at once, under `Block` by the first round whose clock has
  -- reached the deadline at the latest.
  pub acquire_ends :
      (policy : Backpressure) (deadline : ℕ) (ticks : List Tick) (m : Mem)
      → (policy ≡ drop_newest) ⊎ Expires deadline ticks
      → acquire h r hd policy deadline ticks m ≢ none
  unfolding acquire
  acquire_ends policy deadline [] m (inl e) = settle_ends policy _ _ (inl e)
  acquire_ends policy deadline [] m (inr x) = absurd x
  acquire_ends policy deadline (t ∷ ts) m (inl e) = settle_ends policy _ _ (inl e)
  acquire_ends policy deadline (t ∷ ts) m (inr x) =
      settle_ends policy _ _
        (inr (late (leb deadline t.now) _ refl x (λ y. acquire_ends policy deadline ts _ (inr y))))
    where
      late :
          (b : Bool) (m1 : Mem)
          → leb deadline t.now ≡ b
          → Expires deadline (t ∷ ts)
          → (Expires deadline ts → acquire h r hd policy deadline ts (t.others m1) ≢ none)
          → (elim b as (λ _. Outcome Reserved) [
            | true ↦ some (err ring_full, m1)
            | false ↦ acquire h r hd policy deadline ts (t.others m1)
          ])
            ≢ none
      late true m1 e y rest = λ q. cc
      late false m1 e (inl y) rest = absurd (ground arith)
      late false m1 e (inr y) rest = rest y
