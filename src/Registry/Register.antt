-- ===== src/Registry/Register.antt =====
-- How a consumer is registered.
use tenzor_bus.Common.{
  ap, below, ◌⊎◌, ℕ, suc, ◌<◌, ◌≡◌, ◌≢◌, refl, subst, ◌∙◌, Bool, true, false, ◌==◌, for_to,
  for_to_inv, arith, Option, none, some, Bool-cases, inl, inr, sub_u64,
}
use tenzor_bus.Proto.{max_consumers, registry_free}
use tenzor_bus.Errors.{ok, err, Error}
use tenzor_bus.Host.{Host}
use tenzor_bus.Mem.{Entry, Mem, Ring, Consumer, lock_registry, unlock_registry}
use tenzor_bus.Registry.{
  is_active, is_dead, reap_dead, choose_body, register_at, handle_at, consumer,
}
use tenzor_bus.Registry.Reap.{locked_reap-Reaped}

abbrev pub is_vacant : Entry → Bool
is_vacant e = e.state == registry_free

-- The choice so far is the first free entry.
abbrev pub FirstVacant : (ℕ → Entry) → ℕ → Option ℕ → Type 0
FirstVacant entries k none = (j : ℕ) → j < k → is_vacant (entries j) ≡ false
FirstVacant entries k (some i) =
    (i < k) × (is_vacant (entries i) ≡ true) × ((j : ℕ) → j < i → is_vacant (entries j) ≡ false)

choose-step :
    (entries : ℕ → Entry) (k : ℕ) (o : Option ℕ)
    → FirstVacant entries k o
    → FirstVacant entries (suc k) (choose_body entries k o)
choose-step entries k none p = elim (Bool-cases (is_vacant (entries k))) [
  | inl e ↦ rw e (omega arith, e, p)
  | inr e ↦ rw e (λ j lt. below {P = λ j. is_vacant (entries j)} p e j lt)
]
choose-step entries k (some i) p = (omega arith, p.1, p.2)

choose-FirstVacant :
    (entries : ℕ → Entry)
    → FirstVacant entries max_consumers (for_to max_consumers (choose_body entries) none)
choose-FirstVacant entries =
    for_to_inv (λ k o. FirstVacant entries k o) max_consumers (choose_body entries) none
      (λ j lt. absurd (omega arith)) (λ i t lt p. choose-step entries i t p)

module _ (h : Host) (r : Ring) (m : Mem) where
  abbrev reaped : Mem
  reaped = reap_dead h r (lock_registry h m)

  choice : Option ℕ
  choice = for_to max_consumers (choose_body reaped.entries) none

  -- A registration, by the memory that the reaping leaves.
  pub record Registration (c : Consumer) (m' : Mem) : Type 0 where
    pub in_range : c.index < max_consumers
    -- the entry was free, or named a process that is dead
    pub vacant : (is_vacant (m.entries c.index) ≡ true) ⊎ (is_dead h (m.entries c.index) ≡ true)
    -- it is the first such entry
    pub first :
        (j : ℕ)
        → j < c.index
        → (is_vacant (m.entries j) ≡ false) × (is_dead h (m.entries j) ≡ false)
    pub open_handle : c.closed ≡ false
    -- only publications from now on
    pub from_now : c.last_sequence ≡ sub_u64 m.next_seq 1
    pub active : is_active (m'.entries c.index) ≡ true
    pub pid : (m'.entries c.index).pid ≡ h.pid
    pub generation : (m'.entries c.index).generation ≡ c.generation
    pub others :
        (j : ℕ) → c.index ≢ j → is_dead h (m.entries j) ≡ false → m'.entries j ≡ m.entries j
    pub slots : (j : ℕ) → m'.slots j ≡ reaped.slots j
    pub next_seq : m'.next_seq ≡ m.next_seq

  consumer-parts :
      {c : Consumer} {m' : Mem}
      → consumer h r m ≡ (ok c, m')
      → (choice ≡ some c.index)
        × (c ≡ handle_at c.index reaped)
        × (m' ≡ unlock_registry (register_at h c.index reaped))
  unfolding consumer choice
  consumer-parts e = ground arith

  full-parts :
      {x : Error} {m' : Mem}
      → consumer h r m ≡ (err x, m')
      → (choice ≡ none) × (m' ≡ unlock_registry reaped)
  unfolding consumer choice
  full-parts e = ground arith

  pub consumer-Registration :
      {c : Consumer} {m' : Mem} → consumer h r m ≡ (ok c, m') → Registration c m'
  unfolding choice
  consumer-Registration {c} {m'} e =
      let (chosen, handle, final) = consumer-parts e in
      let p = locked_reap-Reaped h r m in
      let v : FirstVacant reaped.entries max_consumers (some c.index) =
        subst (λ o. FirstVacant reaped.entries max_consumers o) chosen
          (choose-FirstVacant reaped.entries) in
      rw final (record {
        in_range = v.0;
        vacant = ground (arith, v.1, p.entries c.index);
        first = λ j lt. ground (arith, v.2 j lt, p.entries j);
        open_handle = ap (λ (d : Consumer). d.closed) handle;
        from_now =
            ap (λ (d : Consumer). d.last_sequence) handle ∙ ap (λ (n : ℕ). sub_u64 n 1) p.next_seq;
        active = ground arith;
        pid = ground arith;
        generation = ground (arith, ap (λ (d : Consumer). d.generation) handle);
        others = λ j ne alive. ground (arith, p.entries j);
        slots = λ j. refl;
        next_seq = p.next_seq;
      })

  -- Registration fails only if all entries are in use by processes that are alive.
  pub consumer-full :
      {x : Error} {m' : Mem} (j : ℕ)
      → consumer h r m ≡ (err x, m')
      → j < max_consumers
      → (m' ≡ unlock_registry reaped)
        × (is_vacant (m.entries j) ≡ false)
        × (is_dead h (m.entries j) ≡ false)
  unfolding choice
  consumer-full {x} {m'} j e lt =
      let (none_chosen, final) = full-parts e in
      let p = locked_reap-Reaped h r m in
      let v : FirstVacant reaped.entries max_consumers none =
        subst (λ o. FirstVacant reaped.entries max_consumers o) none_chosen
          (choose-FirstVacant reaped.entries) in
      let in_use : (is_vacant (m.entries j) ≡ false) × (is_dead h (m.entries j) ≡ false) =
        ground (arith, v j lt, p.entries j) in
      (final, in_use.0, in_use.1)
