-- ===== src/Python/Lease/Once.antt =====
-- What the ring sees of a lease, whatever Python does with it.
use tenzor_bus.Common.{
  ap, ◌<◌, ◌≡◌, ◌⊎◌, inl, inr, refl, Bool, true, false, ltb, none, some, List, [], ◌∷◌, arith,
  Bool-cases,
}
use tenzor_bus.Errors.{Result}
use tenzor_bus.Consumer.{TensorMeta}
use tenzor_bus.Python.Lease.{
  PyLease, new_lease, get_buffer, release_buffer, release, drop, Event, opens_view, closes_view,
  releases, others, event, events,
}

-- A memory beside the list of the releases that it has seen.
abbrev pub logged :
    {M : Type 0}
    → (TensorMeta → M → Result (Unit {0}) × M)
    → TensorMeta
    → M × List TensorMeta
    → Result (Unit {0}) × (M × List TensorMeta)
logged release_raw t (m, log) = let (res, m') = release_raw t m in (res, (m', t ∷ log))

-- What the others do changes the memory, not the list.
abbrev pub beside_log : {M : Type 0} → List (Event M) → List (Event (M × List TensorMeta))
beside_log [] = []
beside_log (opens_view filled ∷ es) = opens_view filled ∷ beside_log es
beside_log (closes_view ∷ es) = closes_view ∷ beside_log es
beside_log (releases ∷ es) = releases ∷ beside_log es
beside_log (others f ∷ es) = others (λ p. (f p.0, p.1)) ∷ beside_log es

module _ {M : Type 0} (release_raw : TensorMeta → M → Result (Unit {0}) × M) (t : TensorMeta) where
  -- The lease is held and the ring has seen no release, or it is not, there is no view, and the
  -- ring has seen one.
  abbrev Once : List TensorMeta → PyLease → M × List TensorMeta → Type 0
  Once log l m =
      ((l.meta ≡ some t) × (m.1 ≡ log)) ⊎ ((l.meta ≡ none) × (l.exports ≡ 0) × (m.1 ≡ t ∷ log))

  release-Once :
      (log : List TensorMeta) (l : PyLease) (m : M × List TensorMeta)
      → Once log l m
      → Once log (release (logged release_raw) l m).1 (release (logged release_raw) l m).2
  unfolding release
  release-Once log l m (inl held) = elim (Bool-cases (ltb 0 l.exports)) [
    | inl viewed ↦ rw (held.0, viewed) (inl (refl, held.1))
    | inr bare ↦ rw (held.0, bare) (inr (refl, ground arith, ap (λ k. t ∷ k) held.1))
  ]
  release-Once log l m (inr gone) = rw (gone.0) (inr (refl, gone.1, gone.2))

  get_buffer-Once :
      (log : List TensorMeta) (filled : Bool) (l : PyLease) (m : M × List TensorMeta)
      → Once log l m
      → Once log (get_buffer filled l).1 m
  unfolding get_buffer
  get_buffer-Once log true l m (inl held) = rw (held.0) (inl (refl, held.1))
  get_buffer-Once log false l m (inl held) = rw (held.0) (inl (refl, held.1))
  get_buffer-Once log filled l m (inr gone) = rw (gone.0) (inr (refl, gone.1, gone.2))

  release_buffer-Once :
      (log : List TensorMeta) (l : PyLease) (m : M × List TensorMeta)
      → Once log l m
      → Once log (release_buffer l) m
  unfolding release_buffer
  release_buffer-Once log l m (inl held) = inl held
  release_buffer-Once log l m (inr gone) = inr (gone.0, omega (arith, gone.1), gone.2)

  events-Once :
      (log : List TensorMeta) (es : List (Event M)) (l : PyLease) (m : M × List TensorMeta)
      → Once log l m
      → let (l', m') = events (logged release_raw) (beside_log es) l m in Once log l' m'
  unfolding events event
  events-Once log [] l m h = h
  events-Once log (opens_view filled ∷ es) l m h =
      events-Once log es _ m (get_buffer-Once log filled l m h)
  events-Once log (closes_view ∷ es) l m h = events-Once log es _ m (release_buffer-Once log l m h)
  events-Once log (releases ∷ es) l m h = events-Once log es _ _ (release-Once log l m h)
  events-Once log (others f ∷ es) l m h = events-Once log es l _ h

  drop-Once :
      (log : List TensorMeta) (l : PyLease) (m : M × List TensorMeta)
      → Once log l m
      → (drop (logged release_raw) l m).1 ≡ t ∷ log
  unfolding drop
  drop-Once log l m (inl held) = rw (held.0) (ap (λ k. t ∷ k) (held.1))
  drop-Once log l m (inr gone) = rw (gone.0) (gone.2)

  -- Whatever Python calls on a lease of publication `t`, in whatever order, and whatever others do
  -- to the memory meanwhile: when the lease object is gone, the ring has seen exactly one
  -- `release_raw` since, and it was of `t`.
  pub released_once :
      (es : List (Event M)) (m : M) (log : List TensorMeta)
      → (let (l, m') = events (logged release_raw) (beside_log es) (new_lease t) (m, log) in
          drop (logged release_raw) l m').1
        ≡ t ∷ log
  released_once es m log =
      drop-Once log _ _ (events-Once log es (new_lease t) (m, log) (inl (refl, refl)))

  -- At any time, while a view of the lease is alive, the ring has not seen its release.
  pub viewed_is_held :
      (es : List (Event M)) (m : M) (log : List TensorMeta)
      → 0 < (events (logged release_raw) (beside_log es) (new_lease t) (m, log)).0.exports
      → ((events (logged release_raw) (beside_log es) (new_lease t) (m, log)).0.meta ≡ some t)
        × ((events (logged release_raw) (beside_log es) (new_lease t) (m, log)).1.1 ≡ log)
  viewed_is_held es m log viewed =
      elim (events-Once log es (new_lease t) (m, log) (inl (refl, refl))) [
        | inl held ↦ held
        | inr gone ↦ absurd (omega (arith, gone.1))
      ]
