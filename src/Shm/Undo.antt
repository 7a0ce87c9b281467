-- ===== src/Shm/Undo.antt =====
-- Which objects `create` of shm.rs makes and unlinks, by name.
use tenzor_bus.Common.{ℕ, ◌≡◌, ◌⊎◌, inl, inr, refl, false, List, [], ◌∷◌}
use tenzor_bus.Shm.{
  Kernel, Sys, got, failed, Mapping, IoResult, fine, fault, cname, mapped, map_fd, truncated,
  opened_new, create_named,
}
use tenzor_bus.Shm

-- An object of this name was made; `shm_unlink` was called for this name; `mmap` was refused.
pub data Event : Type 0 where
  made unlinked : List ℕ → Event
  refused : Event

-- The latest event is the first.
abbrev pub Trace : Type 0
Trace = List Event

abbrev pub note :
    {K A : Type 0} → (Trace → Trace) → (Trace → Trace) → Sys A × K → Trace → Sys A × (K × Trace)
note good bad (got a, k) g = (got a, (k, good g))
note good bad (failed errno, k) g = (failed errno, (k, bad g))

abbrev pub traced : {K : Type 0} → Kernel K → Kernel (K × Trace)
traced kernel = record {
  shm_open_new = λ name p. note (λ g. made name ∷ g) (λ g. g) (kernel.shm_open_new name p.0) p.1;
  shm_open = λ name p. note (λ g. g) (λ g. g) (kernel.shm_open name p.0) p.1;
  ftruncate = λ fd len p. note (λ g. g) (λ g. g) (kernel.ftruncate fd len p.0) p.1;
  fstat_size = λ fd p. note (λ g. g) (λ g. g) (kernel.fstat_size fd p.0) p.1;
  mmap = λ fd len p. note (λ g. g) (λ g. refused ∷ g) (kernel.mmap fd len p.0) p.1;
  munmap = λ addr len p. (kernel.munmap addr len p.0, p.1);
  close = λ fd p. (kernel.close fd p.0, p.1);
  shm_unlink = λ name p.
      note (λ g. unlinked name ∷ g) (λ g. unlinked name ∷ g) (kernel.shm_unlink name p.0) p.1;
}

-- What a `create` has done when it returns. The object of a success is there; the one of a failure
-- was unlinked by its name, unless `mmap` was refused.
abbrev pub Undone : {K : Type 0} → List ℕ → IoResult Mapping × (K × Trace) → Type 0
Undone logical (fine map, p) =
    (name : List ℕ) × (cname logical ≡ fine name) × (p.1 ≡ made name ∷ [])
Undone logical (fault e, p) =
    (p.1 ≡ [])
    ⊎ ((name : List ℕ) × (cname logical ≡ fine name)
        × ((p.1 ≡ unlinked name ∷ made name ∷ []) ⊎ (p.1 ≡ refused ∷ made name ∷ [])))

module _ {K : Type 0} (kernel : Kernel K) (logical name : List ℕ)
    (named : cname logical ≡ fine name) where
  mapped-Undone :
      (fd len : ℕ) (x : Sys ℕ × K)
      → Undone logical
          (mapped (traced kernel) fd len (note (λ g. g) (λ g. refused ∷ g) x (made name ∷ [])))
  mapped-Undone fd len (got a, k) = (name, named, refl)
  mapped-Undone fd len (failed e, k) = inr (name, named, inr refl)

  truncated-Undone :
      (fd len : ℕ) (x : Sys (Unit {0}) × K)
      → Undone logical
          (truncated (traced kernel) name fd len (note (λ g. g) (λ g. g) x (made name ∷ [])))
  unfolding map_fd
  truncated-Undone fd len (got u, k) = mapped-Undone fd len (kernel.mmap fd len k)
  truncated-Undone fd len (failed e, k) = go (kernel.shm_unlink name (kernel.close fd k))
    where
      go :
          (x : Sys (Unit {0}) × K)
          → let trace =
              (note (λ g. unlinked name ∷ g) (λ g. unlinked name ∷ g) x (made name ∷ [])).1.1 in
            (trace ≡ [])
            ⊎ ((name' : List ℕ) × (cname logical ≡ fine name')
                × ((trace ≡ unlinked name' ∷ made name' ∷ [])
                    ⊎ (trace ≡ refused ∷ made name' ∷ [])))
      go (got u, k1) = inr (name, named, inl refl)
      go (failed e1, k1) = inr (name, named, inl refl)

  opened_new-Undone :
      (len : ℕ) (x : Sys ℕ × K)
      → Undone logical
          (opened_new (traced kernel) name len (note (λ g. made name ∷ g) (λ g. g) x []))
  opened_new-Undone len (failed e, k) = inl refl
  opened_new-Undone len (got fd, k) = truncated-Undone fd len (kernel.ftruncate fd len k)

-- Whatever the system calls answer, a `create` without `force` that succeeds has made the object of
-- its name and called `shm_unlink` for none. One that fails has made none; or it has made the object
-- and then called `shm_unlink` for the name of this object; or it has made the object, `mmap` was
-- refused, and `shm_unlink` was not called: the object stays.
pub create_undoes :
    {K : Type 0} (kernel : Kernel K) (logical : List ℕ) (len : ℕ) (k : K)
    → Undone logical (Shm.create (traced kernel) logical len false (k, []))
unfolding Shm.create
create_undoes {K} kernel logical len k = go (cname logical) refl
  where
    go :
        (x : IoResult (List ℕ))
        → cname logical ≡ x
        → Undone logical (create_named (traced kernel) x len false (k, []))
    go (fault e) named = inl refl
    go (fine name) named =
        opened_new-Undone kernel logical name named len (kernel.shm_open_new name k)
