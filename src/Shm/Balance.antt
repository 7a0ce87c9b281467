-- ===== src/Shm/Balance.antt =====
-- What `create`, `attach` and `unlink` of shm.rs leave behind, whatever the system calls answer.
use tenzor_bus.Common.{
  ℕ, ◌+◌, ◌≡◌, refl, Bool, true, false, ◌==◌, Bool-cases, inl, inr, List, arith,
}
use tenzor_bus.Shm.{
  Kernel, Sys, got, failed, Mapping, IoResult, fine, fault, cname, mapped, map_fd, truncated,
  opened_new, create_named, measured, opened, attach_named, unlinked, unlink_named,
}
use tenzor_bus.Shm

-- How often calls succeeded: descriptors opened and closed, mappings made and undone, objects
-- created; how often `mmap` was refused; and how often `shm_unlink` was called.
pub record Log : Type 0 where
  pub opens : ℕ
  pub closes : ℕ
  pub maps : ℕ
  pub unmaps : ℕ
  pub makes : ℕ
  pub refusals : ℕ
  pub unlinks : ℕ

abbrev pub no_calls : Log
no_calls = record {
  opens = 0;
  closes = 0;
  maps = 0;
  unmaps = 0;
  makes = 0;
  refusals = 0;
  unlinks = 0;
}

abbrev pub count : {K A : Type 0} → (Log → Log) → (Log → Log) → Sys A × K → Log → Sys A × (K × Log)
count good bad (got a, k) g = (got a, (k, good g))
count good bad (failed errno, k) g = (failed errno, (k, bad g))

abbrev pub logged : {K : Type 0} → Kernel K → Kernel (K × Log)
logged kernel = record {
  shm_open_new = λ name p.
      count (λ g. record g { opens = g.opens + 1; makes = g.makes + 1 }) (λ g. g)
        (kernel.shm_open_new name p.0) p.1;
  shm_open = λ name p.
      count (λ g. record g { opens = g.opens + 1 }) (λ g. g) (kernel.shm_open name p.0) p.1;
  ftruncate = λ fd len p. count (λ g. g) (λ g. g) (kernel.ftruncate fd len p.0) p.1;
  fstat_size = λ fd p. count (λ g. g) (λ g. g) (kernel.fstat_size fd p.0) p.1;
  mmap = λ fd len p.
      count (λ g. record g { maps = g.maps + 1 }) (λ g. record g { refusals = g.refusals + 1 })
        (kernel.mmap fd len p.0) p.1;
  munmap = λ addr len p. (kernel.munmap addr len p.0, record (p.1) { unmaps = p.1.unmaps + 1 });
  close = λ fd p. (kernel.close fd p.0, record (p.1) { closes = p.1.closes + 1 });
  shm_unlink = λ name p.
      count (λ g. record g { unlinks = g.unlinks + 1 }) (λ g. record g { unlinks = g.unlinks + 1 })
        (kernel.shm_unlink name p.0) p.1;
}

-- Every descriptor is closed, and `n` mappings are left.
pub record Leaves (n : ℕ) (g : Log) : Type 0 where
  pub descriptors : g.opens ≡ g.closes
  pub mappings : g.maps ≡ g.unmaps + n

-- One mapping is left if there is one to give back.
abbrev pub Mapped : {K : Type 0} → IoResult Mapping × (K × Log) → Type 0
Mapped (fine map, p) = Leaves 1 p.1
Mapped (fault e, p) = Leaves 0 p.1

module _ {K : Type 0} (kernel : Kernel K) where
  -- A descriptor is open.
  record Opened (g : Log) : Type 0 where
    descriptors : g.opens ≡ g.closes + 1
    mappings : g.maps ≡ g.unmaps

  mapped-Mapped :
      (fd len : ℕ) (x : Sys ℕ × K) (g : Log)
      → Opened g
      → Mapped (
          mapped (logged kernel) fd len (
            count
              (λ g. record g { maps = g.maps + 1 })
              (λ g. record g { refusals = g.refusals + 1 })
              x
              g))
  mapped-Mapped fd len (got a, k) g o = record {
    descriptors = omega (arith, o.descriptors);
    mappings = omega (arith, o.mappings);
  }
  mapped-Mapped fd len (failed e, k) g o = record {
    descriptors = omega (arith, o.descriptors);
    mappings = omega (arith, o.mappings);
  }

  map_fd-Mapped : (fd len : ℕ) (p : K × Log) → Opened p.1 → Mapped (map_fd (logged kernel) fd len p)
  unfolding map_fd
  map_fd-Mapped fd len p o = mapped-Mapped fd len (kernel.mmap fd len p.0) p.1 o

  unlink-log :
      (name : List ℕ) (p : K × Log)
      → ((logged kernel).shm_unlink name p).1.1 ≡ record (p.1) { unlinks = p.1.unlinks + 1 }
  unlink-log name p = go (kernel.shm_unlink name p.0)
    where
      go :
          (x : Sys (Unit {0}) × K)
          → (count
              (λ g. record g { unlinks = g.unlinks + 1 })
              (λ g. record g { unlinks = g.unlinks + 1 })
              x
              (p.1)).1.1
            ≡ record (p.1) { unlinks = p.1.unlinks + 1 }
      go (got u, k) = refl
      go (failed e, k) = refl

  truncated-Mapped :
      (name : List ℕ) (fd len : ℕ) (x : Sys (Unit {0}) × K) (g : Log)
      → Opened g
      → Mapped (truncated (logged kernel) name fd len (count (λ g. g) (λ g. g) x g))
  truncated-Mapped name fd len (got u, k) g o = map_fd-Mapped fd len (k, g) o
  truncated-Mapped name fd len (failed e, k) g o =
      let p : K × Log = (kernel.close fd k, record g { closes = g.closes + 1 }) in
      rw (unlink-log name p) (record {
        descriptors = omega (arith, o.descriptors);
        mappings = omega (arith, o.mappings);
      })

  opened_new-Mapped :
      (name : List ℕ) (len : ℕ) (x : Sys ℕ × K) (g : Log)
      → Leaves 0 g
      → Mapped (
          opened_new
            (logged kernel)
            name
            len
            (count (λ g. record g { opens = g.opens + 1; makes = g.makes + 1 }) (λ g. g) x g))
  opened_new-Mapped name len (failed e, k) g b = b
  opened_new-Mapped name len (got fd, k) g b =
      truncated-Mapped name fd len (kernel.ftruncate fd len k)
        (record g { opens = g.opens + 1; makes = g.makes + 1 })
        (record {
          descriptors = omega (arith, b.descriptors);
          mappings = omega (arith, b.mappings);
        })

  unlink-Leaves :
      (n : ℕ) (name : List ℕ) (p : K × Log)
      → Leaves n p.1
      → Leaves n ((logged kernel).shm_unlink name p).1.1
  unlink-Leaves n name p b =
      rw (unlink-log name p) (record { descriptors = b.descriptors; mappings = b.mappings })

  pub create-Mapped :
      (logical : List ℕ) (len : ℕ) (force : Bool) (p : K × Log)
      → Leaves 0 p.1
      → Mapped (Shm.create (logged kernel) logical len force p)
  unfolding Shm.create
  create-Mapped logical len force p b = go (cname logical) force
    where
      go : (x : IoResult (List ℕ)) (f : Bool) → Mapped (create_named (logged kernel) x len f p)
      go (fault e) f = b
      go (fine name) true =
          let q = ((logged kernel).shm_unlink name p).1 in
          opened_new-Mapped name len (kernel.shm_open_new name q.0) q.1 (unlink-Leaves 0 name p b)
      go (fine name) false = opened_new-Mapped name len (kernel.shm_open_new name p.0) p.1 b

  measured-Mapped :
      (fd : ℕ) (x : Sys ℕ × K) (g : Log)
      → Opened g
      → Mapped (measured (logged kernel) fd (count (λ g. g) (λ g. g) x g))
  measured-Mapped fd (failed e, k) g o = record {
    descriptors = omega (arith, o.descriptors);
    mappings = omega (arith, o.mappings);
  }
  measured-Mapped fd (got len, k) g o = elim (Bool-cases (len == 0)) [
    | inl e ↦ rw e (record {
      descriptors = omega (arith, o.descriptors);
      mappings = omega (arith, o.mappings);
    })
    | inr e ↦ rw e (map_fd-Mapped fd len (k, g) o)
  ]

  opened-Mapped :
      (x : Sys ℕ × K) (g : Log)
      → Leaves 0 g
      → Mapped (opened (logged kernel) (count (λ g. record g { opens = g.opens + 1 }) (λ g. g) x g))
  opened-Mapped (failed e, k) g b = b
  opened-Mapped (got fd, k) g b =
      measured-Mapped fd (kernel.fstat_size fd k) (record g { opens = g.opens + 1 })
        (record {
          descriptors = omega (arith, b.descriptors);
          mappings = omega (arith, b.mappings);
        })

  pub attach-Mapped :
      (logical : List ℕ) (p : K × Log)
      → Leaves 0 p.1
      → Mapped (Shm.attach (logged kernel) logical p)
  unfolding Shm.attach
  attach-Mapped logical p b = go (cname logical)
    where
      go : (x : IoResult (List ℕ)) → Mapped (attach_named (logged kernel) x p)
      go (fault e) = b
      go (fine name) = opened-Mapped (kernel.shm_open name p.0) p.1 b

  unlinked-state : (x : Sys (Unit {0}) × (K × Log)) → (unlinked (logged kernel) x).1 ≡ x.1
  unlinked-state (got u, p) = refl
  unlinked-state (failed e, p) = elim (Bool-cases (e == 2)) [
    | inl q ↦ rw q refl
    | inr q ↦ rw q refl
  ]

  pub unlink_all-Leaves :
      (n : ℕ) (logical : List ℕ) (p : K × Log)
      → Leaves n p.1
      → Leaves n (Shm.unlink (logged kernel) logical p).1.1
  unfolding Shm.unlink
  unlink_all-Leaves n logical p b = go (cname logical)
    where
      go : (x : IoResult (List ℕ)) → Leaves n (unlink_named (logged kernel) x p).1.1
      go (fault e) = b
      go (fine name) =
          rw (unlinked-state ((logged kernel).shm_unlink name p)) (unlink-Leaves n name p b)
