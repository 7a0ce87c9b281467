-- ===== src/Handle/Balance.antt =====
-- What a handle of a ring leaves behind, whatever the system calls answer.
use tenzor_bus.Common.{ℕ, refl, ◌==◌, Bool-cases, inl, inr, List, arith}
use tenzor_bus.Proto.{total_bytes}
use tenzor_bus.Errors.{
  Result, ok, err, io, os, contains_nul, zero_length, bad_header, ring_full, timeout, capacity,
  invalid, lease_violation,
}
use tenzor_bus.Mem.{Ring}
use tenzor_bus.Names.{safe_name}
use tenzor_bus.Create.{RingOptions, layout_new, format}
use tenzor_bus.Shm.{Kernel, Mapping, IoResult, fine, fault}
use tenzor_bus.Shm.Balance.{
  Log, no_calls, logged, Leaves, Mapped, create-Mapped, attach-Mapped, unlink_all-Leaves,
}
use tenzor_bus.Handle.{
  Memory, Inner, formatted, create_sized, create_safe, create, learned, attached, attach_safe,
  attach, or_attach, open_or_create, drop,
}

abbrev pub beside_log : {K : Type 0} → Memory K → Memory (K × Log)
beside_log memory = record {
  kernel = logged memory.kernel;
  store = λ map m p. (memory.store map m p.0, p.1);
  load = λ map p. memory.load map p.0;
}

module _ {K : Type 0} (memory : Memory K) where
  abbrev kernel : Kernel K
  kernel = memory.kernel

  -- What is left when the handle, if there is one, has been dropped.
  abbrev pub Closes : Result Inner × (K × Log) → Type 0
  Closes (err e, p) = Leaves 0 p.1
  Closes (ok i, p) = Leaves 1 p.1 × Leaves 0 (drop (beside_log memory) i p).1

  pub drop-Leaves :
      (i : Inner) (p : K × Log) → Leaves 1 p.1 → Leaves 0 (drop (beside_log memory) i p).1
  unfolding drop
  drop-Leaves i p b = elim (Bool-cases i.unlink_on_drop) [
    | inl e ↦
        let c = unlink_all-Leaves kernel 1 i.name p b in
        rw e (record {
          descriptors = omega (arith, c.descriptors);
          mappings = omega (arith, c.mappings);
        })
    | inr e ↦ rw e (record {
      descriptors = omega (arith, b.descriptors);
      mappings = omega (arith, b.mappings);
    })
  ]

  pub create-Closes :
      (name : List ℕ) (opts : RingOptions) (p : K × Log)
      → Leaves 0 p.1
      → Closes (create (beside_log memory) name opts p)
  unfolding create
  create-Closes name opts p b = safe (safe_name name)
    where
      held :
          (n : List ℕ) (ring : Ring) (x : IoResult Mapping × (K × Log))
          → Mapped x
          → Closes (formatted (beside_log memory) n ring x)
      held n ring (fault e, q) h = h
      held n ring (fine map, q) h = (h, drop-Leaves _ (memory.store map (format ring) q.0, q.1) h)

      sized :
          (n : List ℕ) (x : Result Ring)
          → Closes (create_sized (beside_log memory) n opts.force x p)
      sized n (err e) = b
      sized n (ok ring) =
          held n ring _
            (create-Mapped kernel n (total_bytes ring.slot_count ring.slot_capacity) opts.force p b)

      safe : (x : Result (List ℕ)) → Closes (create_safe (beside_log memory) x opts p)
      safe (err e) = b
      safe (ok n) = sized n (layout_new opts.slot_count opts.slot_capacity)

  pub attach-Closes :
      (name : List ℕ) (p : K × Log) → Leaves 0 p.1 → Closes (attach (beside_log memory) name p)
  unfolding attach
  attach-Closes name p b = safe (safe_name name)
    where
      learns :
          (n : List ℕ) (map : Mapping) (x : Result Ring) (q : K × Log)
          → Leaves 1 q.1
          → Closes (learned (beside_log memory) n map x q)
      learns n map (err e) q h = record {
        descriptors = omega (arith, h.descriptors);
        mappings = omega (arith, h.mappings);
      }
      learns n map (ok ring) q h = (h, drop-Leaves _ q h)

      held :
          (n : List ℕ) (x : IoResult Mapping × (K × Log))
          → Mapped x
          → Closes (attached (beside_log memory) n x)
      held n (fault e, q) h = h
      held n (fine map, q) h = learns n map _ q h

      safe : (x : Result (List ℕ)) → Closes (attach_safe (beside_log memory) x p)
      safe (err e) = b
      safe (ok n) = held n _ (attach-Mapped kernel n p b)

  or_attach-Closes :
      (name : List ℕ) (x : Result Inner × (K × Log))
      → Closes x
      → Closes (or_attach (beside_log memory) name x)
  or_attach-Closes name (ok i, p) b = b
  or_attach-Closes name (err (io (os errno)), p) b = elim (Bool-cases (errno == 17)) [
    | inl e ↦ rw e (attach-Closes name p b)
    | inr e ↦ rw e b
  ]
  or_attach-Closes name (err (io contains_nul), p) b = b
  or_attach-Closes name (err (io zero_length), p) b = b
  or_attach-Closes name (err (bad_header x), p) b = b
  or_attach-Closes name (err ring_full, p) b = b
  or_attach-Closes name (err timeout, p) b = b
  or_attach-Closes name (err (capacity x), p) b = b
  or_attach-Closes name (err (invalid x), p) b = b
  or_attach-Closes name (err (lease_violation x), p) b = b

  -- Whatever the system calls answer: when `open_or_create` returns, every descriptor that it opened
  -- is closed; if it failed, no mapping is left; else one is, and none once the handle is dropped.
  pub open_or_create-Closes :
      (name : List ℕ) (opts : RingOptions) (k : K)
      → Closes (open_or_create (beside_log memory) name opts (k, no_calls))
  unfolding open_or_create
  open_or_create-Closes name opts k =
      or_attach-Closes name _
        (create-Closes name opts (k, no_calls) (record { descriptors = refl; mappings = refl }))
