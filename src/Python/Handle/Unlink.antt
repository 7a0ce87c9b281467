-- ===== src/Python/Handle/Unlink.antt =====
-- Which object `unlink` removes after a `create` of the same name.
use tenzor_bus.Common.{
  ℕ, ◌≡◌, ◌↔◌, refl, sym, ap, ◌∙◌, subst, Bool-cases, inl, inr, true, false, List, [], ◌∷◌, ◌++◌,
  arith,
}
use tenzor_bus.Errors.{Error, timeout, ring_full, invalid, Result, ok, err}
use tenzor_bus.Mem.{Ring}
use tenzor_bus.Names.{safe_name, is_safe}
use tenzor_bus.Names.Safe.{Clean, safe_name-stable}
use tenzor_bus.Create.{layout_new}
use tenzor_bus.Shm.{
  Sys, got, failed, IoResult, fine, fault, Mapping, cname, has_nul, prefix, object_name, unlinked,
}
use tenzor_bus.Shm
use tenzor_bus.Shm.Undo.{Event, made, Trace, traced, note, Undone, create_undoes}
use tenzor_bus.Shm.Undo
use tenzor_bus.Handle.{Memory, Inner, formatted, create_sized, create_safe}
use tenzor_bus.Handle
use tenzor_bus.Python.Raise.{returns, map_py_err, to_py_err}
use tenzor_bus.Python.Handle.{py_create, py_unlink}

Clean-has_nul : (t : List ℕ) → Clean t → has_nul t ≡ false
unfolding is_safe
Clean-has_nul [] safe = refl
Clean-has_nul (c ∷ cs) safe = rw (Clean-has_nul cs safe.1) (ground (arith, safe.0))

append-cancel : (xs ys zs : List ℕ) → xs ++ ys ≡ xs ++ zs → ys ≡ zs
append-cancel [] ys zs e = e
append-cancel (x ∷ xs) ys zs e = append-cancel xs ys zs (cc)

raised : (e : Error) (i : Inner) → to_py_err e ≡ returns i → ⊥
unfolding to_py_err
raised timeout i r = cc
raised ring_full i r = cc
raised (invalid m) i r = cc
raised _ i r = cc

abbrev pub traced_memory : {K : Type 0} → Memory K → Memory (K × Trace)
traced_memory memory = record {
  kernel = traced memory.kernel;
  store = λ map m p. (memory.store map m p.0, p.1);
  load = λ map p. memory.load map p.0;
}

module _ {K : Type 0} (memory : Memory K) where
  formatted-made :
      (t : List ℕ) (ring : Ring) (i : Inner) (x : IoResult Mapping × (K × Trace))
      → Clean t
      → Undone t x
      → map_py_err (formatted (traced_memory memory) t ring x).0 ≡ returns i
      → (formatted (traced_memory memory) t ring x).1.1 ≡ made (object_name t) ∷ []
  unfolding cname to_py_err
  formatted-made t ring i (fault e, p) safe done r = absurd cc
  formatted-made t ring i (fine map, p) safe (name, named, e) r =
      let good : has_nul (object_name t) ≡ false = Clean-has_nul t safe in
      let same : fine (object_name t) ≡ fine name = rw good at named in
      e ∙ ap (λ n. made n ∷ []) (cc)

  create_sized-made :
      (t : List ℕ) (i : Inner) (x : Result Ring) (k : K)
      → Clean t
      → map_py_err (create_sized (traced_memory memory) t false x (k, [])).0 ≡ returns i
      → (create_sized (traced_memory memory) t false x (k, [])).1.1 ≡ made (object_name t) ∷ []
  unfolding to_py_err
  create_sized-made t i (err e) k safe r = absurd (raised e i r)
  create_sized-made t i (ok ring) k safe r =
      formatted-made t ring i _ safe (create_undoes memory.kernel t _ k) r

  unlink-trace :
      (name : List ℕ) (p : K × Trace)
      → has_nul (object_name name) ≡ false
      → (py_unlink (traced_memory memory) name p).1.1 ≡ Undo.unlinked (object_name name) ∷ p.1
  unfolding py_unlink Shm.unlink cname
  unlink-trace name p good = rw good (go (memory.kernel.shm_unlink (object_name name) p.0))
    where
      go :
          (x : Sys (Unit {0}) × K)
          → (unlinked (traced memory.kernel) (
              note
                (λ g. Undo.unlinked (object_name name) ∷ g)
                (λ g. Undo.unlinked (object_name name) ∷ g)
                x
                p.1)).1.1
            ≡ Undo.unlinked (object_name name) ∷ p.1
      go (got u, k) = refl
      go (failed e, k) = ground arith

  unlink-nothing :
      (name : List ℕ) (p : K × Trace)
      → has_nul (object_name name) ≡ true
      → (py_unlink (traced_memory memory) name p).1.1 ≡ p.1
  unfolding py_unlink Shm.unlink cname
  unlink-nothing name p bad = rw bad refl

  unlinks-same :
      (name t : List ℕ) (p : K × Trace)
      → p.1 ≡ made (object_name t) ∷ []
      → (py_unlink (traced_memory memory) name p).1.1
        ≡ Undo.unlinked (object_name t) ∷ made (object_name t) ∷ []
      → name ≡ t
  unlinks-same name t p e q = elim (Bool-cases (has_nul (object_name name))) [
    | inl bad ↦ let short = sym (unlink-nothing name p bad ∙ e) ∙ q in absurd cc
    | inr good ↦
        let long =
          sym (unlink-trace name p good ∙ ap (λ g. Undo.unlinked (object_name name) ∷ g) e) ∙ q in
        append-cancel prefix name t (cc)
  ]

  -- Python's `create`, without `force`, and then `unlink` of the same name, whatever the system
  -- calls answer: if the `create` returns a ring, it has made one object, and `unlink` asks the
  -- kernel to remove this object exactly if the name is its own safe name.
  pub unlink_same_object :
      (name : List ℕ) (slots slot_bytes : ℕ) (k : K) (i : Inner)
      → (py_create (traced_memory memory) name slots slot_bytes false (k, [])).0 ≡ returns i
      → let p = (py_create (traced_memory memory) name slots slot_bytes false (k, [])).1 in
        (o : List ℕ) × (p.1 ≡ made o ∷ [])
        × (((py_unlink (traced_memory memory) name p).1.1 ≡ Undo.unlinked o ∷ made o ∷ [])
            ↔ (safe_name name ≡ ok name))
  unfolding py_create Handle.create to_py_err
  unlink_same_object name slots slot_bytes k i r = go (safe_name name) refl r
    where
      go :
          (x : Result (List ℕ))
          → safe_name name ≡ x
          → map_py_err
              (create_safe
                (traced_memory memory)
                x
                (record { slot_count = slots; slot_capacity = slot_bytes; force = false })
                (k, [])).0
            ≡ returns i
          → let p =
              (create_safe
                (traced_memory memory)
                x
                (record { slot_count = slots; slot_capacity = slot_bytes; force = false })
                (k, [])).1 in
            (o : List ℕ) × (p.1 ≡ made o ∷ [])
            × (((py_unlink (traced_memory memory) name p).1.1 ≡ Undo.unlinked o ∷ made o ∷ [])
                ↔ (x ≡ ok name))
      go (err e) named r' = absurd (raised e i r')
      go (ok t) named r' =
          let (long, short, safe, again) = safe_name-stable name t named in
          let p =
            (create_sized (traced_memory memory) t false (layout_new slots slot_bytes) (k, [])).1 in
          let trace : p.1 ≡ made (object_name t) ∷ [] =
            create_sized-made t i (layout_new slots slot_bytes) k safe r' in
          let good : has_nul (object_name t) ≡ false = Clean-has_nul t safe in
          (
            object_name t,
            trace,
            (
              λ q. ap ok (sym (unlinks-same name t p trace q)),
              λ q.
                  let same : name ≡ t = cc in
                  subst
                    (λ z.
                      (py_unlink (traced_memory memory) z p).1.1
                      ≡ Undo.unlinked (object_name t) ∷ made (object_name t) ∷ [])
                    (sym same)
                    (unlink-trace t p good ∙ ap (λ g. Undo.unlinked (object_name t) ∷ g) trace),
            ),
          )
