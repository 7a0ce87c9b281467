-- ===== src/Seqlock/Loads.antt =====
-- What a consumer knows at each of its loads.
use tenzor_bus.Common.{
  ℕ, ◌≤◌, ◌≡◌, ◌≢◌, refl, sym, subst, ◌∙◌, ap, inl, inr, true, false, Bool-cases, ◌==◌, ◌&&◌, List,
  [], ◌∷◌, ◌++◌, arith,
}
use mathlib.Core.List.{append_assoc, append-nil}
use tenzor_bus.Common.Bits.{test_bit, mask-ne-zero}
use tenzor_bus.Proto.{state_committed}
use tenzor_bus.Seqlock.{Publication, World, Writer, Reader, loads, header}
use tenzor_bus.Seqlock.Run.{load_at, snapshot}
use tenzor_bus.Seqlock.Fields.{
  contains, Whole, header-field, contains-head, contains-cons, loads-header,
}
use tenzor_bus.Seqlock.Stores.{Consistent, ConsistentAt}
use tenzor_bus.Seqlock.Seals.{SealedAt, HeldAt, Keeps, is_idle}

abbrev Sealed : ℕ → World → Type 0
Sealed e w = SealedAt w.writer e w

abbrev pub Held : ℕ → ℕ → World → Type 0
Held me e w = HeldAt me w.writer e w

-- What is loaded, with what is still to be loaded, is the publication.
abbrev Matches : ℕ → List ℕ → List (ℕ × ℕ) → World → Type 0
Matches e os got w = got ++ snapshot (w.book e) os ≡ snapshot (w.book e) loads

-- The words still to be loaded are the header's.
abbrev InLoads : List ℕ → Type 0
InLoads os = (o : ℕ) → contains o os ≡ true → contains o header ≡ true

abbrev pub Exact : ℕ → List (ℕ × ℕ) → World → Type 0
Exact e got w = got ≡ snapshot (w.book e) loads

-- A mask with the consumer's bit says that publication `e` is held.
abbrev Masked : ℕ → ℕ → List (ℕ × ℕ) → ℕ → World → Type 0
Masked me e got m w = test_bit m me ≡ true → Held me e w × Exact e got w

abbrev pub KnowsAt : ℕ → Reader → World → Type 0
KnowsAt me Reader.away w = Unit {0}
KnowsAt me Reader.spotting w = Unit {0}
KnowsAt me Reader.sighting w = Unit {0}
KnowsAt me Reader.naming w = Unit {0}
KnowsAt me (Reader.checking e) w = e ≤ w.sequence
KnowsAt me (Reader.comparing e) w = Sealed e w
KnowsAt me (Reader.loading e os got) w =
    Sealed e w × (w.sequence ≡ e → Matches e os got w) × InLoads os
KnowsAt me (Reader.rechecking e got m) w = Sealed e w × (w.sequence ≡ e → Masked me e got m w)
KnowsAt me (Reader.recomparing e got m) w = Sealed e w × (w.sequence ≡ e → Masked me e got m w)
KnowsAt me (Reader.judging e got m) w = Masked me e got m w
KnowsAt me (Reader.taken e got) w = Held me e w × Exact e got w

abbrev pub Knows : ℕ → World → Type 0
Knows me w = KnowsAt me w.reader w

module _ (me : ℕ) where
  Held-Keeps :
      (e : ℕ) (got : List (ℕ × ℕ)) {w w' : World}
      → Keeps me e w.writer w w'
      → Held me e w × Exact e got w
      → Held me e w' × Exact e got w'
  Held-Keeps e got k (h, x) =
      let (h', b) = k.held h in (h', subst (λ (p : Publication). got ≡ snapshot p loads) (sym b) x)

  Masked-Keeps :
      (e : ℕ) (got : List (ℕ × ℕ)) (m : ℕ) {w w' : World}
      → Keeps me e w.writer w w'
      → Sealed e w × (w.sequence ≡ e → Masked me e got m w)
      → Sealed e w' × (w'.sequence ≡ e → Masked me e got m w')
  Masked-Keeps e got m k (s, x) = (k.seals s, λ h bit. Held-Keeps e got k (x (k.same s h).0 bit))

  -- Whatever the others do, a consumer goes on knowing what it knows.
  pub Knows-Keeps :
      (r : Reader) (w w' : World)
      → ((e : ℕ) → Keeps me e w.writer w w')
      → KnowsAt me r w
      → KnowsAt me r w'
  Knows-Keeps Reader.away w w' k h = tt
  Knows-Keeps Reader.spotting w w' k h = tt
  Knows-Keeps Reader.sighting w w' k h = tt
  Knows-Keeps Reader.naming w w' k h = tt
  Knows-Keeps (Reader.checking e) w w' k h = (k e).grows h
  Knows-Keeps (Reader.comparing e) w w' k h = (k e).seals h
  Knows-Keeps (Reader.loading e os got) w w' k h = (
    (k e).seals h.0,
    λ q.
        let (old, b) = (k e).same h.0 q in
        subst (λ (p : Publication). got ++ snapshot p os ≡ snapshot p loads) (sym b) (h.1 old),
    h.2,
  )
  Knows-Keeps (Reader.rechecking e got m) w w' k h = Masked-Keeps e got m (k e) h
  Knows-Keeps (Reader.recomparing e got m) w w' k h = Masked-Keeps e got m (k e) h
  Knows-Keeps (Reader.judging e got m) w w' k h = λ bit. Held-Keeps e got (k e) (h bit)
  Knows-Keeps (Reader.taken e got) w w' k h = Held-Keeps e got (k e) h

  -- A committed slot is sealed, if it is not yet written for a later number.
  committed-Sealed :
      (t : Writer) (e : ℕ) (w : World)
      → ConsistentAt t w
      → w.state ≡ state_committed
      → e ≤ w.sequence
      → SealedAt t e w
  committed-Sealed Writer.idle e w c s le =
      (let lt = (c.1 s).0 in omega arith, λ q. (refl, inl s, subst (λ k. Whole k w) q (c.1 s).1))
  committed-Sealed (Writer.marking n) e w c s le =
      (let lt = (c.3 s).0 in omega arith, λ q. (refl, inl s, subst (λ k. Whole k w) q (c.3 s).1))
  committed-Sealed (Writer.clearing n true) e w c s le = absurd (omega arith)
  committed-Sealed (Writer.clearing n false) e w c s le = absurd (omega arith)
  committed-Sealed (Writer.uncounting n true) e w c s le = absurd (omega arith)
  committed-Sealed (Writer.uncounting n false) e w c s le = absurd (omega arith)
  committed-Sealed (Writer.freeing n true) e w c s le = absurd (omega arith)
  committed-Sealed (Writer.freeing n false) e w c s le = absurd (omega arith)
  committed-Sealed _ e w c s le = absurd (omega arith)

  -- A committed slot with a reader has no writer.
  committed_idle :
      (t : Writer) (w : World)
      → ConsistentAt t w
      → w.state ≡ state_committed
      → w.mask ≢ 0
      → is_idle t ≡ true
  committed_idle Writer.idle w c s m = refl
  committed_idle (Writer.marking n) w c s m = absurd (m (c.2 s))
  committed_idle (Writer.clearing n true) w c s m = absurd (omega arith)
  committed_idle (Writer.clearing n false) w c s m = absurd (omega arith)
  committed_idle (Writer.uncounting n true) w c s m = absurd (omega arith)
  committed_idle (Writer.uncounting n false) w c s m = absurd (omega arith)
  committed_idle (Writer.freeing n true) w c s m = absurd (omega arith)
  committed_idle (Writer.freeing n false) w c s m = absurd (omega arith)
  committed_idle _ w c s m = absurd (omega arith)

  -- If the slot shows a sealed number and the consumer's bit, the publication is held.
  sealed-Held :
      (e : ℕ) (w : World)
      → Consistent w
      → Sealed e w
      → w.sequence ≡ e
      → test_bit w.mask me ≡ true
      → Held me e w
  sealed-Held e w c s h bit =
      let (_, state, whole) = s.1 h in
      let read = mask-ne-zero w.mask me bit in
      let still : w.state ≡ state_committed = elim state [ inl p ↦ p | inr p ↦ absurd (read p) ] in
      (h, s.0, committed_idle w.writer w c still read, still, bit, whole)

  pub load-Knows :
      (r : Reader) (w : World) → Consistent w → KnowsAt me r w → KnowsAt me (load_at me r w) w
  unfolding snapshot
  load-Knows Reader.away w c h = tt
  load-Knows Reader.spotting w c h = elim (Bool-cases (w.state == state_committed)) [
    | inl q ↦ rw q (tt)
    | inr q ↦ rw q tt
  ]
  load-Knows Reader.sighting w c h = elim (Bool-cases (test_bit w.mask me)) [
    | inl q ↦ rw q (tt)
    | inr q ↦ rw q tt
  ]
  load-Knows Reader.naming w c h = omega arith
  load-Knows (Reader.checking e) w c h = elim (Bool-cases (w.state == state_committed)) [
    | inl q ↦ rw q (committed-Sealed w.writer e w c (ground arith) h)
    | inr q ↦ rw q tt
  ]
  load-Knows (Reader.comparing e) w c h = elim (Bool-cases (w.sequence == e)) [
    | inl q ↦ rw q ((h, λ _. refl, loads-header))
    | inr q ↦ rw q tt
  ]
  load-Knows (Reader.loading e [] got) w c h =
      (h.0, λ q bit. (sealed-Held e w c h.0 q bit, sym (append-nil got) ∙ h.1 q))
  load-Knows (Reader.loading e (o ∷ os) got) w c h = (
    h.0,
    λ q.
        append_assoc got _ _
        ∙ ap (λ v. got ++ (o, v) ∷ snapshot (w.book e) os)
            ((h.0.1 q).2 o (header-field o (w.book e) (h.2 o (contains-head o os))))
        ∙ h.1 q,
    λ x i. h.2 x (contains-cons x o os i),
  )
  load-Knows (Reader.rechecking e got m) w c h = elim (Bool-cases (w.state == state_committed)) [
    | inl q ↦ rw q (h)
    | inr q ↦ rw q tt
  ]
  load-Knows (Reader.recomparing e got m) w c h = elim (Bool-cases (w.sequence == e)) [
    | inl q ↦ rw q (h.1 (ground arith))
    | inr q ↦ rw q tt
  ]
  load-Knows (Reader.judging e got m) w c h =
      elim (Bool-cases (test_bit m me && test_bit w.mask me)) [
        | inl q ↦ rw q (h (ground arith))
        | inr q ↦ rw q tt
      ]
  load-Knows (Reader.taken e got) w c h = h

  -- What is known does not depend on what the consumer loads next.
  pub Knows-reader :
      (r s : Reader) (w : World) → KnowsAt me r w → KnowsAt me r (record w { reader = s })
  Knows-reader Reader.away s w h = h
  Knows-reader _ s w h = h
