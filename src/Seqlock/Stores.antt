-- ===== src/Seqlock/Stores.antt =====
-- What the slot holds at each of the producer's stores.
use tenzor_bus.Common.{
  ℕ, ◌≤◌, ◌<◌, ◌≡◌, refl, sym, subst, ◌∙◌, ap, Bool-cases, inl, inr, true, false, List, [], ◌∷◌,
  ◌++◌, arith, update,
}
use tenzor_bus.Proto.{state_free, state_committed, state_writing}
use tenzor_bus.Seqlock.{
  Publication, World, Writer, header, owners, payload_words, put, store_at, begin_at, abort_at,
  crash_at, stamp_at, stamped, may_begin, elsewhere_at,
}
use tenzor_bus.Seqlock.Fields.{
  contains, fields, Whole, Done, Done-put, readers_apart, Whole-book, contains-nil, contains-tail,
  not_a_field,
}

-- A slot between two publications: what is committed is whole, and its number is used up.
abbrev Settled : World → Type 0
Settled w = w.state ≡ state_committed → (w.sequence < w.next) × Whole w.sequence w

-- None of the words is a field.
abbrev pub NoFields : List ℕ → Type 0
NoFields os = (o : ℕ) (p : Publication) → contains o (fields p) ≡ true → contains o os ≡ false

-- A store under way has the slot in WRITING, under its number `n`, which is the next one.
abbrev InHeader : ℕ → World → Type 0
InHeader n w = (n ≡ w.next) × (w.sequence ≡ n) × (w.state ≡ state_writing)

abbrev InPayload : ℕ → World → Type 0
InPayload n w = (n < w.next) × (w.sequence ≡ n) × (w.state ≡ state_writing)

abbrev pub ConsistentAt : Writer → World → Type 0
ConsistentAt Writer.idle w = (w.sequence ≤ w.next) × Settled w
ConsistentAt (Writer.marking n) w =
    (n ≡ w.next) × (w.sequence ≤ n) × (w.state ≡ state_committed → w.mask ≡ 0) × Settled w
ConsistentAt (Writer.owning n os) w =
    (n ≡ w.next) × (w.sequence ≤ n) × (w.state ≡ state_writing) × NoFields os
ConsistentAt (Writer.numbering n) w = (n ≡ w.next) × (w.sequence ≤ n) × (w.state ≡ state_writing)
ConsistentAt (Writer.filling n os) w = InHeader n w × Done n (os ++ payload_words (w.book n)) w
ConsistentAt (Writer.masking n) w = InHeader n w × Done n (payload_words (w.book n)) w
ConsistentAt (Writer.counting n) w = InHeader n w × Done n (payload_words (w.book n)) w
ConsistentAt (Writer.advancing n) w = InHeader n w × Done n (payload_words (w.book n)) w
ConsistentAt (Writer.copying n os) w = InPayload n w × Done n os w
ConsistentAt (Writer.committing n) w = InPayload n w × Whole n w
ConsistentAt (Writer.clearing n false) w = InPayload n w
ConsistentAt (Writer.uncounting n false) w = InPayload n w
ConsistentAt (Writer.freeing n false) w = InPayload n w
ConsistentAt (Writer.clearing n true) w = (w.sequence ≤ w.next) × (w.state ≡ state_writing)
ConsistentAt (Writer.uncounting n true) w = (w.sequence ≤ w.next) × (w.state ≡ state_writing)
ConsistentAt (Writer.freeing n true) w = (w.sequence ≤ w.next) × (w.state ≡ state_writing)
ConsistentAt (Writer.returning n) w = (n < w.next) × (w.sequence ≡ n) × (w.state ≡ state_free)

abbrev pub Consistent : World → Type 0
Consistent w = ConsistentAt w.writer w

owners-NoFields : NoFields owners
unfolding contains
owners-NoFields o p h =
    ground (arith, not_a_field 104 p (omega arith) refl, not_a_field 120 p (omega arith) refl)

header-Done : (n : ℕ) (w : World) → Done n (header ++ payload_words (w.book n)) w
header-Done n w o h e = cc

-- A word that is no field may change.
pub put-Done :
    (n o v : ℕ) (os : List ℕ) (w : World)
    → ((p : Publication) → contains o (fields p) ≡ false)
    → Done n os w
    → Done n os (put o v w)
put-Done n o v os w apart d x h e = ground (arith, d x h e, apart (w.book n))

stay : (t : Writer) (w : World) → w.writer ≡ t → ConsistentAt t w → Consistent w
stay t w e c = subst (λ u. ConsistentAt u w) (sym e) c

pub store-Consistent :
    (t : Writer) (w : World) → w.writer ≡ t → ConsistentAt t w → Consistent (store_at t w)
store-Consistent Writer.idle w e c = stay _ w e c
store-Consistent (Writer.marking n) w e c = (c.0, c.1, refl, owners-NoFields)
store-Consistent (Writer.owning n []) w e c = (c.0, c.1, c.2)
store-Consistent (Writer.owning n (o ∷ os)) w e c =
    (c.0, c.1, c.2, λ x p h. contains-tail x o os (c.3 x p h))
store-Consistent (Writer.numbering n) w e c =
    ((c.0, refl, c.2), header-Done n (record w { sequence = n }))
store-Consistent (Writer.filling n []) w e c = c
store-Consistent (Writer.filling n (o ∷ os)) w e c =
    (c.0, Done-put n o (os ++ payload_words (w.book n)) w c.1)
store-Consistent (Writer.masking n) w e c = c
store-Consistent (Writer.counting n) w e c = (c.0, put-Done n 34 _ _ w readers_apart c.1)
store-Consistent (Writer.advancing n) w e c = ((omega arith, c.0.1, c.0.2), c.1)
store-Consistent (Writer.copying n []) w e c = (c.0, λ o h. c.1 o h (contains-nil o))
store-Consistent (Writer.copying n (o ∷ os)) w e c = (c.0, Done-put n o os w c.1)
store-Consistent (Writer.committing n) w e c =
    (omega arith, λ s. (omega arith, subst (λ k. Whole k w) (sym c.0.1) c.1))
store-Consistent (Writer.clearing n true) w e c = c
store-Consistent (Writer.clearing n false) w e c = c
store-Consistent (Writer.uncounting n true) w e c = c
store-Consistent (Writer.uncounting n false) w e c = c
store-Consistent (Writer.freeing n true) w e c = (c.0, λ s. absurd (omega arith))
store-Consistent (Writer.freeing n false) w e c = (c.0, c.1, refl)
store-Consistent (Writer.returning n) w e c = (ground arith, λ s. absurd (omega arith))

pub begin-Consistent :
    (t : Writer) (p : Publication) (w : World)
    → w.writer ≡ t
    → ConsistentAt t w
    → Consistent (begin_at t p w)
begin-Consistent Writer.idle p w e c = elim (Bool-cases (may_begin w)) [
  | inl free ↦ rw free (
    refl,
    c.0,
    λ s. ground (arith, s),
    λ s.
        let (lt, whole) = c.1 s in
        (lt, Whole-book w.sequence w (update w.book w.next p) (ground arith) whole),
  )
  | inr held ↦ rw held (stay _ w e c)
]
begin-Consistent _ p w e c = stay _ w e c

pub abort-Consistent :
    (t : Writer) (w : World) → w.writer ≡ t → ConsistentAt t w → Consistent (abort_at t w)
abort-Consistent (Writer.copying n os) w e c = c.0
abort-Consistent (Writer.committing n) w e c = c.0
abort-Consistent _ w e c = stay _ w e c

pub crash-Consistent :
    (t : Writer) (w : World) → w.writer ≡ t → ConsistentAt t w → Consistent (crash_at t w)
crash-Consistent Writer.idle w e c = stay _ w e c
crash-Consistent (Writer.marking n) w e c = (omega arith, c.3)
crash-Consistent (Writer.returning n) w e c = (omega arith, λ s. absurd (omega arith))
crash-Consistent (Writer.owning n os) w e c = (omega arith, c.2)
crash-Consistent (Writer.numbering n) w e c = (omega arith, c.2)
crash-Consistent (Writer.clearing n true) w e c = c
crash-Consistent (Writer.uncounting n true) w e c = c
crash-Consistent (Writer.freeing n true) w e c = c
crash-Consistent (Writer.clearing n false) w e c = (omega arith, c.2)
crash-Consistent (Writer.uncounting n false) w e c = (omega arith, c.2)
crash-Consistent (Writer.freeing n false) w e c = (omega arith, c.2)
crash-Consistent _ w e c = (omega arith, c.0.2)

stamped-Done : (n t : ℕ) (os : List ℕ) (w : World) → Done n os w → Done n os (stamped n t w)
stamped-Done n t os w d o h f =
    let p = w.book n in
    let q : Publication = record { word = update p.word 16 t; mask = p.mask } in
    let b : (stamped n t w).book n ≡ q = ground arith in
    let old : w.word o ≡ p.word o = d o (subst (λ r. contains o (fields r) ≡ true) b h) f in
    let new : update w.word 16 t o ≡ update p.word 16 t o = ground arith in
    new ∙ sym (ap (λ (r : Publication). r.word o) b)

pub stamp-Consistent :
    (t : Writer) (v : ℕ) (w : World) → w.writer ≡ t → ConsistentAt t w → Consistent (stamp_at t v w)
stamp-Consistent (Writer.copying n os) v w e c = rw e (c.0, stamped-Done n v os w c.1)
stamp-Consistent (Writer.committing n) v w e c =
    rw e (c.0, λ o h. stamped-Done n v [] w (λ x g _. c.1 x g) o h (contains-nil o))
stamp-Consistent _ v w e c = stay _ w e c

pub elsewhere-Consistent :
    (t : Writer) (k : ℕ) (w : World)
    → w.writer ≡ t
    → ConsistentAt t w
    → Consistent (elsewhere_at t k w)
elsewhere-Consistent Writer.idle k w e c =
    rw e (omega arith, λ s. let (lt, whole) = c.1 s in (omega arith, whole))
elsewhere-Consistent (Writer.clearing n true) k w e c = rw e (omega arith, c.1)
elsewhere-Consistent (Writer.uncounting n true) k w e c = rw e (omega arith, c.1)
elsewhere-Consistent (Writer.freeing n true) k w e c = rw e (omega arith, c.1)
elsewhere-Consistent _ k w e c = stay _ w e c
