-- ===== src/Seqlock/Seals.antt =====
-- What a consumer relies on while others store: a publication that it has found committed stays
-- whole for as long as the slot shows its number, and in place while the consumer's bit is set.
use tenzor_bus.Common.{
  ℕ, ◌≤◌, ◌<◌, ◌≡◌, ◌≢◌, refl, sym, subst, ◌∙◌, ap, ◌⊎◌, inl, inr, Bool, true, false, Bool-cases,
  List, [], ◌∷◌, arith,
}
use tenzor_bus.Common.Bits.{test_bit}
use tenzor_bus.Proto.{state_committed}
use tenzor_bus.Seqlock.{readers_word, Publication, World, Writer, store_at}
use tenzor_bus.Seqlock.Fields.{contains, fields, Whole, readers_apart, put-Whole, contains-head}
use tenzor_bus.Seqlock.Stores.{ConsistentAt, NoFields}

-- The writer has nothing to do with the number that the slot shows, except if it is storing its
-- header, under a number that is not yet used up.
abbrev pub is_settled : Writer → Bool
is_settled (Writer.copying n os) = false
is_settled (Writer.committing n) = false
is_settled (Writer.clearing n false) = false
is_settled (Writer.uncounting n false) = false
is_settled (Writer.freeing n false) = false
is_settled (Writer.returning n) = false
is_settled _ = true

abbrev pub is_idle : Writer → Bool
is_idle Writer.idle = true
is_idle _ = false

-- Publication `e` was committed: if the slot still shows its number, it is whole.
abbrev SealAt : Writer → ℕ → World → Type 0
SealAt t e w = (is_settled t ≡ true) × ((w.state ≡ state_committed) ⊎ (w.mask ≡ 0)) × Whole e w

abbrev pub SealedAt : Writer → ℕ → World → Type 0
SealedAt t e w = (e < w.next) × (w.sequence ≡ e → SealAt t e w)

-- It is in the slot, and its consumer's bit is set.
abbrev pub HeldAt : ℕ → Writer → ℕ → World → Type 0
HeldAt me t e w =
    (w.sequence ≡ e)
    × (e < w.next)
    × (is_idle t ≡ true)
    × (w.state ≡ state_committed)
    × (test_bit w.mask me ≡ true)
    × Whole e w

-- A word of a list without fields is no field.
no_field :
    (o : ℕ) (os : List ℕ) → NoFields (o ∷ os) → (p : Publication) → contains o (fields p) ≡ false
no_field o os none p = elim (Bool-cases (contains o (fields p))) [
  | inl h ↦ cc (none o p h, contains-head o os)
  | inr h ↦ h
]

module _ (me e : ℕ) where
  -- What an operation of another thread, with the next store `t`, keeps for a consumer.
  pub record Keeps (t : Writer) (w w' : World) : Type 0 where
    pub seals : SealedAt t e w → SealedAt w'.writer e w'
    pub same : SealedAt t e w → w'.sequence ≡ e → (w.sequence ≡ e) × (w'.book e ≡ w.book e)
    pub held : HeldAt me t e w → HeldAt me w'.writer e w' × (w'.book e ≡ w.book e)
    pub grows : e ≤ w.sequence → e ≤ w'.sequence

  pub stay-Keeps : (t : Writer) (w : World) → w.writer ≡ t → Keeps t w w
  stay-Keeps t w q = record {
    seals = λ s. subst (λ u. SealedAt u e w) (sym q) s;
    same = λ s h. (h, refl);
    held = λ h. (subst (λ u. HeldAt me u e w) (sym q) h, refl);
    grows = λ h. h;
  }

  -- An operation of a busy writer keeps what it keeps of the seal, if the number stays.
  pub quiet-Keeps :
      (t : Writer) (w w' : World)
      → is_idle t ≡ false
      → w'.sequence ≡ w.sequence
      → w'.book ≡ w.book
      → (SealedAt t e w → e < w'.next)
      → (e < w.next → w.sequence ≡ e → SealAt t e w → SealAt w'.writer e w')
      → Keeps t w w'
  quiet-Keeps t w w' busy q b later seal = record {
    seals = λ s. (later s, λ h. seal s.0 (sym q ∙ h) (s.1 (sym q ∙ h)));
    same = λ s h. (sym q ∙ h, ap (λ (f : ℕ → Publication). f e) b);
    held = λ h. cc;
    grows = λ h. rw q h;
  }

  pub store-Keeps :
      (t : Writer) (w : World) → w.writer ≡ t → ConsistentAt t w → Keeps t w (store_at t w)
  store-Keeps Writer.idle w q c = stay-Keeps _ w q
  store-Keeps (Writer.marking n) w q c =
      quiet-Keeps _ w _ refl refl refl (λ h. h.0)
        (λ lt h s. (refl, elim s.1 [ inl p ↦ inr (c.2 p) | inr p ↦ inr p ], s.2))
  store-Keeps (Writer.owning n []) w q c = quiet-Keeps _ w _ refl refl refl (λ h. h.0) (λ lt h s. s)
  store-Keeps (Writer.owning n (o ∷ os)) w q c =
      quiet-Keeps _ w _ refl refl refl (λ h. h.0)
        (λ lt h s. (refl, s.1, put-Whole e o ((w.book n).word o) w (no_field o os c.3) s.2))
  store-Keeps (Writer.numbering n) w q c = record {
    seals = λ s. (s.0, λ h. absurd (omega arith));
    same = λ s h. absurd (omega arith);
    held = λ h. cc;
    grows = λ h. omega arith;
  }
  store-Keeps (Writer.filling n []) w q c =
      quiet-Keeps _ w _ refl refl refl (λ h. h.0) (λ lt h s. absurd (omega arith))
  store-Keeps (Writer.filling n (o ∷ os)) w q c =
      quiet-Keeps _ w _ refl refl refl (λ h. h.0) (λ lt h s. absurd (omega arith))
  store-Keeps (Writer.masking n) w q c =
      quiet-Keeps _ w _ refl refl refl (λ h. h.0) (λ lt h s. absurd (omega arith))
  store-Keeps (Writer.counting n) w q c =
      quiet-Keeps _ w _ refl refl refl (λ h. h.0) (λ lt h s. absurd (omega arith))
  store-Keeps (Writer.advancing n) w q c =
      quiet-Keeps _ w _ refl refl refl (λ h. omega arith) (λ lt h s. absurd (omega arith))
  store-Keeps (Writer.copying n []) w q c =
      quiet-Keeps _ w _ refl refl refl (λ h. h.0) (λ lt h s. cc)
  store-Keeps (Writer.copying n (o ∷ os)) w q c =
      quiet-Keeps _ w _ refl refl refl (λ h. h.0) (λ lt h s. cc)
  store-Keeps (Writer.committing n) w q c =
      quiet-Keeps _ w _ refl refl refl (λ h. h.0) (λ lt h s. cc)
  store-Keeps (Writer.clearing n true) w q c =
      quiet-Keeps _ w _ refl refl refl (λ h. h.0) (λ lt h s. (refl, inr refl, s.2))
  store-Keeps (Writer.clearing n false) w q c =
      quiet-Keeps _ w _ refl refl refl (λ h. h.0) (λ lt h s. cc)
  store-Keeps (Writer.uncounting n true) w q c =
      quiet-Keeps _ w _ refl refl refl (λ h. h.0)
        (λ lt h s. (refl, s.1, put-Whole e readers_word 0 w readers_apart s.2))
  store-Keeps (Writer.uncounting n false) w q c =
      quiet-Keeps _ w _ refl refl refl (λ h. h.0) (λ lt h s. cc)
  store-Keeps (Writer.freeing n true) w q c =
      quiet-Keeps _ w _ refl refl refl (λ h. h.0) (λ lt h s. (refl, inr (ground arith), s.2))
  store-Keeps (Writer.freeing n false) w q c =
      quiet-Keeps _ w _ refl refl refl (λ h. h.0) (λ lt h s. cc)
  store-Keeps (Writer.returning n) w q c =
      quiet-Keeps _ w _ refl refl refl
        (λ s. let other : w.sequence ≢ e = λ h. cc (s.1 h).0 in ground arith) (λ lt h s. cc)
