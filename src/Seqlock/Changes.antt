-- ===== src/Seqlock/Changes.antt =====
-- The other operations on the slot, seen from a consumer: the start and the end of a reservation,
-- deaths, and what other consumers and publications in other slots change.
use tenzor_bus.Common.{
  ℕ, ◌+◌, ◌≡◌, refl, sym, subst, ◌∙◌, ap, inl, inr, true, false, Bool-cases, ◌==◌, arith, update,
}
use tenzor_bus.Common.Bits.{
  clear_bit_unset, mask-ne-zero, clear_bit, test_bit-clear_bit, test_bit-zero,
}
use tenzor_bus.Seqlock.{
  readers_word, Publication, World, Writer, Reader, put, begin_at, abort_at, crash_at, stamp_at,
  stamped, elsewhere_at, may_begin,
}
use tenzor_bus.Seqlock.Run.{withdraw}
use tenzor_bus.Seqlock.Fields.{Whole-book, readers_apart, put-Whole}
use tenzor_bus.Seqlock.Stores.{ConsistentAt, put-Done}
use tenzor_bus.Seqlock.Seals.{SealedAt, HeldAt, Keeps, is_settled, is_idle, stay-Keeps, quiet-Keeps}

-- A load changes nothing of the slot.
pub load-Consistent :
    (t : Writer) (r : Reader) (w : World)
    → ConsistentAt t w
    → ConsistentAt t (record w { reader = r })
load-Consistent (Writer.clearing n true) r w c = c
load-Consistent (Writer.clearing n false) r w c = c
load-Consistent (Writer.uncounting n true) r w c = c
load-Consistent (Writer.uncounting n false) r w c = c
load-Consistent (Writer.freeing n true) r w c = c
load-Consistent (Writer.freeing n false) r w c = c
load-Consistent _ r w c = c

pub clear_bit-zero : {m : ℕ} (j : ℕ) → m ≡ 0 → clear_bit m j ≡ 0
clear_bit-zero j p = ap (λ m. clear_bit m j) p ∙ clear_bit_unset 0 j (test_bit-zero j)

-- The mask may lose bits.
pub clear-Consistent :
    (t : Writer) (j : ℕ) (w : World)
    → ConsistentAt t w
    → ConsistentAt t (record w { mask = clear_bit w.mask j })
clear-Consistent (Writer.marking n) j w c = (c.0, c.1, λ s. clear_bit-zero j (c.2 s), c.3)
clear-Consistent (Writer.clearing n true) j w c = c
clear-Consistent (Writer.clearing n false) j w c = c
clear-Consistent (Writer.uncounting n true) j w c = c
clear-Consistent (Writer.uncounting n false) j w c = c
clear-Consistent (Writer.freeing n true) j w c = c
clear-Consistent (Writer.freeing n false) j w c = c
clear-Consistent _ j w c = c

-- The count of readers may change.
pub recount-Consistent :
    (t : Writer) (r : ℕ) (w : World) → ConsistentAt t w → ConsistentAt t (put readers_word r w)
recount-Consistent Writer.idle r w c =
    (c.0, λ s. ((c.1 s).0, put-Whole _ readers_word r w readers_apart (c.1 s).1))
recount-Consistent (Writer.marking n) r w c =
    (c.0, c.1, c.2, λ s. ((c.3 s).0, put-Whole _ readers_word r w readers_apart (c.3 s).1))
recount-Consistent (Writer.filling n os) r w c =
    (c.0, put-Done n readers_word r _ w readers_apart c.1)
recount-Consistent (Writer.masking n) r w c = (c.0, put-Done n readers_word r _ w readers_apart c.1)
recount-Consistent (Writer.counting n) r w c =
    (c.0, put-Done n readers_word r _ w readers_apart c.1)
recount-Consistent (Writer.advancing n) r w c =
    (c.0, put-Done n readers_word r _ w readers_apart c.1)
recount-Consistent (Writer.copying n os) r w c =
    (c.0, put-Done n readers_word r _ w readers_apart c.1)
recount-Consistent (Writer.committing n) r w c =
    (c.0, put-Whole n readers_word r w readers_apart c.1)
recount-Consistent (Writer.clearing n true) r w c = c
recount-Consistent (Writer.clearing n false) r w c = c
recount-Consistent (Writer.uncounting n true) r w c = c
recount-Consistent (Writer.uncounting n false) r w c = c
recount-Consistent (Writer.freeing n true) r w c = c
recount-Consistent (Writer.freeing n false) r w c = c
recount-Consistent _ r w c = c

module _ (me e : ℕ) where
  pub begin-Keeps :
      (t : Writer) (p : Publication) (w : World) → w.writer ≡ t → Keeps me e t w (begin_at t p w)
  begin-Keeps Writer.idle p w q = elim (Bool-cases (may_begin w)) [
    | inl free ↦ rw free (record {
      seals = λ s. (
        s.0,
        λ h. (
          refl,
          (s.1 h).1,
          Whole-book e w (update w.book w.next p) (let lt = s.0 in ground arith) (s.1 h).2,
        ),
      );
      same = λ s h. (h, let lt = s.0 in ground arith);
      held = λ h. absurd (let n = mask-ne-zero w.mask me h.4 in let a = h.3 in ground arith);
      grows = λ h. h;
    })
    | inr taken ↦ rw taken (stay-Keeps me e _ w q)
  ]
  begin-Keeps _ p w q = stay-Keeps me e _ w q

  pub abort-Keeps : (t : Writer) (w : World) → w.writer ≡ t → Keeps me e t w (abort_at t w)
  abort-Keeps (Writer.copying n os) w q =
      quiet-Keeps me e _ w _ refl refl refl (λ h. h.0) (λ lt h s. cc)
  abort-Keeps (Writer.committing n) w q =
      quiet-Keeps me e _ w _ refl refl refl (λ h. h.0) (λ lt h s. cc)
  abort-Keeps _ w q = stay-Keeps me e _ w q

  pub crash-Keeps : (t : Writer) (w : World) → w.writer ≡ t → Keeps me e t w (crash_at t w)
  crash-Keeps Writer.idle w q = stay-Keeps me e _ w q
  crash-Keeps (Writer.marking n) w q =
      quiet-Keeps me e _ w _ refl refl refl (λ h. h.0) (λ lt h s. s)
  crash-Keeps (Writer.returning n) w q =
      quiet-Keeps me e _ w _ refl refl refl (λ h. h.0) (λ lt h s. cc)
  crash-Keeps (Writer.clearing n false) w q =
      quiet-Keeps me e _ w _ refl refl refl (λ h. h.0) (λ lt h s. cc)
  crash-Keeps (Writer.uncounting n false) w q =
      quiet-Keeps me e _ w _ refl refl refl (λ h. h.0) (λ lt h s. cc)
  crash-Keeps (Writer.freeing n false) w q =
      quiet-Keeps me e _ w _ refl refl refl (λ h. h.0) (λ lt h s. cc)
  crash-Keeps (Writer.copying n os) w q =
      quiet-Keeps me e _ w _ refl refl refl (λ h. h.0) (λ lt h s. cc)
  crash-Keeps (Writer.committing n) w q =
      quiet-Keeps me e _ w _ refl refl refl (λ h. h.0) (λ lt h s. cc)
  crash-Keeps (Writer.clearing n true) w q =
      quiet-Keeps me e _ w _ refl refl refl (λ h. h.0) (λ lt h s. s)
  crash-Keeps (Writer.uncounting n true) w q =
      quiet-Keeps me e _ w _ refl refl refl (λ h. h.0) (λ lt h s. s)
  crash-Keeps (Writer.freeing n true) w q =
      quiet-Keeps me e _ w _ refl refl refl (λ h. h.0) (λ lt h s. s)
  crash-Keeps _ w q = quiet-Keeps me e _ w _ refl refl refl (λ h. h.0) (λ lt h s. s)

  stamped-Keeps :
      (t : Writer) (n v : ℕ) (w : World)
      → w.writer ≡ t
      → is_settled t ≡ false
      → is_idle t ≡ false
      → w.sequence ≡ n
      → Keeps me e t w (stamped n v w)
  stamped-Keeps t n v w q busy at_work k = record {
    seals = λ s. (s.0, λ h. cc (s.1 h).0);
    same = λ s h. cc (s.1 h).0;
    held = λ h. cc;
    grows = λ h. h;
  }

  pub stamp-Keeps :
      (t : Writer) (v : ℕ) (w : World)
      → w.writer ≡ t
      → ConsistentAt t w
      → Keeps me e t w (stamp_at t v w)
  stamp-Keeps (Writer.copying n os) v w q c = stamped-Keeps _ n v w q refl refl c.0.1
  stamp-Keeps (Writer.committing n) v w q c = stamped-Keeps _ n v w q refl refl c.0.1
  stamp-Keeps _ v w q c = stay-Keeps me e _ w q

  -- The counter may grow at any time.
  later-Keeps :
      (t : Writer) (k : ℕ) (w : World)
      → w.writer ≡ t
      → Keeps me e t w (record w { next = w.next + k })
  later-Keeps t k w q = record {
    seals = λ s.
        subst (λ u. SealedAt u e (record w { next = w.next + k })) (sym q)
          (let lt = s.0 in omega arith, s.1);
    same = λ s h. (h, refl);
    held = λ h. (
      subst (λ u. HeldAt me u e (record w { next = w.next + k })) (sym q)
          (h.0, let lt = h.1 in omega arith, h.2, h.3, h.4, h.5),
      refl,
    );
    grows = λ h. h;
  }

  pub elsewhere-Keeps :
      (t : Writer) (k : ℕ) (w : World) → w.writer ≡ t → Keeps me e t w (elsewhere_at t k w)
  elsewhere-Keeps Writer.idle k w q = later-Keeps _ k w q
  elsewhere-Keeps (Writer.clearing n true) k w q = later-Keeps _ k w q
  elsewhere-Keeps (Writer.uncounting n true) k w q = later-Keeps _ k w q
  elsewhere-Keeps (Writer.freeing n true) k w q = later-Keeps _ k w q
  elsewhere-Keeps _ k w q = stay-Keeps me e _ w q

  pub recount-Keeps : (r : ℕ) (w : World) → Keeps me e w.writer w (put readers_word r w)
  recount-Keeps r w = record {
    seals = λ s. (
      s.0,
      λ h. let (a, b, whole) = s.1 h in (a, b, put-Whole e readers_word r w readers_apart whole),
    );
    same = λ s h. (h, refl);
    held = λ h. ((h.0, h.1, h.2, h.3, h.4, put-Whole e readers_word r w readers_apart h.5), refl);
    grows = λ h. h;
  }

  pub withdraw-Keeps : (j : ℕ) (w : World) → Keeps me e w.writer w (withdraw me j w)
  withdraw-Keeps j w = elim (Bool-cases (j == me)) [
    | inl mine ↦ rw mine (stay-Keeps me e _ w refl)
    | inr other ↦ rw other (record {
      seals = λ s. (
        s.0,
        λ h.
            let (a, b, whole) = s.1 h in
            (a, elim b [ inl p ↦ inl p | inr p ↦ inr (clear_bit-zero j p) ], whole),
      );
      same = λ s h. (h, refl);
      held = λ h. ((h.0, h.1, h.2, h.3, test_bit-clear_bit w.mask j me ∙ rw other h.4, h.5), refl);
      grows = λ h. h;
    })
  ]
