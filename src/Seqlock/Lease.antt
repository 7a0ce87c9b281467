-- ===== src/Seqlock/Lease.antt =====
-- What a consumer takes, and what its lease shows, under every interleaving.
use tenzor_bus.Common.{
  ℕ, ◌+◌, ◌<◌, ◌≡◌, refl, subst, ◌∙◌, ap, Bool, true, false, List, [], ◌∷◌, arith,
}
use tenzor_bus.Common.Bits.{test_bit}
use tenzor_bus.Proto.{state_committed, slot_header_size}
use tenzor_bus.Seqlock.{World, Reader, loads, header, nbytes_word}
use tenzor_bus.Seqlock.Run
use tenzor_bus.Seqlock.Run.{Event, act, run, fresh, snapshot, give_back_at, retry_at}
use tenzor_bus.Seqlock.Fields.{contains, fields, payload-field, header-field}
use tenzor_bus.Seqlock.Seals.{store-Keeps}
use tenzor_bus.Seqlock.Changes.{
  begin-Keeps, abort-Keeps, crash-Keeps, stamp-Keeps, elsewhere-Keeps, withdraw-Keeps,
}
use tenzor_bus.Seqlock.Loads.{Held, Exact, KnowsAt}
use tenzor_bus.Seqlock.Snapshot.{
  Safe, act-Safe, run-Safe, run-fresh-Safe, store-reader, begin-reader, abort-reader, crash-reader,
  stamp-reader, elsewhere-reader,
}

module _ (me : ℕ) where
  -- A lease that is not given back goes on.
  abbrev pub is_kept : List (Event me) → Bool
  is_kept [] = true
  is_kept (Event.give_back ∷ xs) = false
  is_kept (_ ∷ xs) = is_kept xs

  taken_stays :
      (x : Event me) (w : World) (e : ℕ) (got : List (ℕ × ℕ))
      → is_kept (x ∷ []) ≡ true
      → w.reader ≡ Reader.taken e got
      → (act me x w).reader ≡ Reader.taken e got
  taken_stays (Event.begin p) w e got k q = begin-reader w.writer p w ∙ q
  taken_stays Event.store w e got k q = store-reader w.writer w ∙ q
  taken_stays Event.abort w e got k q = abort-reader w.writer w ∙ q
  taken_stays Event.crash w e got k q = crash-reader w.writer w ∙ q
  taken_stays Event.load w e got k q = ap (λ r. Run.load_at me r w) q
  taken_stays Event.give_back w e got k q = cc
  taken_stays Event.retry w e got k q = ap retry_at q
  taken_stays (Event.stamp t) w e got k q = stamp-reader w.writer t w ∙ q
  taken_stays (Event.elsewhere n) w e got k q = elsewhere-reader w.writer n w ∙ q
  taken_stays (Event.withdraws j) w e got k q = ground arith
  taken_stays (Event.recount r) w e got k q = q

  taken_book :
      (x : Event me) (w : World) (e : ℕ)
      → is_kept (x ∷ []) ≡ true
      → Safe me w
      → Held me e w
      → (act me x w).book e ≡ w.book e
  taken_book (Event.begin p) w e k s h = ((begin-Keeps me e w.writer p w refl).held h).1
  taken_book Event.store w e k s h = ((store-Keeps me e w.writer w refl s.consistent).held h).1
  taken_book Event.abort w e k s h = ((abort-Keeps me e w.writer w refl).held h).1
  taken_book Event.crash w e k s h = ((crash-Keeps me e w.writer w refl).held h).1
  taken_book Event.load w e k s h = refl
  taken_book Event.give_back w e k s h = cc
  taken_book Event.retry w e k s h = refl
  taken_book (Event.stamp t) w e k s h =
      ((stamp-Keeps me e w.writer t w refl s.consistent).held h).1
  taken_book (Event.elsewhere n) w e k s h = ((elsewhere-Keeps me e w.writer n w refl).held h).1
  taken_book (Event.withdraws j) w e k s h = ((withdraw-Keeps me e j w).held h).1
  taken_book (Event.recount r) w e k s h = refl

  Taken-Knows :
      (w : World) (e : ℕ) (got : List (ℕ × ℕ))
      → Safe me w
      → w.reader ≡ Reader.taken e got
      → Held me e w × Exact e got w
  Taken-Knows w e got s q = subst (λ r. KnowsAt me r w) q s.knows

  is_kept-head :
      (x : Event me) (xs : List (Event me)) → is_kept (x ∷ xs) ≡ true → is_kept (x ∷ []) ≡ true
  is_kept-head Event.give_back xs k = k
  is_kept-head _ xs k = refl

  is_kept-tail : (x : Event me) (xs : List (Event me)) → is_kept (x ∷ xs) ≡ true → is_kept xs ≡ true
  is_kept-tail Event.give_back xs k = cc
  is_kept-tail _ xs k = k

  lease_lasts :
      (ys : List (Event me)) (w : World) (e : ℕ) (got : List (ℕ × ℕ))
      → Safe me w
      → w.reader ≡ Reader.taken e got
      → is_kept ys ≡ true
      → ((run me ys w).reader ≡ Reader.taken e got) × ((run me ys w).book e ≡ w.book e)
  unfolding run
  lease_lasts [] w e got s q k = (q, refl)
  lease_lasts (y ∷ ys) w e got s q k =
      let now = is_kept-head y ys k in
      let (r, b) =
        lease_lasts ys (act me y w) e got (act-Safe me y w s) (taken_stays y w e got now q)
          (is_kept-tail y ys k) in
      (r, b ∙ taken_book y w e now s (Taken-Knows w e got s q).0)

  -- Whatever the interleaving of single stores and loads, deaths, aborts and reaping included, what
  -- a consumer takes as publication `e` is the header of publication `e`, word for word: never a
  -- mixture of two.
  pub taken_is_snapshot :
      (xs : List (Event me)) (e : ℕ) (got : List (ℕ × ℕ))
      → (run me xs fresh).reader ≡ Reader.taken e got
      → got ≡ snapshot ((run me xs fresh).book e) loads
  taken_is_snapshot xs e got q = (Taken-Knows _ e got (run-fresh-Safe me xs) q).1

  -- From the take until the consumer gives the lease back, whatever the others do meanwhile, the
  -- slot is committed under the leased number, has the consumer's bit, and shows in its header and
  -- in each of its bytes the publication that was there at the take.
  pub lease_in_place :
      (xs ys : List (Event me)) (e : ℕ) (got : List (ℕ × ℕ))
      → (run me xs fresh).reader ≡ Reader.taken e got
      → is_kept ys ≡ true
      → let p = (run me xs fresh).book e in
        let w = run me ys (run me xs fresh) in
        (w.state ≡ state_committed)
        × (w.sequence ≡ e)
        × (test_bit w.mask me ≡ true)
        × ((o : ℕ) → contains o header ≡ true → w.word o ≡ p.word o)
        × ((i : ℕ)
            → i < p.word nbytes_word
            → w.word (slot_header_size + i) ≡ p.word (slot_header_size + i))
  lease_in_place xs ys e got q k =
      let s = run-fresh-Safe me xs in
      let (r, b) = lease_lasts ys (run me xs fresh) e got s q k in
      let (held, _) = Taken-Knows _ e got (run-Safe me ys (run me xs fresh) s) r in
      let p = (run me xs fresh).book e in
      let w = run me ys (run me xs fresh) in
      let whole : (o : ℕ) → contains o (fields p) ≡ true → w.word o ≡ p.word o =
        subst (λ u. (o : ℕ) → contains o (fields u) ≡ true → w.word o ≡ u.word o) b held.5 in
      (
        held.3,
        held.0,
        held.4,
        λ o h. whole o (header-field o p h),
        λ i h. whole (slot_header_size + i) (payload-field i p h),
      )
