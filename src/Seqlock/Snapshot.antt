-- ===== src/Seqlock/Snapshot.antt =====
-- What the slot holds and what the consumer knows, under every interleaving.
use tenzor_bus.Common.{
  ℕ, ◌≡◌, refl, sym, subst, Bool-cases, inl, inr, true, ◌==◌, List, [], ◌∷◌, arith,
}
use tenzor_bus.Seqlock.{
  Publication, World, Writer, Reader, store_at, begin_at, abort_at, crash_at, stamp_at,
  elsewhere_at,
}
use tenzor_bus.Seqlock.Run
use tenzor_bus.Seqlock.Run.{Event, act, run, fresh, snapshot, give_back_at, retry_at}
use tenzor_bus.Seqlock.Stores.{
  Consistent, store-Consistent, begin-Consistent, abort-Consistent, crash-Consistent,
  stamp-Consistent, elsewhere-Consistent,
}
use tenzor_bus.Seqlock.Seals.{Keeps, store-Keeps}
use tenzor_bus.Seqlock.Changes.{
  begin-Keeps, abort-Keeps, crash-Keeps, stamp-Keeps, elsewhere-Keeps, recount-Keeps,
  withdraw-Keeps, load-Consistent, clear-Consistent, recount-Consistent,
}
use tenzor_bus.Seqlock.Loads.{Knows, KnowsAt, Knows-Keeps, Knows-reader, load-Knows}

pub store-reader : (t : Writer) (w : World) → (store_at t w).reader ≡ w.reader
store-reader (Writer.owning n (o ∷ os)) w = refl
store-reader (Writer.filling n (o ∷ os)) w = refl
store-reader (Writer.copying n (o ∷ os)) w = refl
store-reader _ w = refl

pub begin-reader : (t : Writer) (p : Publication) (w : World) → (begin_at t p w).reader ≡ w.reader
begin-reader Writer.idle p w = ground arith
begin-reader _ p w = refl

pub abort-reader : (t : Writer) (w : World) → (abort_at t w).reader ≡ w.reader
abort-reader Writer.idle w = refl
abort-reader _ w = refl

pub crash-reader : (t : Writer) (w : World) → (crash_at t w).reader ≡ w.reader
crash-reader Writer.idle w = refl
crash-reader _ w = refl

pub stamp-reader : (t : Writer) (v : ℕ) (w : World) → (stamp_at t v w).reader ≡ w.reader
stamp-reader Writer.idle v w = refl
stamp-reader _ v w = refl

pub elsewhere-reader : (t : Writer) (k : ℕ) (w : World) → (elsewhere_at t k w).reader ≡ w.reader
elsewhere-reader (Writer.clearing n true) k w = refl
elsewhere-reader (Writer.uncounting n true) k w = refl
elsewhere-reader (Writer.freeing n true) k w = refl
elsewhere-reader _ k w = refl

module _ (me : ℕ) where
  pub record Safe (w : World) : Type 0 where
    pub consistent : Consistent w
    pub knows : Knows me w

  kept-Safe :
      {w w' : World}
      → Knows me w
      → Consistent w'
      → w'.reader ≡ w.reader
      → ((e : ℕ) → Keeps me e w.writer w w')
      → Safe w'
  kept-Safe {w} {w'} k c q keeps = record {
    consistent = c;
    knows = subst (λ r. KnowsAt me r w') (sym q) (Knows-Keeps me w.reader w w' keeps k);
  }

  -- Whoever loads next knows what the next load needs.
  load-Safe :
      (r : Reader) (w : World) → Consistent w → KnowsAt me r w → Safe (record w { reader = r })
  load-Safe r w c k = record {
    consistent = load-Consistent w.writer r w c;
    knows = Knows-reader me r r w k;
  }

  retry-Knows : (r : Reader) (w : World) → KnowsAt me r w → KnowsAt me (retry_at r) w
  retry-Knows (Reader.taken e got) w k = k
  retry-Knows _ w k = tt

  withdraw-Safe : (j : ℕ) (w : World) → Safe w → Safe (Run.withdraw me j w)
  withdraw-Safe j w s = elim (Bool-cases (j == me)) [
    | inl mine ↦ rw mine s
    | inr other ↦
        kept-Safe s.knows (rw other (clear-Consistent w.writer j w s.consistent)) (rw other refl)
          (λ e. withdraw-Keeps me e j w)
  ]

  give_back-Safe : (r : Reader) (w : World) → w.reader ≡ r → Safe w → Safe (give_back_at me r w)
  give_back-Safe (Reader.taken e got) w q s = record {
    consistent =
        load-Consistent w.writer Reader.away _ (clear-Consistent w.writer me w s.consistent);
    knows = tt;
  }
  give_back-Safe _ w q s = s

  pub act-Safe : (x : Event me) (w : World) → Safe w → Safe (act me x w)
  act-Safe (Event.begin p) w s =
      kept-Safe s.knows (begin-Consistent w.writer p w refl s.consistent)
        (begin-reader w.writer p w) (λ e. begin-Keeps me e w.writer p w refl)
  act-Safe Event.store w s =
      kept-Safe s.knows (store-Consistent w.writer w refl s.consistent) (store-reader w.writer w)
        (λ e. store-Keeps me e w.writer w refl s.consistent)
  act-Safe Event.abort w s =
      kept-Safe s.knows (abort-Consistent w.writer w refl s.consistent) (abort-reader w.writer w)
        (λ e. abort-Keeps me e w.writer w refl)
  act-Safe Event.crash w s =
      kept-Safe s.knows (crash-Consistent w.writer w refl s.consistent) (crash-reader w.writer w)
        (λ e. crash-Keeps me e w.writer w refl)
  act-Safe Event.load w s =
      load-Safe _ w s.consistent (load-Knows me w.reader w s.consistent s.knows)
  act-Safe Event.give_back w s = give_back-Safe w.reader w refl s
  act-Safe Event.retry w s = load-Safe _ w s.consistent (retry-Knows w.reader w s.knows)
  act-Safe (Event.stamp t) w s =
      kept-Safe s.knows (stamp-Consistent w.writer t w refl s.consistent)
        (stamp-reader w.writer t w) (λ e. stamp-Keeps me e w.writer t w refl s.consistent)
  act-Safe (Event.elsewhere k) w s =
      kept-Safe s.knows (elsewhere-Consistent w.writer k w refl s.consistent)
        (elsewhere-reader w.writer k w) (λ e. elsewhere-Keeps me e w.writer k w refl)
  act-Safe (Event.withdraws j) w s = withdraw-Safe j w s
  act-Safe (Event.recount r) w s =
      kept-Safe s.knows (recount-Consistent w.writer r w s.consistent) refl
        (λ e. recount-Keeps me e r w)

  pub run-Safe : (xs : List (Event me)) (w : World) → Safe w → Safe (run me xs w)
  unfolding run
  run-Safe [] w s = s
  run-Safe (x ∷ xs) w s = run-Safe xs (act me x w) (act-Safe x w s)

  fresh-Safe : Safe fresh
  fresh-Safe = record { consistent = (omega arith, λ s. absurd (omega arith)); knows = tt }

  pub run-fresh-Safe : (xs : List (Event me)) → Safe (run me xs fresh)
  run-fresh-Safe xs = run-Safe xs fresh fresh-Safe
