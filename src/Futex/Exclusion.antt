-- ===== src/Futex/Exclusion.antt =====
-- Mutual exclusion of the registry lock.
use native.Mathlib.Decide.{ℕ_discrete}
use tenzor_bus.Common.{
  ℕ, ◌⊎◌, inl, inr, Bool-cases, ◌==◌, not, ◌&&◌, subst, ◌≡◌, ◌≢◌, refl, Bool, true, false, List, [],
  ◌∷◌, arith,
}
use tenzor_bus.Mem.{unlocked}
use tenzor_bus.Futex.{
  judging, reading_token, Words, Place, Lock, act, advance, run, fresh, holds, outside, claiming,
  naming, stamping, inside, swapping, waiting, checking, reading, reading_token, judging, stealing,
  stealing_token, stealing_word, leaving, leaving_token, leaving_word,
}

abbrev is_stealing : Place → Bool
is_stealing stealing = true
is_stealing stealing_token = true
is_stealing stealing_word = true
is_stealing _ = false

record Exclusive (l : Lock) : Type 0 where
  alone : (i j : ℕ) → holds (l.places i) ≡ true → holds (l.places j) ≡ true → i ≡ j
  taken : (i : ℕ) → holds (l.places i) ≡ true → l.words.word ≢ unlocked
  honest : (i : ℕ) → is_stealing (l.places i) ≡ false

module _ (alive : ℕ → ℕ → Bool) (me me_token : ℕ) where
  -- What one operation does, seen from the lock.
  record Acted (p : Place) (w : Words) (p' : Place) (w' : Words) : Type 0 where
    -- a thread that did not have the lock gets it only when the word says that it is free
    entered : holds p ≡ false → holds p' ≡ true → w.word ≡ unlocked
    taken : holds p' ≡ true → (holds p ≡ true → w.word ≢ unlocked) → w'.word ≢ unlocked
    kept : holds p ≡ false → w.word ≢ unlocked → w'.word ≢ unlocked
    honest : is_stealing p' ≡ false

  act-Acted :
      (p : Place) (w : Words)
      → is_stealing p ≡ false
      → ((h t : ℕ) → p ≡ judging h t → h ≢ 0 → alive h t ≡ true)
      → Acted p w (act alive me me_token p w).0 (act alive me me_token p w).1
  act-Acted outside w e known = record {
    entered = λ a b. ground arith;
    taken = λ a b. ground arith;
    kept = λ a b. ground arith;
    honest = ground arith;
  }
  act-Acted claiming w e known = record {
    entered = λ a b. ground arith;
    taken = λ a b. ground arith;
    kept = λ a b. ground arith;
    honest = ground arith;
  }
  act-Acted naming w e known = record {
    entered = λ a b. ground arith;
    taken = λ a b. ground arith;
    kept = λ a b. ground arith;
    honest = ground arith;
  }
  act-Acted stamping w e known = record {
    entered = λ a b. ground arith;
    taken = λ a b. ground arith;
    kept = λ a b. ground arith;
    honest = ground arith;
  }
  act-Acted inside w e known = record {
    entered = λ a b. ground arith;
    taken = λ a b. ground arith;
    kept = λ a b. ground arith;
    honest = ground arith;
  }
  act-Acted swapping w e known = record {
    entered = λ a b. ground arith;
    taken = λ a b. ground arith;
    kept = λ a b. ground arith;
    honest = ground arith;
  }
  act-Acted waiting w e known = record {
    entered = λ a b. ground arith;
    taken = λ a b. ground arith;
    kept = λ a b. ground arith;
    honest = ground arith;
  }
  act-Acted checking w e known = record {
    entered = λ a b. ground arith;
    taken = λ a b. ground arith;
    kept = λ a b. ground arith;
    honest = ground arith;
  }
  act-Acted reading w e known = record {
    entered = λ a b. ground arith;
    taken = λ a b. ground arith;
    kept = λ a b. ground arith;
    honest = ground arith;
  }
  act-Acted (reading_token h) w e known = record {
    entered = λ a b. ground arith;
    taken = λ a b. ground arith;
    kept = λ a b. ground arith;
    honest = ground arith;
  }
  act-Acted (judging h t) w e known = record {
    entered = λ a b. ground (arith, known h t refl);
    taken = λ a b. ground (arith, known h t refl);
    kept = λ a b. ground (arith, known h t refl);
    honest = ground (arith, known h t refl);
  }
  act-Acted stealing w e known = absurd (ground arith)
  act-Acted stealing_token w e known = absurd (ground arith)
  act-Acted stealing_word w e known = absurd (ground arith)
  act-Acted leaving w e known = record {
    entered = λ a b. ground arith;
    taken = λ a b. ground arith;
    kept = λ a b. ground arith;
    honest = ground arith;
  }
  act-Acted leaving_token w e known = record {
    entered = λ a b. ground arith;
    taken = λ a b. ground arith;
    kept = λ a b. ground arith;
    honest = ground arith;
  }
  act-Acted leaving_word w e known = record {
    entered = λ a b. ground arith;
    taken = λ a b. ground arith;
    kept = λ a b. ground arith;
    honest = ground arith;
  }

-- What the threads read of the lock's owner: processes and tokens of threads, or nought.
module _ (pid start_token : ℕ → ℕ) where
  abbrev IsPid : ℕ → Type 0
  IsPid h = (h ≡ 0) ⊎ ((k : ℕ) × (h ≡ pid k))

  abbrev IsToken : ℕ → Type 0
  IsToken t = (t ≡ 0) ⊎ ((k : ℕ) × (t ≡ start_token k))

  abbrev HasRead : Place → Type 0
  HasRead (reading_token h) = IsPid h
  HasRead (judging h t) = IsPid h × IsToken t
  HasRead _ = Unit {0}

  record Named (w : Words) : Type 0 where
    owner : IsPid w.owner
    token : IsToken w.token

  act-Named :
      (alive : ℕ → ℕ → Bool) (k : ℕ) (p : Place) (w : Words)
      → Named w
      → HasRead p
      → Named (act alive (pid k) (start_token k) p w).1
        × HasRead (act alive (pid k) (start_token k) p w).0
  act-Named alive k outside w n q = (n, tt)
  act-Named alive k claiming w n q = elim (Bool-cases (w.word == unlocked)) [
    | inl e ↦ rw e (record { owner = n.owner; token = n.token }, tt)
    | inr e ↦ rw e (n, tt)
  ]
  act-Named alive k naming w n q = (record { owner = inr (k, refl); token = n.token }, tt)
  act-Named alive k stamping w n q = (record { owner = n.owner; token = inr (k, refl) }, tt)
  act-Named alive k swapping w n q = elim (Bool-cases (w.word == unlocked)) [
    | inl e ↦ rw e (record { owner = n.owner; token = n.token }, tt)
    | inr e ↦ rw e (record { owner = n.owner; token = n.token }, tt)
  ]
  act-Named alive k waiting w n q = (n, tt)
  act-Named alive k checking w n q = elim (Bool-cases (w.word == unlocked)) [
    | inl e ↦ rw e (n, tt)
    | inr e ↦ rw e (n, tt)
  ]
  act-Named alive k reading w n q = (n, n.owner)
  act-Named alive k (reading_token h) w n q = (n, (q, n.token))
  act-Named alive k (judging h t) w n q =
      elim (Bool-cases (not (h == 0) && not (h == pid k) && not (alive h t))) [
        | inl e ↦ rw e (n, tt)
        | inr e ↦ rw e (n, tt)
      ]
  act-Named alive k stealing w n q = (record { owner = inr (k, refl); token = n.token }, tt)
  act-Named alive k stealing_token w n q = (record { owner = n.owner; token = inr (k, refl) }, tt)
  act-Named alive k stealing_word w n q = (record { owner = n.owner; token = n.token }, tt)
  act-Named alive k inside w n q = (n, tt)
  act-Named alive k leaving w n q = (record { owner = inl refl; token = n.token }, tt)
  act-Named alive k leaving_token w n q = (record { owner = n.owner; token = inl refl }, tt)
  act-Named alive k leaving_word w n q = (record { owner = n.owner; token = n.token }, tt)

module _ (alive : ℕ → ℕ → Bool) (pid start_token : ℕ → ℕ) (seen : (k : ℕ) → alive (pid k) 0 ≡ true)
    (seen_under : (k j : ℕ) → alive (pid k) (start_token j) ≡ true) where
  judged :
      (p : Place)
      → HasRead pid start_token p
      → (h t : ℕ) → p ≡ judging h t
      → h ≢ 0
      → alive h t ≡ true
  judged p q h t e ne =
      let (named, stamped) = subst (λ z. HasRead pid start_token z) e q in owner_cases named stamped
    where
      owner_cases : IsPid pid start_token h → IsToken pid start_token t → alive h t ≡ true
      owner_cases (inl zero_owner) stamped = absurd (ne zero_owner)
      owner_cases (inr (k, own)) (inl no_token) = rw (own, no_token) (seen k)
      owner_cases (inr (k, own)) (inr (j, other)) = rw (own, other) (seen_under k j)

  record Sound (l : Lock) : Type 0 where
    exclusive : Exclusive l
    named : Named pid start_token l.words
    read : (i : ℕ) → HasRead pid start_token (l.places i)

  -- One operation of thread `k`.
  advance-Exclusive : (k : ℕ) (l : Lock) → Sound l → Exclusive (advance alive pid start_token k l)
  advance-Exclusive k l sound =
      let x = sound.exclusive in
      let a =
        act-Acted alive (pid k) (start_token k) (l.places k) l.words (x.honest k)
          (judged (l.places k) (sound.read k)) in
      record {
        alone = λ i j hi hj.
            ground (arith, a.entered, x.alone i j, x.alone k j, x.alone i k, x.taken i, x.taken j);
        taken = λ i hi. ground (arith, a.taken, a.kept, x.alone k i, x.taken i, x.taken k);
        honest = λ i. ground (arith, a.honest, x.honest i);
      }

  advance-Sound : (k : ℕ) (l : Lock) → Sound l → Sound (advance alive pid start_token k l)
  advance-Sound k l sound =
      let next =
        act-Named pid start_token alive k (l.places k) l.words sound.named (sound.read k) in
      record {
        exclusive = advance-Exclusive k l sound;
        named = next.0;
        read = λ i. elim (ℕ_discrete k i) [
          | yes same ↦
              let here : (act alive (pid k) (start_token k) (l.places k) l.words).0
                  ≡ (advance alive pid start_token k l).places i =
                ground arith in
              subst (λ z. HasRead pid start_token z) here next.1
          | no other ↦
              let there : l.places i ≡ (advance alive pid start_token k l).places i =
                ground arith in
              subst (λ z. HasRead pid start_token z) there (sound.read i)
        ];
      }

  run-Sound :
      (schedule : List ℕ) (l : Lock) → Sound l → Sound (run alive pid start_token schedule l)
  unfolding run
  run-Sound [] l x = x
  run-Sound (k ∷ schedule) l x =
      run-Sound schedule (advance alive pid start_token k l) (advance-Sound k l x)

  fresh-Sound : Sound fresh
  fresh-Sound = record {
    exclusive = record {
      alone = λ i j hi hj. absurd (ground arith);
      taken = λ i hi. absurd (ground arith);
      honest = λ i. refl;
    };
    named = record { owner = inl refl; token = inl refl };
    read = λ i. tt;
  }

  -- If no thread's process is judged dead, with no start token or with that of any of the threads,
  -- then two threads have the lock at the same time only if they are the same, whatever the order
  -- of the single operations of all threads. The test of a process with the token of another is
  -- needed, since a waiting thread reads the owner and its token in two operations.
  pub lock_excludes :
      (schedule : List ℕ) (i j : ℕ)
      → holds ((run alive pid start_token schedule fresh).places i) ≡ true
      → holds ((run alive pid start_token schedule fresh).places j) ≡ true
      → i ≡ j
  lock_excludes schedule i j hi hj =
      (run-Sound schedule fresh fresh-Sound).exclusive.alone i j hi hj
