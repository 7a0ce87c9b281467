-- ===== src/Bridge/Ingest.antt =====
-- integration/bridge/src/main.rs, the part of `main` that runs the engine on the sink. The engine
-- is not part of the repository: it is the calls that it makes, and the number of epochs that its
-- summary counts, if it succeeds.
use tenzor_bus.Common.{
  ℕ, ◌+◌, ◌≡◌, ◌∙◌, ap, refl, Bool, not, ◌==◌, if◌then◌else◌, u64, Bool-cases, inl, inr, Option,
  none, some, List, arith,
}
use tenzor_bus.Producer.{SlotWriter}
use tenzor_bus.Bridge.{BusApi, BusSink, new_sink, discard_pending, Call, calls}
use tenzor_bus.Bridge.Balance.{Log, no_calls, logged, IsBalanced, open_slots, sink_balance}

pub data Ended : Type 0 where
  reported : BusSink → Ended
  engine_failed : Ended
  published_of : ℕ → ℕ → Ended

abbrev pub judged : Option ℕ → BusSink → Ended
judged none s = engine_failed
judged (some epochs) s =
    if not (s.published == epochs) then published_of s.published epochs else reported s

-- At the end the sink is dropped, with a writer that is still pending.
unfoldable pub ingest :
    {M : Type 0} → BusApi M → ℕ → Bool → Option ℕ → List Call → Option ℕ → M → Ended × M
ingest api resolution direct corrupt cs epochs m =
    let (s, m') =
      calls api cs (record (new_sink resolution direct) { corrupt_epoch = corrupt }) m in
    (judged epochs s, discard_pending api s.pending m')

-- What a run of the engine leaves.
pub record Settled (e : Ended) (epochs : Option ℕ) (g : Log) : Type 0 where
  -- no slot is left reserved
  pub slots : g.reserved ≡ g.committed + g.discarded
  -- a report counts what the ring has seen, and as many as the engine
  pub published : (s : BusSink) → e ≡ reported s → epochs ≡ some (u64 (g.committed + g.copies))

module _ {M : Type 0} (api : BusApi M) where
  discarded-log :
      (o : Option SlotWriter) (p : M × Log)
      → (discard_pending (logged api) o p).1
        ≡ record (p.1) { discarded = p.1.discarded + open_slots o }
  discarded-log none p = ap (λ k. record (p.1) { discarded = k }) (omega arith)
  discarded-log (some w) p = refl

  judged-reported :
      (epochs : Option ℕ) (s x : BusSink) → judged epochs s ≡ reported x → epochs ≡ some s.published
  judged-reported none s x e = cc
  judged-reported (some n) s x e = elim (Bool-cases (s.published == n)) [
    | inl q ↦ ap some (ground (arith, q))
    | inr q ↦ let z = rw q at e in cc
  ]

  balanced-Settled :
      (epochs : Option ℕ) (s : BusSink) (p : M × Log)
      → IsBalanced s p.1
      → Settled (judged epochs s) epochs (discard_pending (logged api) s.pending p).1
  balanced-Settled epochs s p b = rw (discarded-log s.pending p) (record {
    slots = omega (arith, b.reserved);
    published = λ x e. judged-reported epochs s x e ∙ ap some b.published;
  })

  -- Whatever the engine calls and however it ends: no slot stays reserved, and `main` reports
  -- success only if the ring has seen as many publications, modulo 2^64, as the engine counts epochs.
  pub ingest-Settled :
      (resolution : ℕ) (direct : Bool) (corrupt : Option ℕ) (cs : List Call) (epochs : Option ℕ)
      (m : M)
      → let (e, m') = ingest (logged api) resolution direct corrupt cs epochs (m, no_calls) in
        Settled e epochs m'.1
  unfolding ingest
  ingest-Settled resolution direct corrupt cs epochs m =
      balanced-Settled epochs _ _ (sink_balance api resolution direct corrupt m cs)
