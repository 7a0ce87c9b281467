-- ===== src/Bridge/Main/Closing.antt =====
-- `main` closes what it has opened, however it ends.
use tenzor_bus.Common.{ℕ, ◌≡◌, List, [], ◌∷◌}
use tenzor_bus.Mem.{Mem}
use tenzor_bus.Handle.{Memory}
use tenzor_bus.Shm.Balance.{Log}
use tenzor_bus.Bridge.Main.{Wait, Outside, Exit}

-- What others do leaves the log of this process's system calls alone.
abbrev waits_beside : {K : Type 0} → List (Wait K) → List (Wait (K × Log))
waits_beside [] = []
waits_beside (w ∷ ws) =
    record { late = w.late; others = λ p. (w.others p.0, p.1) } ∷ waits_beside ws

abbrev pub outside_beside : {K : Type 0} → Outside K → Outside (K × Log)
outside_beside out = record {
  host = out.host;
  write_ready = λ path p. let (b, k) = out.write_ready path p.0 in (b, (k, p.1));
  parse_args = out.parse_args;
  run_engine = λ p. let (e, k) = out.run_engine p.0 in (e, (k, p.1));
  waits = waits_beside out.waits;
}

module _ {K : Type 0} (memory : Memory K) (out : Outside K) (digits : ℕ → List ℕ) where
  abbrev logged_out : Outside (K × Log)
  logged_out = outside_beside out

  -- A part of `main` that neither opens nor closes anything.
  abbrev KeepsLog : (K × Log → Exit × (K × Log)) → Type 0
  KeepsLog go = (p : K × Log) → (go p).1.1 ≡ p.1
