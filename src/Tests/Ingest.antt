-- ===== src/Tests/Ingest.antt =====
-- The bridge's `main` on a kernel that grants everything.
use tenzor_bus.Common.{codes, ℕ, true, false, List, [], ◌∷◌}
use tenzor_bus.Mem.{Mem}
use tenzor_bus.Shm.{Kernel, got}
use tenzor_bus.Handle.{Memory}
use tenzor_bus.Bridge.Ingest.{engine_failed}
use tenzor_bus.Bridge.Main.{Outside}
use tenzor_bus.Tests.Scenario.{host}

abbrev ingest_arguments : List (List ℕ)
ingest_arguments =
    codes "tenzorbus-ingest"
    ∷ codes "stream"
    ∷ codes "--media"
    ∷ codes "a.mp4"
    ∷ codes "--ring"
    ∷ codes "frames"
    ∷ codes "--await-consumers"
    ∷ codes "1"
    ∷ []

-- A kernel that grants everything, with the memory of a ring as its state.
abbrev granting : Kernel Mem
granting = record {
  shm_open_new = λ name m. (got 3, m);
  shm_open = λ name m. (got 3, m);
  ftruncate = λ fd len m. (got tt, m);
  fstat_size = λ fd m. (got 8192, m);
  mmap = λ fd len m. (got 65536, m);
  munmap = λ addr len m. m;
  close = λ fd m. m;
  shm_unlink = λ name m. (got tt, m);
}

abbrev granted : Memory Mem
granted = record { kernel = granting; store = λ map m old. m; load = λ map m. m }

-- Nobody registers, and the time is up in the second round.
abbrev lonely : Outside Mem
lonely = record {
  host = host;
  write_ready = λ path m. (true, m);
  parse_args = λ args. true;
  run_engine = λ m. (engine_failed, m);
  waits = record { late = false; others = λ m. m } ∷ record { late = true; others = λ m. m } ∷ [];
}
