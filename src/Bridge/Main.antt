-- ===== src/Bridge/Main.antt =====
-- integration/bridge/src/main.rs, `main` around the run of the engine: what it opens, claims and
-- waits for, and what it gives back. The drops at the end of `main` are written out.
pub mod Closing
use tenzor_bus.Common.{
  codes, ℕ, ◌+◌, ◌*◌, ◌^◌, ◌<◌, ◌≡◌, refl, Bool, true, false, Bool-cases, inl, inr, not, ltb, ◌==◌,
  if◌then◌else◌, Option, none, some, List, [], ◌∷◌, ◌++◌, arith,
}
use tenzor_bus.Errors.{Error, Result, ok, err}
use tenzor_bus.Host.{Host, parse_u64}
use tenzor_bus.Mem.{Mem}
use tenzor_bus.Registry
use tenzor_bus.Create.{RingOptions, same_bytes}
use tenzor_bus.Handle.{Memory, Inner, set_unlink_on_drop}
use tenzor_bus.Handle as ring_handle
use tenzor_bus.Bridge.Options.{flag, value, ring_options, resolution_of}
use tenzor_bus.Bridge.Ingest.{Ended}

-- A round of waiting for consumers: whether the 120 seconds are over, and what others do meanwhile.
pub record Wait (K : Type 0) : Type 0 where
  pub late : Bool
  pub others : K → K

-- What `main` asks of others: to write the file that says that it is ready, to parse the arguments
-- for the engine, and to run the engine on the sink (`ingest`); and the rounds of its waiting.
pub record Outside (K : Type 0) : Type 0 where
  pub host : Host
  pub write_ready : List ℕ → K → Bool × K
  pub parse_args : List (List ℕ) → Bool
  pub run_engine : K → Ended × K
  pub waits : List (Wait K)

-- How `main` ends. `waiting` is no end: the rounds are used up.
pub data Exit : Type 0 where
  usage media_required ring_required : Exit
  ring_failed role_refused : Error → Exit
  not_ready bad_await waiting bad_arguments : Exit
  too_few : ℕ → ℕ → Exit
  ran : Ended → Exit

-- `args.get(1) != Some("stream")`
abbrev pub is_stream : List (List ℕ) → Bool
is_stream (program ∷ verb ∷ args) = same_bytes verb (codes "stream")
is_stream _ = false

abbrev pub window_args : Option (List ℕ) → List (List ℕ)
window_args none = []
window_args (some window) = codes "--window-sec" ∷ window ∷ []

-- The arguments for the engine; `digits` prints a number.
unfoldable pub engine_args : (ℕ → List ℕ) → List ℕ → List (List ℕ) → List (List ℕ)
engine_args digits media args =
    (codes "tenzor"
      ∷ codes "-i"
      ∷ media
      ∷ codes "-o"
      ∷ codes "/dev/null/unused.tenzor"
      ∷ codes "--quiet"
      ∷ codes "--execution"
      ∷ codes "sequential"
      ∷ codes "--video-workers"
      ∷ codes "1"
      ∷ codes "--resolution"
      ∷ digits (resolution_of args)
      ∷ [])
    ++ window_args (value args (codes "--window-sec"))

-- `parse::<u32>`
abbrev pub parse_u32 : List ℕ → Option ℕ
parse_u32 text = elim (parse_u64 text) [
  | none ↦ none
  | some n ↦ if ltb n (2 ^ 32) then some n else none
]

module _ {K : Type 0} (memory : Memory K) (out : Outside K) (digits : ℕ → List ℕ) where
  -- The ring as it is attached or created.
  abbrev pub open_ring : List (List ℕ) → List ℕ → K → Result Inner × K
  open_ring args name k =
      if flag args (codes "--attach")
      then ring_handle.attach memory name k
      else ring_handle.create memory name (ring_options args) k

  -- A change of the mapping.
  abbrev pub in_mapping : Inner → (Mem → Mem) → K → K
  in_mapping i f k = memory.store i.map (f (memory.load i.map k)) k

  -- The end of `main` with the producer's handle: its drop, and that of the ring.
  abbrev pub leave : Inner → Exit × K → Exit × K
  leave i (e, k) =
      (e, ring_handle.drop memory i (in_mapping i (λ m. (Registry.drop_producer out.host 1 m).1) k))

  abbrev pub engine : List ℕ → List (List ℕ) → K → Exit × K
  engine media args k =
      if out.parse_args (engine_args digits media args)
      then (let (e, k') = out.run_engine k in (ran e, k'))
      else (bad_arguments, k)

  -- The loop that waits until `expected` consumers are counted.
  unfoldable pub await_consumers : Inner → ℕ → List (Wait K) → (K → Exit × K) → K → Exit × K
  await_consumers i expected [] go k =
      if ltb (memory.load i.map k).consumers expected then (waiting, k) else go k
  await_consumers i expected (w ∷ ws) go k =
      let rest = await_consumers i expected ws go (w.others k) in
      let count = (memory.load i.map k).consumers in
      if ltb count expected then (if w.late then (too_few count expected, k) else rest) else go k

  abbrev pub await_number : Inner → Option ℕ → (K → Exit × K) → K → Exit × K
  await_number i none go k = (bad_await, k)
  await_number i (some expected) go k = await_consumers i expected out.waits go k

  abbrev pub awaited : Inner → Option (List ℕ) → (K → Exit × K) → K → Exit × K
  awaited i none go k = go k
  awaited i (some text) go k = await_number i (parse_u32 text) go k

  abbrev pub readied : Option (List ℕ) → (K → Exit × K) → K → Exit × K
  readied none go k = go k
  readied (some path) go k =
      let (written, k') = out.write_ready path k in if written then go k' else (not_ready, k')

  -- `main` with the producer role.
  abbrev pub as_producer : Inner → List ℕ → List (List ℕ) → K → Exit × K
  as_producer i media args k =
      readied (value args (codes "--ready-file"))
        (awaited i (value args (codes "--await-consumers")) (engine media args)) k

  -- The claim of the role.
  abbrev pub claimed : Inner → List ℕ → List (List ℕ) → Result ℕ × Mem → K → Exit × K
  claimed i media args (err e, m) k =
      (role_refused e, ring_handle.drop memory i (memory.store i.map m k))
  claimed i media args (ok n, m) k = leave i (as_producer i media args (memory.store i.map m k))

  -- `main` with the ring, which is kept when the handle is dropped.
  abbrev pub with_ring : List ℕ → List (List ℕ) → Result Inner × K → Exit × K
  with_ring media args (err e, k) = (ring_failed e, k)
  with_ring media args (ok i, k) =
      let kept = set_unlink_on_drop false i in
      claimed kept media args (Registry.producer out.host 0 (memory.load i.map k)) k

  abbrev pub with_names : Option (List ℕ) → Option (List ℕ) → List (List ℕ) → K → Exit × K
  with_names none ring args k = (media_required, k)
  with_names (some media) none args k = (ring_required, k)
  with_names (some media) (some name) args k = with_ring media args (open_ring args name k)

  unfoldable pub run_main : List (List ℕ) → K → Exit × K
  run_main args k =
      if is_stream args
      then with_names (value args (codes "--media")) (value args (codes "--ring")) args k
      else (usage, k)
