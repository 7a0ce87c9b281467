-- ===== src/System.antt =====
-- The ring with all its processes: the shared memory, the open consumers, the writers that have
-- reserved a slot, and the leases that are held, with the bytes that each lease showed when it was
-- taken. Every operation of rust/tenzorbus/src/ring.rs is a step; the steps of different processes
-- interleave in any order. Assumed of the steps: the kernel reports no process with an open handle
-- as dead (`Sees`); a consumer takes nothing while it holds a lease from 2^63 publications ago
-- (`NoneStale`); a closed handle is not used any more. A consumer may close under its leases: they
-- stay, without their slots, and their release is refused. An identifier stands for one handle.
pub mod Invariant
pub mod Keep
pub mod Handles
pub mod Leases
pub mod Safety
pub mod Order
pub mod Inbox
use tenzor_bus.Common.{
  ℕ, ◌+◌, ◌≡◌, ◌≢◌, Bool, true, false, ◌==◌, if◌then◌else◌, update, u64, Option, none, some, List,
}
use tenzor_bus.Proto.{seq_newer}
use tenzor_bus.Errors.{Result, ok, err, Error}
use tenzor_bus.Host.{Host}
use tenzor_bus.Mem.{Mem, Ring, Consumer}
use tenzor_bus.Registry.{is_dead, is_abandoned, sweep, consumer, close, producer, drop_producer}
use tenzor_bus.Producer.{
  Header, Reserved, SlotWriter, attempt, write_payload, set_timestamp_ns, commit, abort,
}
use tenzor_bus.Consumer.{TensorMeta, try_take, steady, taken, lease_data, release}

pub record Held : Type 0 where
  pub owner : ℕ
  pub meta : TensorMeta
  pub bytes : List ℕ

pub record System : Type 0 where
  pub mem : Mem
  pub consumers : ℕ → Option Consumer
  pub writers : ℕ → Option SlotWriter
  pub leases : ℕ → Option Held

-- Without the leases of one consumer.
abbrev pub unless_owner : ℕ → Option Held → Option Held
unless_owner id none = none
unless_owner id (some x) = if x.owner == id then none else some x

abbrev pub without_owner : ℕ → (ℕ → Option Held) → ℕ → Option Held
without_owner id leases l = unless_owner id (leases l)

abbrev pub writer_of : Reserved → ℕ → SlotWriter
writer_of a nbytes = record {
  slot = a.slot;
  sequence = a.sequence;
  mask = a.mask;
  nbytes = nbytes;
  committed = false;
}

-- The kernel tells process `h` that the processes with open handles are alive.
pub record Sees (h : Host) (r : Ring) (s : System) : Type 0 where
  pub readers :
      (id : ℕ) (c : Consumer) → s.consumers id ≡ some c → is_dead h (s.mem.entries c.index) ≡ false
  pub reserving :
      (id : ℕ) (w : SlotWriter)
      → s.writers id ≡ some w
      → is_abandoned h (s.mem.slots w.slot) ≡ false

-- No lease of consumer `id` is so old that its number counts as newer than the last one taken: it
-- has not been held while 2^63 publications went by.
abbrev pub NoneStale : System → ℕ → Consumer → Type 0
NoneStale s id c =
    (l : ℕ) (x : Held)
    → s.leases l ≡ some x
    → x.owner ≡ id
    → seq_newer x.meta.sequence c.last_sequence ≡ false

pub data Step (r : Ring) (s : System) : System → Type 0 where
  sweeps : (h : Host) → Sees h r s → Step r s (record s { mem = sweep h r s.mem })
  registers :
      (id : ℕ) (h : Host) {c : Consumer} {m : Mem}
      → s.consumers id ≡ none
      → ((l : ℕ) (x : Held) → s.leases l ≡ some x → x.owner ≢ id)
      → Sees h r s
      → consumer h r s.mem ≡ (ok c, m)
      → Step r s (record s { mem = m; consumers = update s.consumers id (some c) })
  finds_full :
      (h : Host) {e : Error} {m : Mem}
      → Sees h r s
      → consumer h r s.mem ≡ (err e, m)
      → Step r s (record s { mem = m })
  closes :
      (id : ℕ) (h : Host) {c : Consumer}
      → s.consumers id ≡ some c
      → Step r s (record s { mem = (close h r c s.mem).1; consumers = update s.consumers id none })
  dies :
      (id : ℕ)
      → Step r s
          (record s { consumers = update s.consumers id none; leases = without_owner id s.leases })
  claims : (h : Host) (n : ℕ) → Step r s (record s { mem = (producer h n s.mem).1 })
  resigns : (h : Host) (n : ℕ) → Step r s (record s { mem = (drop_producer h n s.mem).1 })
  reserves :
      (id : ℕ) (h : Host) (hd : Header) (nbytes : ℕ) {a : Reserved} {m : Mem}
      → s.writers id ≡ none
      → Sees h r s
      → attempt h r hd s.mem ≡ (some a, m)
      → Step r s (record s { mem = m; writers = update s.writers id (some (writer_of a nbytes)) })
  finds_none :
      (h : Host) (hd : Header) {m : Mem}
      → Sees h r s
      → attempt h r hd s.mem ≡ (none, m)
      → Step r s (record s { mem = m })
  drops : Step r s (record s { mem = record (s.mem) { drop_count = u64 (s.mem.drop_count + 1) } })
  fills :
      (id : ℕ) {w : SlotWriter} (bytes : List ℕ)
      → s.writers id ≡ some w
      → Step r s (record s { mem = write_payload w.slot bytes s.mem })
  stamps :
      (id : ℕ) {w : SlotWriter} (ns : ℕ)
      → s.writers id ≡ some w
      → Step r s (record s { mem = set_timestamp_ns w ns s.mem })
  commits :
      (id : ℕ) {w : SlotWriter}
      → s.writers id ≡ some w
      → Step r s (record s { mem = (commit w s.mem).1; writers = update s.writers id none })
  aborts :
      (id : ℕ) (h : Host) {w : SlotWriter}
      → s.writers id ≡ some w
      → Step r s (record s { mem = (abort h w s.mem).1; writers = update s.writers id none })
  deserts : (id : ℕ) → Step r s (record s { writers = update s.writers id none })
  takes :
      (id l : ℕ) (h : Host) {c : Consumer} {t : TensorMeta}
      → s.consumers id ≡ some c
      → s.leases l ≡ none
      → NoneStale s id c
      → try_take r c (steady s.mem) ≡ some t
      → Step r s (record s {
        mem = (taken h c t s.mem).1;
        consumers = update s.consumers id (some (taken h c t s.mem).0);
        leases =
            update s.leases l (some (record { owner = id; meta = t; bytes = lease_data t s.mem }));
      })
  returns :
      (l : ℕ) (h : Host) {x : Held} {c : Consumer} {m : Mem}
      → s.leases l ≡ some x
      → s.consumers x.owner ≡ some c
      → release h c x.meta s.mem ≡ (ok tt, m)
      → Step r s (record s { mem = m; leases = update s.leases l none })
  -- the release of a lease whose consumer is closed, with the handle that it had
  refused :
      (l : ℕ) (h : Host) (c : Consumer) {x : Held} {e : Error}
      → s.leases l ≡ some x
      → s.consumers x.owner ≡ none
      → release h c x.meta s.mem ≡ (err e, s.mem)
      → Step r s (record s { leases = update s.leases l none })

pub data Reach (r : Ring) (s : System) : System → Type 0 where
  here : Reach r s s
  later : {t u : System} → Reach r s t → Step r t u → Reach r s u
