-- ===== src/Tests/Scenario.antt =====
-- A ring of two slots of 64 bytes: a consumer registers, a tensor is published and taken, and a
-- second slot is reserved while the lease is held.
use tenzor_bus.Common.{update, arith, ℕ, ◌≡◌, refl, true, false, for_to, none, some, [], ◌∷◌}
use tenzor_bus.Common.Bits.{count_ones, set_bit, test_bit}
use tenzor_bus.Proto.{u8, seq_newer, from_code, code}
use tenzor_bus.Errors.{ok}
use tenzor_bus.Host.{Host}
use tenzor_bus.Mem.{Mem, Ring, Consumer}
use tenzor_bus.Registry.{consumer, reap_dead, active_mask}
use tenzor_bus.Tensor.{TensorView}
use tenzor_bus.Producer.{
  view_header, reserve_header, select, commit_slot, Reserved, attempt, write_payload, commit,
  SlotWriter,
}
use tenzor_bus.Consumer.{
  TensorMeta, scan_oldest, read_validated, rescan, try_take, steady, taken, lease_data,
}
use tenzor_bus.Create.{format}
use tenzor_bus.System.{
  Step, System, Held, Sees, Reach, here, later, registers, reserves, fills, commits, takes,
}
use tenzor_bus.System.Inbox.{steps}
use tenzor_bus.System.Safety.{start}

abbrev pub host : Host
host = record { pid = 7; stat_text = λ _. none; signalable = λ _. true; clock_ns = 1000 }

abbrev pub ring : Ring
ring = record { slot_count = 2; slot_capacity = 64 }

abbrev pub reader : Consumer
reader = record { index = 0; generation = 1; last_sequence = 0; closed = false }

abbrev pub view : TensorView
view = record {
  dtype = u8;
  ndim = 1;
  shape = 3 ∷ 0 ∷ 0 ∷ 0 ∷ 0 ∷ 0 ∷ 0 ∷ 0 ∷ [];
  strides = 1 ∷ 0 ∷ 0 ∷ 0 ∷ 0 ∷ 0 ∷ 0 ∷ 0 ∷ [];
  bytes = 10 ∷ 20 ∷ 30 ∷ [];
  timestamp_ns = none;
}

abbrev pub first_slot : Reserved
first_slot = record { slot = 0; sequence = 1; mask = 1 }

abbrev pub first_meta : TensorMeta
first_meta = record {
  sequence = 1;
  timestamp_ns = 1000;
  nbytes = 3;
  dtype = u8;
  ndim = 1;
  shape = view.shape;
  strides = view.strides;
  slot_index = 0;
  readers_remaining = 1;
}

abbrev pub second_slot : Reserved
second_slot = record { slot = 1; sequence = 2; mask = 1 }

abbrev pub blank : Mem
blank = format ring

abbrev pub with_reader : Mem
with_reader = (consumer host ring blank).1

pub registered : consumer host ring blank ≡ (ok reader, with_reader)
unfolding consumer for_to reap_dead format
registered = refl

abbrev pub reserved : Mem
reserved = (attempt host ring (view_header view) with_reader).1

pub reserved-eq : attempt host ring (view_header view) with_reader ≡ (some first_slot, reserved)
unfolding consumer for_to reap_dead format attempt reserve_header select active_mask set_bit
reserved-eq = refl

abbrev pub writer : SlotWriter
writer = record { slot = 0; sequence = 1; mask = 1; nbytes = 3; committed = false }

abbrev pub committed : Mem
committed = (commit writer (write_payload 0 view.bytes reserved)).1

pub taken-eq : try_take ring reader (steady committed) ≡ some first_meta
unfolding consumer for_to reap_dead format attempt reserve_header select active_mask set_bit
    try_take scan_oldest commit commit_slot test_bit seq_newer read_validated rescan from_code code
    count_ones
taken-eq = refl

abbrev pub with_lease : Mem
with_lease = (taken host reader first_meta committed).1

abbrev pub second_reserved : Mem
second_reserved = (attempt host ring (view_header view) with_lease).1

abbrev pub empty : System
empty = start blank

abbrev pub joined : System
joined = record empty { mem = with_reader; consumers = update empty.consumers 0 (some reader) }

abbrev pub writing : System
writing = record joined { mem = reserved; writers = update joined.writers 0 (some writer) }

abbrev pub filled : System
filled = record writing { mem = write_payload 0 view.bytes reserved }

abbrev pub delivered : System
delivered = record filled { mem = committed; writers = update writing.writers 0 none }

abbrev pub held : Held
held = record { owner = 0; meta = first_meta; bytes = view.bytes }

abbrev pub leasing : System
leasing = record delivered {
  mem = with_lease;
  consumers = update delivered.consumers 0 (some (taken host reader first_meta committed).0);
  leases = update delivered.leases 0 (some held);
}

-- The first lease is held while a second slot is written.
abbrev pub both : System
both = record leasing {
  mem = second_reserved;
  writers = update leasing.writers 0 (some (record writer { slot = 1; sequence = 2 }));
}

-- Every open consumer is this process, and nothing is being written.
idle-Sees :
    (s : System)
    → ((id : ℕ) (c : Consumer) → s.consumers id ≡ some c → (s.mem.entries c.index).pid ≡ 7)
    → ((id : ℕ) → s.writers id ≡ none)
    → Sees host ring s
idle-Sees s own none_writing = record {
  readers = λ id c e. let p = own id c e in ground arith;
  reserving = λ id w e. absurd (ground (arith, none_writing id));
}

pub second-eq :
    attempt host ring (view_header view) with_lease ≡ (some second_slot, second_reserved)
unfolding consumer for_to reap_dead format attempt reserve_header select active_mask set_bit commit
    commit_slot test_bit
second-eq = refl

join : Step ring empty joined
join =
    registers 0 host refl (λ l x e. absurd cc) (idle-Sees empty (λ id c e. cc) (λ id. refl))
      registered

joined-owner : (id : ℕ) (c : Consumer) → joined.consumers id ≡ some c → c ≡ reader
joined-owner id c e = ground arith

own_entry : (with_reader.entries 0).pid ≡ 7
unfolding consumer for_to reap_dead format
own_entry = refl

reserve_first : Step ring joined writing
reserve_first =
    reserves 0 host (view_header view) 3 refl
      (idle-Sees joined (λ id c e. rw (joined-owner id c e) own_entry) (λ id. refl)) reserved-eq

fill : Step ring writing filled
fill = fills 0 view.bytes refl

deliver : Step ring filled delivered
deliver = commits 0 refl

bytes-eq : lease_data first_meta committed ≡ view.bytes
unfolding consumer for_to reap_dead format attempt reserve_header select active_mask set_bit commit
    commit_slot test_bit lease_data
bytes-eq = refl

pub take_first : Step ring delivered leasing
unfolding consumer for_to reap_dead format attempt reserve_header select active_mask set_bit commit
    commit_slot test_bit lease_data
take_first = takes 0 0 host refl refl (λ l x e o. cc) taken-eq

leasing-owner : (id : ℕ) (c : Consumer) → leasing.consumers id ≡ some c → c.index ≡ 0
leasing-owner id c e = ground arith

own_entry_later : (with_lease.entries 0).pid ≡ 7
unfolding consumer for_to reap_dead format attempt reserve_header select active_mask set_bit commit
    commit_slot test_bit
own_entry_later = refl

reserve_second : Step ring leasing both
reserve_second =
    reserves 0 host (view_header view) 3 refl
      (idle-Sees leasing (λ id c e. rw (leasing-owner id c e) own_entry_later) (λ id. ground arith))
      second-eq

-- The run up to the publication.
pub before_take : Reach ring empty delivered
before_take = later (later (later (later here join) reserve_first) fill) deliver

pub steps-before_take : steps before_take ≡ 4
unfolding steps before_take
steps-before_take = refl

-- The run up to the lease.
pub run : Reach ring empty leasing
run = later before_take take_first

-- The run up to a lease beside a writer.
pub longer_run : Reach ring empty both
longer_run = later run reserve_second
