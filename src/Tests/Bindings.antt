-- ===== src/Tests/Bindings.antt =====
-- The theorems on the Python bindings, applied to scripts of calls on the ring of the scenario.
use tenzor_bus.Common.{
  ℕ, ◌↔◌, ◌<◌, ◌≡◌, ◌≢◌, ◌⊎◌, refl, true, false, none, some, List, [], ◌∷◌, arith, for_to,
}
use tenzor_bus.Common.Bits.{set_bit, test_bit, test_bit-set_bit, test_bit-zero}
use tenzor_bus.Proto.{u8}
use tenzor_bus.Errors.{ok, Result, lease_violation, released_twice}
use tenzor_bus.Python.Handle.{py_consumer_close, py_create, py_unlink}
use tenzor_bus.Host.{Host}
use tenzor_bus.Proto.{state_committed}
use tenzor_bus.Mem.{Mem}
use tenzor_bus.Registry.{consumer, reap_dead, active_mask}
use tenzor_bus.Consumer.{TensorMeta}
use tenzor_bus.Consumer
use tenzor_bus.Producer.{
  Header, commit, abort, set_timestamp_ns, attempt, reserve_header, select, commit_slot,
}
use tenzor_bus.Create.{format, layout_new}
use tenzor_bus.Names.{safe_name, trim_start, trim_end, is_safe}
use tenzor_bus.Host.{is_whitespace}
use tenzor_bus.Shm.{cname, map_fd, got}
use tenzor_bus.Shm
use tenzor_bus.Shm.Undo.{made, unlinked}
use tenzor_bus.Handle.{Memory, Inner}
use tenzor_bus.Handle
use tenzor_bus.Proto.{total_bytes}
use tenzor_bus.Python.Handle.Unlink.{unlink_same_object, traced_memory}
use tenzor_bus.Python.Raise.{returns, raises, runtime_error, of_error}
use tenzor_bus.Python.Lease.{new_lease, get_buffer, release_buffer}
use tenzor_bus.Python.Lease
use tenzor_bus.Python.Lease.Once as lease_once
use tenzor_bus.Python.Lease.Ring.{close_under_view}
use tenzor_bus.Python.Writer.{PySlotWriter, WriterApi, new_writer}
use tenzor_bus.Python.Writer
use tenzor_bus.Python.Writer.Once as writer_once
use tenzor_bus.Python.Publish.{NdArray, parse_policy, py_publish}
use tenzor_bus.Python.Publish.Refusal.{Answered, py_publish-Answered}
use tenzor_bus.Tests.Scenario.{
  host, ring, reader, first_meta, writer, with_lease, with_reader, reserved,
}

-- A view is opened, the release is refused, the view goes away, and the release succeeds.
abbrev script : List (Lease.Event Mem)
script =
    Lease.opens_view true
    ∷ Lease.releases
    ∷ Lease.closes_view
    ∷ Lease.releases
    ∷ Lease.releases
    ∷ []

abbrev release_raw : TensorMeta → Mem → Result (Unit {0}) × Mem
release_raw = Consumer.release host reader

released_once_example :
    (let (l, m') =
        Lease.events
          (lease_once.logged release_raw)
          (lease_once.beside_log script)
          (new_lease first_meta)
          (with_lease, []) in
      Lease.drop (lease_once.logged release_raw) l m').1
    ≡ first_meta ∷ []
released_once_example = lease_once.released_once release_raw first_meta script with_lease []

-- The same script, up to the view.
abbrev viewing : List (Lease.Event Mem)
viewing = Lease.opens_view true ∷ Lease.releases ∷ []

lease_viewed :
    0
    < (Lease.events
        (lease_once.logged release_raw)
        (lease_once.beside_log viewing)
        (new_lease first_meta)
        (with_lease, [])).0.exports
unfolding Lease.events Lease.event get_buffer Lease.release
lease_viewed = omega arith

viewed_is_held_example :
    ((Lease.events
        (lease_once.logged release_raw)
        (lease_once.beside_log viewing)
        (new_lease first_meta)
        (with_lease, [])).0.meta
      ≡ some first_meta)
    × ((Lease.events
          (lease_once.logged release_raw)
          (lease_once.beside_log viewing)
          (new_lease first_meta)
          (with_lease, [])).1.1
        ≡ [])
viewed_is_held_example =
    lease_once.viewed_is_held release_raw first_meta viewing with_lease [] lease_viewed

shown : (with_lease.slots 0).state ≡ state_committed
unfolding consumer for_to reap_dead format attempt reserve_header select active_mask set_bit commit
    commit_slot test_bit
shown = refl

abbrev viewed_lease : Lease.PyLease
viewed_lease = (get_buffer true (new_lease first_meta)).1

only_reader : (b : ℕ) → test_bit (with_lease.slots 0).mask b ≡ true → b ≡ 0
unfolding consumer for_to reap_dead format attempt reserve_header select active_mask set_bit commit
    commit_slot
only_reader b e = ground (arith, test_bit-set_bit 0 0 b, test_bit-zero b)

numbered : (with_lease.slots 0).sequence ≡ 1
unfolding consumer for_to reap_dead format attempt reserve_header select active_mask set_bit commit
    commit_slot
numbered = refl

close_under_view_example :
    ((g : Host) (hd : Header)
      → (attempt g ring hd (py_consumer_close host ring reader with_lease)).0 ≢ none)
    × ((Lease.release
          (Consumer.release host reader)
          (release_buffer viewed_lease)
          (py_consumer_close host ring reader with_lease)).0
        ≡ raises runtime_error (of_error (lease_violation released_twice)))
unfolding get_buffer
close_under_view_example =
    close_under_view host ring reader with_lease viewed_lease first_meta only_reader refl refl refl
      (omega arith) shown numbered

-- The operations of a writer on the ring.
abbrev api : WriterApi Mem
api = record {
  commit = commit;
  give_up = λ w m. (abort host w m).1;
  set_timestamp_ns = set_timestamp_ns;
}

-- The view is open when `__exit__` runs, so that it refuses, and a later commit succeeds.
abbrev writing_script : List (Writer.Event Mem)
writing_script =
    Writer.opens_view true
    ∷ Writer.exits false
    ∷ Writer.closes_view
    ∷ Writer.commits
    ∷ Writer.aborts
    ∷ []

abbrev ends : PySlotWriter × (Mem × List writer_once.Finish)
ends = writer_once.after api writer [] u8 (3 ∷ []) writing_script reserved

finished_once_example :
    ((Writer.drop (writer_once.logged api) ends.0 ends.1).1 ≡ writer_once.given_up writer ∷ [])
    ⊎ ((writer_once.asks_commit writing_script ≡ true)
        × ((Writer.drop (writer_once.logged api) ends.0 ends.1).1
            ≡ writer_once.published writer ∷ []))
finished_once_example = writer_once.finished_once api writer [] u8 (3 ∷ []) writing_script reserved

writer_viewed :
    0
    < (writer_once.after api writer [] u8 (3 ∷ []) (Writer.opens_view true ∷ []) reserved).0.exports
unfolding Writer.events Writer.event Writer.get_buffer
writer_viewed = omega arith

viewed_is_open_example :
    let p = writer_once.after api writer [] u8 (3 ∷ []) (Writer.opens_view true ∷ []) reserved in
    (p.0.writer ≡ some writer) × (p.1.1 ≡ [])
viewed_is_open_example =
    writer_once.viewed_is_open api writer [] u8 (3 ∷ []) (Writer.opens_view true ∷ []) reserved
      writer_viewed

abbrev three_bytes : NdArray
three_bytes = record { dtype_name = "uint8"; shape = 3 ∷ []; buffer = returns (10 ∷ 20 ∷ 30 ∷ []) }

py_publish-Answered_example :
    Answered host ring 0
      (λ m. m)
      []
      none
      with_reader
      (returns three_bytes)
      (parse_policy "drop_newest")
      (py_publish host ring 0 (λ m. m) [] (returns three_bytes) "drop_newest" none with_reader)
py_publish-Answered_example =
    py_publish-Answered host ring 0 (λ m. m) [] none with_reader (returns three_bytes) "drop_newest"

-- "a b", which `create` turns into "a_b"
abbrev spaced : List ℕ
spaced = b'a' ∷ 32 ∷ b'b' ∷ []

abbrev underscored : List ℕ
underscored = b'a' ∷ b'_' ∷ b'b' ∷ []

-- Every call succeeds.
abbrev willing : Memory Mem
willing = record {
  kernel = record {
    shm_open_new = λ name m. (got 3, m);
    shm_open = λ name m. (got 3, m);
    ftruncate = λ fd len m. (got tt, m);
    fstat_size = λ fd m. (got 8192, m);
    mmap = λ fd len m. (got 65536, m);
    munmap = λ addr len m. m;
    close = λ fd m. m;
    shm_unlink = λ name m. (got tt, m);
  };
  store = λ map m old. m;
  load = λ map m. m;
}

abbrev ring_of_two : Inner
ring_of_two = record {
  name = underscored;
  map = record { ptr = 65536; len = total_bytes 2 64 };
  ring = record { slot_count = 2; slot_capacity = 64 };
  owner = true;
  unlink_on_drop = true;
}

spaced-created :
    (py_create (traced_memory willing) spaced 2 64 false (with_reader, [])).0 ≡ returns ring_of_two
unfolding py_create Handle.create layout_new Shm.create cname map_fd safe_name trim_start trim_end
    is_safe is_whitespace
spaced-created = refl

unlink_same_object_example :
    let p = (py_create (traced_memory willing) spaced 2 64 false (with_reader, [])).1 in
    (o : List ℕ) × (p.1 ≡ made o ∷ [])
    × (((py_unlink (traced_memory willing) spaced p).1.1 ≡ unlinked o ∷ made o ∷ [])
        ↔ (safe_name spaced ≡ ok spaced))
unlink_same_object_example =
    unlink_same_object willing spaced 2 64 with_reader ring_of_two spaced-created
