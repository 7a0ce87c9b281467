-- ===== src/Handle.antt =====
-- rust/tenzorbus/src/ring.rs: `Ring::create`, `attach` and `open_or_create`, and `Drop for Inner`,
-- from the system calls up. The bytes of a mapping are read and written as the model's memory, by
-- two further operations on the kernel's state.
pub mod Balance
use tenzor_bus.Common.{ℕ, Bool, true, false, ◌==◌, if◌then◌else◌, Option, none, some, List}
use tenzor_bus.Proto.{total_bytes}
use tenzor_bus.Errors.{Error, Result, ok, err, io, os}
use tenzor_bus.Mem.{Mem, Ring}
use tenzor_bus.Names.{safe_name}
use tenzor_bus.Create.{RingOptions, layout_new, format}
use tenzor_bus.Create as ring_create
use tenzor_bus.Shm.{Kernel, Mapping, IoResult, fine, fault}
use tenzor_bus.Shm

-- The kernel, and the contents of mappings.
pub record Memory (K : Type 0) : Type 0 where
  pub kernel : Kernel K
  pub store : Mapping → Mem → K → K
  pub load : Mapping → K → Mem

-- `Inner`, without the count of producers.
pub record Inner : Type 0 where
  pub name : List ℕ
  pub map : Mapping
  pub ring : Ring
  pub owner : Bool
  pub unlink_on_drop : Bool

-- `keep_on_drop` and `unlink_on_drop`
abbrev pub set_unlink_on_drop : Bool → Inner → Inner
set_unlink_on_drop b i = record i { unlink_on_drop = b }

module _ {K : Type 0} (memory : Memory K) where
  abbrev pub kernel : Kernel K
  kernel = memory.kernel

  abbrev pub formatted : List ℕ → Ring → IoResult Mapping × K → Result Inner × K
  formatted name ring (fault e, k) = (err (io e), k)
  formatted name ring (fine map, k) = (
    ok (record { name = name; map = map; ring = ring; owner = true; unlink_on_drop = true }),
    memory.store map (format ring) k,
  )

  abbrev pub create_sized : List ℕ → Bool → Result Ring → K → Result Inner × K
  create_sized name force (err e) k = (err e, k)
  create_sized name force (ok ring) k =
      formatted name ring
        (Shm.create kernel name (total_bytes ring.slot_count ring.slot_capacity) force k)

  abbrev pub create_safe : Result (List ℕ) → RingOptions → K → Result Inner × K
  create_safe (err e) opts k = (err e, k)
  create_safe (ok name) opts k =
      create_sized name opts.force (layout_new opts.slot_count opts.slot_capacity) k

  -- `Ring::create`
  unfoldable pub create : List ℕ → RingOptions → K → Result Inner × K
  create name opts k = create_safe (safe_name name) opts k

  -- A header that is refused drops the handle, which unmaps but does not unlink.
  abbrev pub learned : List ℕ → Mapping → Result Ring → K → Result Inner × K
  learned name map (err e) k = (err e, Shm.drop_mapping kernel map k)
  learned name map (ok ring) k = (
    ok (record { name = name; map = map; ring = ring; owner = false; unlink_on_drop = false }),
    k,
  )

  abbrev pub attached : List ℕ → IoResult Mapping × K → Result Inner × K
  attached name (fault e, k) = (err (io e), k)
  attached name (fine map, k) = learned name map (ring_create.attach map.len (memory.load map k)) k

  abbrev pub attach_safe : Result (List ℕ) → K → Result Inner × K
  attach_safe (err e) k = (err e, k)
  attach_safe (ok name) k = attached name (Shm.attach kernel name k)

  -- `Ring::attach`
  unfoldable pub attach : List ℕ → K → Result Inner × K
  attach name k = attach_safe (safe_name name) k

  -- EEXIST is `ErrorKind::AlreadyExists`.
  abbrev pub or_attach : List ℕ → Result Inner × K → Result Inner × K
  or_attach name (err (io (os errno)), k) =
      if errno == 17 then attach name k else (err (io (os errno)), k)
  or_attach name (res, k) = (res, k)

  -- `Ring::open_or_create`
  unfoldable pub open_or_create : List ℕ → RingOptions → K → Result Inner × K
  open_or_create name opts k = or_attach name (create name opts k)

  -- `Drop for Inner`, and then the drop of its mapping.
  unfoldable pub drop : Inner → K → K
  drop i k =
      let k1 = if i.unlink_on_drop then (Shm.unlink kernel i.name k).1 else k in
      Shm.drop_mapping kernel i.map k1
