-- ===== src/Shm.antt =====
-- rust/tenzorbus/src/shm.rs: named shared memory. The system calls are a record of operations on
-- the kernel's state, of any type; a name is its bytes. A call that fails leaves its errno.
pub mod Balance
pub mod Undo
use tenzor_bus.Common.{
  ℕ, Bool, true, false, ◌==◌, ◌||◌, if◌then◌else◌, Option, none, some, List, [], ◌∷◌, ◌++◌,
}
use tenzor_bus.Errors.{IoError, os, contains_nul, zero_length}

pub data Sys {ℓ} (A : Type ℓ) : Type ℓ where
  got : A → Sys A
  failed : ℕ → Sys A

pub record Kernel (K : Type 0) : Type 0 where
  -- `shm_open` with O_CREAT | O_EXCL | O_RDWR, and with O_RDWR alone: a file descriptor
  pub shm_open_new : List ℕ → K → Sys ℕ × K
  pub shm_open : List ℕ → K → Sys ℕ × K
  pub ftruncate : ℕ → ℕ → K → Sys (Unit {0}) × K
  -- `st_size` of `fstat`
  pub fstat_size : ℕ → K → Sys ℕ × K
  -- shared, readable and writable, from the start of the object: an address
  pub mmap : ℕ → ℕ → K → Sys ℕ × K
  pub munmap : ℕ → ℕ → K → K
  pub close : ℕ → K → K
  pub shm_unlink : List ℕ → K → Sys (Unit {0}) × K

pub record Mapping : Type 0 where
  pub ptr : ℕ
  pub len : ℕ

pub data IoResult {ℓ} (A : Type ℓ) : Type ℓ where
  fine : A → IoResult A
  fault : IoError → IoResult A

-- "/tzbus_"
abbrev pub prefix : List ℕ
prefix = b'/' ∷ b't' ∷ b'z' ∷ b'b' ∷ b'u' ∷ b's' ∷ b'_' ∷ []

abbrev pub object_name : List ℕ → List ℕ
object_name logical = prefix ++ logical

abbrev pub has_nul : List ℕ → Bool
has_nul [] = false
has_nul (c ∷ cs) = c == 0 || has_nul cs

-- `CString::new` refuses a NUL.
unfoldable pub cname : List ℕ → IoResult (List ℕ)
cname logical =
    if has_nul (object_name logical) then fault contains_nul else fine (object_name logical)

module _ {K : Type 0} (kernel : Kernel K) where
  abbrev pub mapped : ℕ → ℕ → Sys ℕ × K → IoResult Mapping × K
  mapped fd len (failed errno, k) = (fault (os errno), kernel.close fd k)
  mapped fd len (got addr, k) = (fine (record { ptr = addr; len = len }), kernel.close fd k)

  -- `map_fd`
  unfoldable pub map_fd : ℕ → ℕ → K → IoResult Mapping × K
  map_fd fd len k = mapped fd len (kernel.mmap fd len k)

  abbrev pub truncated : List ℕ → ℕ → ℕ → Sys (Unit {0}) × K → IoResult Mapping × K
  truncated name fd len (failed errno, k) =
      (fault (os errno), (kernel.shm_unlink name (kernel.close fd k)).1)
  truncated name fd len (got u, k) = map_fd fd len k

  abbrev pub opened_new : List ℕ → ℕ → Sys ℕ × K → IoResult Mapping × K
  opened_new name len (failed errno, k) = (fault (os errno), k)
  opened_new name len (got fd, k) = truncated name fd len (kernel.ftruncate fd len k)

  abbrev pub create_named : IoResult (List ℕ) → ℕ → Bool → K → IoResult Mapping × K
  create_named (fault e) len force k = (fault e, k)
  create_named (fine name) len force k =
      opened_new name len
        (kernel.shm_open_new name (if force then (kernel.shm_unlink name k).1 else k))

  -- `create`
  unfoldable pub create : List ℕ → ℕ → Bool → K → IoResult Mapping × K
  create logical len force k = create_named (cname logical) len force k

  abbrev pub measured : ℕ → Sys ℕ × K → IoResult Mapping × K
  measured fd (failed errno, k) = (fault (os errno), kernel.close fd k)
  measured fd (got len, k) =
      if len == 0 then (fault zero_length, kernel.close fd k) else map_fd fd len k

  abbrev pub opened : Sys ℕ × K → IoResult Mapping × K
  opened (failed errno, k) = (fault (os errno), k)
  opened (got fd, k) = measured fd (kernel.fstat_size fd k)

  abbrev pub attach_named : IoResult (List ℕ) → K → IoResult Mapping × K
  attach_named (fault e) k = (fault e, k)
  attach_named (fine name) k = opened (kernel.shm_open name k)

  -- `attach`
  unfoldable pub attach : List ℕ → K → IoResult Mapping × K
  attach logical k = attach_named (cname logical) k

  abbrev pub unlinked : Sys (Unit {0}) × K → IoResult (Unit {0}) × K
  unlinked (got u, k) = (fine tt, k)
  -- ENOENT is `ErrorKind::NotFound`.
  unlinked (failed errno, k) = if errno == 2 then (fine tt, k) else (fault (os errno), k)

  abbrev pub unlink_named : IoResult (List ℕ) → K → IoResult (Unit {0}) × K
  unlink_named (fault e) k = (fault e, k)
  unlink_named (fine name) k = unlinked (kernel.shm_unlink name k)

  -- `unlink`
  unfoldable pub unlink : List ℕ → K → IoResult (Unit {0}) × K
  unlink logical k = unlink_named (cname logical) k

  -- `Drop for Mapping`
  abbrev pub drop_mapping : Mapping → K → K
  drop_mapping m k = kernel.munmap m.ptr m.len k
