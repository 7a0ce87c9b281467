-- ===== src/Errors.antt =====
-- rust/tenzorbus/src/error.rs: the errors of the crate, and its `Result`. A formatted message is
-- kept as its kind with the numbers that it prints.
use tenzor_bus.Common.{ℕ}

-- The texts of `Error::Invalid`.
pub data Invalidity : Type 0 where
  ndim_exceeds : ℕ → Invalidity
  strides_rank : Invalidity
  shape_implies : ℕ → ℕ → Invalidity
  tensor_requires : ℕ → ℕ → Invalidity
  slot_count_small : Invalidity
  slot_capacity_small : Invalidity
  empty_name : Invalidity

-- The texts of `Error::BadHeader`.
pub data HeaderFault : Type 0 where
  invalid_magic : HeaderFault
  unsupported_version : HeaderFault
  degenerate_geometry : HeaderFault
  exceeds_mapping : HeaderFault

-- The texts of `Error::Capacity`.
pub data Shortage : Type 0 where
  live_producer : Shortage
  maximum_consumers : Shortage

-- The texts of `Error::LeaseViolation`.
pub data Violation : Type 0 where
  recycled : ℕ → ℕ → Violation
  released_twice : Violation

-- `std::io::Error`: an errno, or one of the texts of shm.rs.
pub data IoError : Type 0 where
  os : ℕ → IoError
  contains_nul : IoError
  zero_length : IoError

pub data Error : Type 0 where
  bad_header : HeaderFault → Error
  ring_full : Error
  timeout : Error
  capacity : Shortage → Error
  invalid : Invalidity → Error
  lease_violation : Violation → Error
  io : IoError → Error

pub data Result {ℓ} (A : Type ℓ) : Type ℓ where
  ok : A → Result A
  err : Error → Result A
