-- ===== src/Proto/Codes.antt =====
-- The two encodings of an element type, by code and by NumPy name.
use Prim.Native.String.{String}
use text.Mathlib.TextEquality.{eq_iff}
use tenzor_bus.Common.{ℕ, ◌≡◌, some, ◌↔◌, refl, subst, arith}
use tenzor_bus.Proto.{DType, f32, code, from_code, numpy_name, from_numpy_name}

from_code-code : (d : DType) → from_code (code d) ≡ some d
unfolding from_code code
from_code-code f32 = refl
from_code-code d = refl

code-from_code : (c : ℕ) {d : DType} → from_code c ≡ some d → code d ≡ c
unfolding from_code code
code-from_code c h = ground arith

-- `from_code` is the inverse of `code`: a byte decodes to an element type exactly when it is
-- that type's code.
pub from_code_iff : (c : ℕ) (d : DType) → (from_code c ≡ some d) ↔ (code d ≡ c)
from_code_iff c d = (code-from_code c, λ e. subst (λ k. from_code k ≡ some d) e (from_code-code d))

from_numpy_name-numpy_name : (d : DType) → from_numpy_name (numpy_name d) ≡ some d
unfolding from_numpy_name numpy_name
from_numpy_name-numpy_name f32 = refl
from_numpy_name-numpy_name d = refl

numpy_name-from_numpy_name :
    (s : String) {d : DType} → from_numpy_name s ≡ some d → numpy_name d ≡ s
unfolding from_numpy_name numpy_name
numpy_name-from_numpy_name s h = ground (
  arith,
  eq_iff s "float32",
  eq_iff s "float16",
  eq_iff s "uint8",
  eq_iff s "int8",
  eq_iff s "int16",
  eq_iff s "int32",
  eq_iff s "int64",
  eq_iff s "float64",
  eq_iff s "bool",
)

-- `from_numpy_name` is the inverse of `numpy_name`: a text names an element type exactly when it
-- is that type's NumPy spelling.
pub from_numpy_name_iff :
    (s : String) (d : DType) → (from_numpy_name s ≡ some d) ↔ (numpy_name d ≡ s)
from_numpy_name_iff s d = (
  numpy_name-from_numpy_name s,
  λ e. subst (λ k. from_numpy_name k ≡ some d) e (from_numpy_name-numpy_name d),
)
