-- ===== src/Names.antt =====
-- rust/tenzorbus/src/ring.rs, `safe_name`: the name of a ring as the system may see it. A text is
-- the list of its code points.
pub mod Safe
use tenzor_bus.Common.{
  ℕ, zero, suc, Bool, true, false, ◌&&◌, ◌||◌, leb, ◌==◌, if◌then◌else◌, take, List, [], ◌∷◌,
}
use tenzor_bus.Errors.{Result, ok, err, invalid, empty_name}
use tenzor_bus.Host.{is_whitespace}

-- `str::trim`
unfoldable pub trim_start : List ℕ → List ℕ
trim_start [] = []
trim_start (c ∷ cs) = let rest = trim_start cs in if is_whitespace c then rest else c ∷ cs

abbrev pub keep_unless_blank : ℕ → List ℕ → List ℕ
keep_unless_blank c [] = if is_whitespace c then [] else c ∷ []
keep_unless_blank c (d ∷ ds) = c ∷ d ∷ ds

unfoldable pub trim_end : List ℕ → List ℕ
trim_end [] = []
trim_end (c ∷ cs) = keep_unless_blank c (trim_end cs)

-- `c.is_ascii_alphanumeric() || c == '_' || c == '.' || c == '-'`
unfoldable pub is_safe : ℕ → Bool
is_safe c =
    (leb b'0' c && leb c b'9')
    || (leb b'A' c && leb c b'Z')
    || (leb b'a' c && leb c b'z')
    || c == b'_'
    || c == b'.'
    || c == b'-'

abbrev pub clean : ℕ → ℕ
clean c = if is_safe c then c else b'_'

abbrev pub clean_all : List ℕ → List ℕ
clean_all [] = []
clean_all (c ∷ cs) = clean c ∷ clean_all cs

abbrev pub bounded : List ℕ → Result (List ℕ)
bounded [] = err (invalid empty_name)
bounded (c ∷ cs) = ok (take 64 (c ∷ cs))

-- `safe_name`
unfoldable pub safe_name : List ℕ → Result (List ℕ)
safe_name name = bounded (clean_all (trim_end (trim_start name)))
