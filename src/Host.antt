-- ===== src/Host.antt =====
-- rust/tenzorbus/src/shm.rs: what a process learns of other processes. The kernel's answers are
-- the record `Host`: the text of `/proc/<pid>/stat`, the answer of `kill(pid, 0)`, the clock.
pub mod Liveness
use tenzor_bus.Common.{
  ℕ, zero, suc, ◌+◌, ◌-◌, ◌*◌, ◌%◌, ◌^◌, Bool, true, false, ◌&&◌, ◌||◌, ltb, leb, ◌==◌,
  if◌then◌else◌, u32, Option, none, some, List, [], ◌∷◌, length,
}

pub record Host : Type 0 where
  -- `std::process::id()`
  pub pid : ℕ
  -- the code points of `/proc/<pid>/stat`, if it can be read
  pub stat_text : ℕ → Option (List ℕ)
  -- `kill(pid, 0)` succeeds, or fails by EPERM
  pub signalable : ℕ → Bool
  -- CLOCK_REALTIME in nanoseconds
  pub clock_ns : ℕ

-- `char::is_whitespace`
unfoldable pub is_whitespace : ℕ → Bool
is_whitespace c =
    (leb 9 c && leb c 13)
    || c == 0x20
    || c == 0x85
    || c == 0xa0
    || c == 0x1680
    || (leb 0x2000 c && leb c 0x200a)
    || c == 0x2028
    || c == 0x2029
    || c == 0x202f
    || c == 0x205f
    || c == 0x3000

-- `&text[text.rfind(')')? + 1..]`
unfoldable pub after_last_paren : List ℕ → Option (List ℕ)
after_last_paren [] = none
after_last_paren (c ∷ cs) = elim (after_last_paren cs) [
  | some rest ↦ some rest
  | none ↦ if c == b')' then some cs else none
]

-- `str::split_whitespace`: the words, none of them empty. `split_words` gives the rest of the
-- word that has begun beside the words behind it.
abbrev pub add_word : List ℕ → List (List ℕ) → List (List ℕ)
add_word [] ws = ws
add_word (c ∷ cs) ws = (c ∷ cs) ∷ ws

unfoldable pub split_words : List ℕ → List ℕ × List (List ℕ)
split_words [] = ([], [])
split_words (c ∷ cs) =
    let (w, ws) = split_words cs in if is_whitespace c then ([], add_word w ws) else (c ∷ w, ws)

unfoldable pub split_whitespace : List ℕ → List (List ℕ)
unfolding split_words is_whitespace
split_whitespace cs = let (w, ws) = split_words cs in add_word w ws

-- `str::parse::<u64>`: an optional `+`, then at least one digit, and no overflow.
unfoldable pub parse_digits : ℕ → List ℕ → Option ℕ
parse_digits acc [] = some acc
parse_digits acc (c ∷ cs) =
    let next = acc * 10 + (c - b'0') in
    let rest = parse_digits next cs in
    if leb b'0' c && leb c b'9' && ltb next (2 ^ 64) then rest else none

unfoldable pub parse_u64 : List ℕ → Option ℕ
unfolding parse_digits
parse_u64 [] = none
parse_u64 (c ∷ []) = parse_digits 0 (c ∷ [])
parse_u64 (c ∷ d ∷ cs) = if c == b'+' then parse_digits 0 (d ∷ cs) else parse_digits 0 (c ∷ d ∷ cs)

-- `Iterator::nth`
abbrev pub nth {ℓ} : {A : Type ℓ} → ℕ → List A → Option A
nth n [] = none
nth zero (x ∷ xs) = some x
nth (suc n) (x ∷ xs) = nth n xs

-- The fields that `proc_stat` reads behind the last parenthesis.
unfoldable pub stat_fields : List (List ℕ) → Option (ℕ × ℕ)
unfolding parse_u64
stat_fields [] = none
stat_fields ([] ∷ fields) = none
stat_fields ((state ∷ _) ∷ fields) = elim (nth 19 fields) [
  | none ↦ none
  | some text ↦ elim (parse_u64 text) [ none ↦ none | some start ↦ some (state, start) ]
]

unfoldable pub parse_stat : List ℕ → Option (ℕ × ℕ)
parse_stat text = elim (after_last_paren text) [
  | none ↦ none
  | some rest ↦ stat_fields (split_whitespace rest)
]

module _ (h : Host) where
  unfoldable pub proc_stat : ℕ → Option (ℕ × ℕ)
  proc_stat pid = elim (h.stat_text pid) [ none ↦ none | some text ↦ parse_stat text ]

  unfoldable pub pid_start_token : ℕ → ℕ
  pid_start_token pid = elim (proc_stat pid) [ none ↦ 0 | some (state, start) ↦ u32 start ]

  -- States `Z`, `X` and `x` are processes that can never run again.
  unfoldable pub pid_alive_with_token : ℕ → ℕ → Bool
  pid_alive_with_token pid start_token = if pid == 0 then false else elim (proc_stat pid) [
    | none ↦ h.signalable pid
    | some (state, start) ↦
        if state == b'Z' || state == b'X' || state == b'x'
        then false
        else start_token == 0 || u32 start == start_token
  ]

  unfoldable pub pid_alive : ℕ → Bool
  pid_alive pid = pid_alive_with_token pid 0
