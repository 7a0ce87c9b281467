-- ===== src/Host/Liveness.antt =====
-- How `/proc/<pid>/stat` is read, and what the start token is good for.
use tenzor_bus.Common.{
  ℕ, ◌≡◌, ◌≢◌, refl, true, false, none, some, List, [], ◌∷◌, ◌++◌, arith, ne→neb,
}
use tenzor_bus.Host.{
  Host, after_last_paren, parse_stat, proc_stat, pid_start_token, pid_alive_with_token, pid_alive,
}

-- The list has no closing parenthesis.
abbrev pub NoParen : List ℕ → Type 0
NoParen [] = Unit {0}
NoParen (c ∷ cs) = (c ≢ b')') × NoParen cs

after_last_paren-none : (cs : List ℕ) → NoParen cs → after_last_paren cs ≡ none
unfolding after_last_paren
after_last_paren-none [] h = refl
after_last_paren-none (c ∷ cs) h = rw (after_last_paren-none cs h.1, ne→neb c b')' h.0)

after_last_paren-append :
    (pre tail : List ℕ) → NoParen tail → after_last_paren (pre ++ b')' ∷ tail) ≡ some tail
unfolding after_last_paren
after_last_paren-append [] tail h = rw (after_last_paren-none tail h)
after_last_paren-append (c ∷ pre) tail h = rw (after_last_paren-append pre tail h)

-- Whatever stands before the last parenthesis, the command's name with its spaces and parentheses
-- included, two texts with the same fields behind it read alike.
pub parse_stat-ignores_name :
    (pre pre' tail : List ℕ)
    → NoParen tail
    → parse_stat (pre ++ b')' ∷ tail) ≡ parse_stat (pre' ++ b')' ∷ tail)
unfolding parse_stat
parse_stat-ignores_name pre pre' tail h =
    ground (arith, after_last_paren-append pre tail h, after_last_paren-append pre' tail h)

module _ (h : Host) where
  -- A process that can be read and is alive is alive under its own start token, and under no other
  -- nonzero token: a process that inherits the pid is told apart.
  pub pid_alive-own_token :
      (pid state start token : ℕ)
      → proc_stat h pid ≡ some (state, start)
      → pid_alive h pid ≡ true
      → token ≢ 0
      → token ≢ pid_start_token h pid
      → (pid_alive_with_token h pid (pid_start_token h pid) ≡ true)
        × (pid_alive_with_token h pid token ≡ false)
  unfolding pid_alive pid_alive_with_token pid_start_token
  pid_alive-own_token pid state start token e alive nonzero other = (ground arith, ground arith)
