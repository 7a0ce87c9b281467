-- ===== src/Tests/Locking.antt =====
-- Schedules of the registry lock.
use tenzor_bus.Host.{Host, pid_alive_with_token, proc_stat}
use tenzor_bus.Common.{arith, none, ◌||◌, ◌+◌, ℕ, ◌≡◌, refl, true, not, ◌==◌, List, ◌++◌}
use tenzor_bus.Common.{replicate}
use tenzor_bus.Futex.{inside, holds, run, fresh}
use tenzor_bus.Futex.Exclusion.{lock_excludes}

-- Thread `i` runs in process `i + 7`.
abbrev pid_of : ℕ → ℕ
pid_of i = i + 7

abbrev no_token : ℕ → ℕ
no_token i = 0

-- Thread 0 gets the lock while thread 1 waits for it.
abbrev busy : List ℕ
busy = replicate 4 0 ++ replicate 5 1

-- A system without procfs: there are no start tokens, and `kill` finds every process.
abbrev no_procfs : Host
no_procfs = record { pid = 7; stat_text = λ p. none; signalable = λ p. true; clock_ns = 0 }

holder : holds ((run (pid_alive_with_token no_procfs) pid_of no_token busy fresh).places 0) ≡ true
unfolding run pid_alive_with_token proc_stat
holder = refl

found : (k : ℕ) → pid_alive_with_token no_procfs (pid_of k) 0 ≡ true
unfolding pid_alive_with_token proc_stat
found k = ground arith

lock_excludes_example : ◌≡◌ {A = ℕ} 0 0
lock_excludes_example =
    lock_excludes (pid_alive_with_token no_procfs) pid_of no_token found (λ k j. found k) busy 0 0
      holder holder

-- Every process is alive, and has its own start token. Thread 2 reads that process 7 is the owner;
-- then thread 0 gives the lock to thread 1, whose token thread 2 reads next. No process 7 with this
-- token exists, so thread 2 takes the lock from the living thread 1.
abbrev token_of : ℕ → ℕ
token_of i = i + 70

abbrev crossed : List ℕ
crossed = replicate 4 0 ++ replicate 6 2 ++ replicate 4 0 ++ replicate 4 1 ++ replicate 5 2

robbed_alive :
    ((run (λ p t. t == 0 || t == p + 63) pid_of token_of crossed fresh).places 1 ≡ inside)
    × ((run (λ p t. t == 0 || t == p + 63) pid_of token_of crossed fresh).places 2 ≡ inside)
unfolding run
robbed_alive = (refl, refl)

-- Thread 2, of process 9, dies with the lock. Threads 0 and 1 both read it as the owner before
-- either of them stores itself, and both get the lock.
abbrev robbery : List ℕ
robbery = replicate 4 2 ++ replicate 8 0 ++ replicate 8 1 ++ replicate 3 0 ++ replicate 3 1

two_thieves :
    ((run (λ p t. not (p == 9)) pid_of no_token robbery fresh).places 0 ≡ inside)
    × ((run (λ p t. not (p == 9)) pid_of no_token robbery fresh).places 1 ≡ inside)
unfolding run
two_thieves = (refl, refl)
