-- ===== src/Lab/Options.antt =====
-- rust/tenzorbus/src/bin/tenzorbus-lab.rs: the arguments. A text is the list of its code points;
-- `none` is a panic, on an option whose value is no `u64`.
use tenzor_bus.Common.{
  codes, ℕ, Bool, true, false, ◌||◌, ltb, if◌then◌else◌, Option, none, some, List, [], ◌∷◌,
}
use tenzor_bus.Host.{parse_u64}
use tenzor_bus.Create.{RingOptions, same_bytes}
use tenzor_bus.Producer.{Backpressure, block, drop_newest}

abbrev pub head_of : List (List ℕ) → Option (List ℕ)
head_of [] = none
head_of (a ∷ args) = some a

-- The argument behind the first that is `key`.
unfoldable pub arg : List (List ℕ) → List ℕ → Option (List ℕ)
arg [] key = none
arg (a ∷ args) key = let rest = arg args key in if same_bytes a key then head_of args else rest

-- A value that is there must be a number.
abbrev pub parsed : Option (List ℕ) → ℕ → Option ℕ
parsed none default = some default
parsed (some v) default = parse_u64 v

unfoldable pub num : List (List ℕ) → List ℕ → ℕ → Option ℕ
num args key default = parsed (arg args key) default

unfoldable pub flag : List (List ℕ) → List ℕ → Bool
flag [] key = false
flag (a ∷ args) key = same_bytes a key || flag args key

infixl 5 ◌>>=◌
abbrev ◌>>=◌ : {A B : Type 0} → Option A → (A → Option B) → Option B
none >>= f = none
some a >>= f = f a

-- The commands of `main`.
pub data Command : Type 0 where
  create unlink produce consume abandon stats usage : Command

abbrev pub named : List ℕ → Command
named text =
    if same_bytes text (codes "create")
    then create
    else if same_bytes text (codes "unlink")
    then unlink
    else if same_bytes text (codes "produce")
    then produce
    else if same_bytes text (codes "consume")
    then consume
    else if same_bytes text (codes "abandon")
    then abandon
    else if same_bytes text (codes "stats")
    then stats
    else usage

-- The first argument behind the program's name, or "help".
unfoldable pub command : List (List ℕ) → Command
command [] = usage
command (program ∷ []) = usage
command (program ∷ text ∷ args) = named text

abbrev pub or_lab : Option (List ℕ) → List ℕ
or_lab none = codes "lab"
or_lab (some name) = name

unfoldable pub ring_name : List (List ℕ) → List ℕ
ring_name args = or_lab (arg args (codes "--ring"))

-- The options with which "create" makes the ring.
unfoldable pub create_options : List (List ℕ) → Option RingOptions
create_options args = do
  slots ← num args (codes "--slots") 8
  capacity ← num args (codes "--capacity") 1048576
  some (record { slot_count = slots; slot_capacity = capacity; force = true })

-- What `produce` reads of its arguments, but for the pauses between its publications.
pub record ProduceOptions : Type 0 where
  pub count : ℕ
  pub elements : ℕ
  pub timeout_ms : ℕ
  pub policy : Backpressure
  pub vary : Bool
  pub start_sequence : Option ℕ
  pub duration_s : ℕ

abbrev pub policy_of : Option (List ℕ) → Backpressure
policy_of none = block
policy_of (some text) = if same_bytes text (codes "drop_newest") then drop_newest else block

abbrev pub start_of : Option (List ℕ) → Option (Option ℕ)
start_of none = some none
start_of (some text) = do n ← parse_u64 text; some (some n)

unfoldable pub produce_options : List (List ℕ) → Option ProduceOptions
produce_options args = do
  count ← num args (codes "--count") 1000
  elements ← num args (codes "--elements") 1024
  timeout_ms ← num args (codes "--timeout-ms") 5000
  stagger_us ← num args (codes "--stagger-us") 0
  start ← start_of (arg args (codes "--start-sequence"))
  hold_ms ← num args (codes "--hold-ms") 0
  duration_s ← num args (codes "--duration-s") 0
  some (record {
    count = count;
    elements = elements;
    timeout_ms = timeout_ms;
    policy = policy_of (arg args (codes "--policy"));
    vary = flag args (codes "--vary");
    start_sequence = start;
    duration_s = duration_s;
  })

-- What `consume` reads of its arguments, but for its pauses: `until_idle` says whether a quiet
-- stream is an end, and `wait_ms` is how long `next` waits.
pub record ConsumeOptions : Type 0 where
  pub expect : ℕ
  pub wait_ms : ℕ
  pub die_after : ℕ
  pub until_idle : Bool

-- How long `next` waits.
abbrev pub wait_of : ℕ → ℕ → ℕ
wait_of until_idle_ms timeout_ms = if ltb 0 until_idle_ms then until_idle_ms else timeout_ms

unfoldable pub consume_options : List (List ℕ) → Option ConsumeOptions
consume_options args = do
  expect ← num args (codes "--expect") 1000
  timeout_ms ← num args (codes "--timeout-ms") 10000
  sleep_max_us ← num args (codes "--sleep-max-us") 0
  die_after ← num args (codes "--die-after") 0
  until_idle_ms ← num args (codes "--until-idle-ms") 0
  some (record {
    expect = expect;
    wait_ms = wait_of until_idle_ms timeout_ms;
    die_after = die_after;
    until_idle = ltb 0 until_idle_ms;
  })
