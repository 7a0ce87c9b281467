-- ===== src/Seqlock.antt =====
-- rust/tenzorbus/src/ring.rs: one slot, one store and one load at a time. The producer's stores
-- (`reserve_header`, `publish`, `commit`, `release_slot`), the reaper's, and the loads of a
-- consumer (`scan_oldest`, `read_validated`) interleave in any order; a load sees the last store.
-- The producer has one reservation at a time; what it publishes in the other slots only moves the
-- counter of numbers. The header's words are known by their offset, the payload follows them.
pub mod Run
pub mod Fields
pub mod Stores
pub mod Seals
pub mod Changes
pub mod Loads
pub mod Snapshot
pub mod Lease
use tenzor_bus.Common.{
  ◌*◌, ℕ, zero, suc, ◌+◌, Bool, true, false, ◌&&◌, ◌||◌, ◌==◌, if◌then◌else◌, update, List, [], ◌∷◌,
  ◌++◌,
}
use tenzor_bus.Common.Bits.{test_bit, clear_bit, count_ones}
use tenzor_bus.Proto.{state_free, state_committed, state_writing, slot_header_size, max_ndim}

-- What the producer writes under a number: the value of each word, and the reader mask.
pub record Publication : Type 0 where
  pub word : ℕ → ℕ
  pub mask : ℕ

abbrev pub timestamp_word : ℕ
timestamp_word = 16

abbrev pub nbytes_word : ℕ
nbytes_word = 24

abbrev pub dtype_word : ℕ
dtype_word = 32

abbrev pub ndim_word : ℕ
ndim_word = 33

abbrev pub readers_word : ℕ
readers_word = 34

abbrev pub flags_word : ℕ
flags_word = 36

abbrev pub shape_word : ℕ
shape_word = 40

abbrev pub strides_word : ℕ
strides_word = 72

abbrev pub pid_word : ℕ
pid_word = 104

abbrev pub token_word : ℕ
token_word = 120

-- `shape[d]` and `strides[d]` for `k` dimensions from `d` on.
abbrev pub dims : ℕ → ℕ → List ℕ
dims d zero = []
dims d (suc k) = (shape_word + d * 4) ∷ (strides_word + d * 4) ∷ dims (d + 1) k

-- The words that `reserve_header` stores before and after the number, in its order.
abbrev pub owners : List ℕ
owners = pid_word ∷ token_word ∷ []

abbrev pub header : List ℕ
header = timestamp_word ∷ nbytes_word ∷ dtype_word ∷ ndim_word ∷ flags_word ∷ dims 0 max_ndim

-- The words that `read_validated` loads, in its order.
abbrev pub loads : List ℕ
loads = ndim_word ∷ dtype_word ∷ nbytes_word ∷ timestamp_word ∷ dims 0 max_ndim

-- `k` words from offset `o` on.
unfoldable pub words_from : ℕ → ℕ → List ℕ
words_from o zero = []
words_from o (suc k) = o ∷ words_from (o + 1) k

-- The bytes of the payload, one after the other.
abbrev pub payload_words : Publication → List ℕ
payload_words p = words_from slot_header_size (p.word nbytes_word)

-- The producer's next store for number `n`, with the words that are left of a group. A slot that is
-- given back is cleared by its writer or, if that is dead (`true`), by another process.
pub data Writer : Type 0 where
  idle : Writer
  marking : ℕ → Writer
  owning : ℕ → List ℕ → Writer
  numbering : ℕ → Writer
  filling : ℕ → List ℕ → Writer
  masking counting advancing : ℕ → Writer
  copying : ℕ → List ℕ → Writer
  committing : ℕ → Writer
  clearing uncounting freeing : ℕ → Bool → Writer
  returning : ℕ → Writer

-- The consumer's next load, with the number that it expects, the words that it has loaded and the
-- mask.
pub data Reader : Type 0 where
  away spotting sighting naming : Reader
  checking comparing : ℕ → Reader
  loading : ℕ → List ℕ → List (ℕ × ℕ) → Reader
  rechecking recomparing judging : ℕ → List (ℕ × ℕ) → ℕ → Reader
  taken : ℕ → List (ℕ × ℕ) → Reader

-- The words of the slot, the counter of numbers, and what was to be published under each number.
pub record World : Type 0 where
  pub state : ℕ
  pub sequence : ℕ
  pub mask : ℕ
  pub word : ℕ → ℕ
  pub next : ℕ
  pub book : ℕ → Publication
  pub writer : Writer
  pub reader : Reader

abbrev pub put : ℕ → ℕ → World → World
put o v w = record w { word = update w.word o v }

abbrev pub put_of : ℕ → ℕ → World → World
put_of n o w = put o ((w.book n).word o) w

-- `reserve_header` with the slot chosen, and the copy and the commit of `publish`; then
-- `release_slot` and the end of `reap_dead`.
abbrev pub store_at : Writer → World → World
store_at idle w = w
store_at (marking n) w = record w { state = state_writing; writer = owning n owners }
store_at (owning n []) w = record w { writer = numbering n }
store_at (owning n (o ∷ os)) w = record (put_of n o w) { writer = owning n os }
store_at (numbering n) w = record w { sequence = n; writer = filling n header }
store_at (filling n []) w = record w { writer = masking n }
store_at (filling n (o ∷ os)) w = record (put_of n o w) { writer = filling n os }
store_at (masking n) w = record w { mask = (w.book n).mask; writer = counting n }
store_at (counting n) w = record (put readers_word (count_ones 64 (w.book n).mask) w) {
  writer = advancing n;
}
store_at (advancing n) w = record w { next = n + 1; writer = copying n (payload_words (w.book n)) }
store_at (copying n []) w = record w { writer = committing n }
store_at (copying n (o ∷ os)) w = record (put_of n o w) { writer = copying n os }
store_at (committing n) w = record w { state = state_committed; writer = idle }
store_at (clearing n dead) w = record w { mask = 0; writer = uncounting n dead }
store_at (uncounting n dead) w = record (put readers_word 0 w) { writer = freeing n dead }
store_at (freeing n dead) w = record w {
  state = state_free;
  writer = if dead then idle else returning n;
}
store_at (returning n) w = record w { next = if w.next == n + 1 then n else w.next; writer = idle }

-- The test of `reserve_header` on this slot, and what is to be published.
abbrev pub may_begin : World → Bool
may_begin w = w.state == state_free || (w.state == state_committed && w.mask == 0)

abbrev pub begin_at : Writer → Publication → World → World
begin_at idle p w =
    if may_begin w then record w { book = update w.book w.next p; writer = marking w.next } else w
begin_at _ p w = w

-- The writer is dropped without a commit.
abbrev pub abort_at : Writer → World → World
abort_at (copying n os) w = record w { writer = clearing n false }
abort_at (committing n) w = record w { writer = clearing n false }
abort_at _ w = w

-- The process that stores here dies. Whoever reaps finds the slot in WRITING, or nothing to do.
abbrev pub crash_at : Writer → World → World
crash_at idle w = w
crash_at (marking n) w = record w { writer = idle }
crash_at (returning n) w = record w { writer = idle }
crash_at (owning n os) w = record w { writer = clearing n true }
crash_at (numbering n) w = record w { writer = clearing n true }
crash_at (filling n os) w = record w { writer = clearing n true }
crash_at (masking n) w = record w { writer = clearing n true }
crash_at (counting n) w = record w { writer = clearing n true }
crash_at (advancing n) w = record w { writer = clearing n true }
crash_at (copying n os) w = record w { writer = clearing n true }
crash_at (committing n) w = record w { writer = clearing n true }
crash_at (clearing n dead) w = record w { writer = clearing n true }
crash_at (uncounting n dead) w = record w { writer = clearing n true }
crash_at (freeing n dead) w = record w { writer = clearing n true }

-- `set_timestamp_ns` of a writer that is not yet committed.
abbrev pub stamped : ℕ → ℕ → World → World
stamped n t w = record (put timestamp_word t w) {
  book =
      update w.book n
        (record { word = update (w.book n).word timestamp_word t; mask = (w.book n).mask });
}

abbrev pub stamp_at : Writer → ℕ → World → World
stamp_at (copying n os) t w = stamped n t w
stamp_at (committing n) t w = stamped n t w
stamp_at _ t w = w

-- `k` numbers go to publications in other slots.
abbrev pub elsewhere_at : Writer → ℕ → World → World
elsewhere_at idle k w = record w { next = w.next + k }
elsewhere_at (clearing n true) k w = record w { next = w.next + k }
elsewhere_at (uncounting n true) k w = record w { next = w.next + k }
elsewhere_at (freeing n true) k w = record w { next = w.next + k }
elsewhere_at _ k w = w
