-- ===== src/Python/Writer.antt =====
-- rust/tenzorbus-py/src/lib.rs, `PySlotWriter`: a reserved slot that refuses to be published or
-- given back while a writable view of it is alive. The ring enters as the operations of a
-- `SlotWriter` on a memory of any type.
pub mod Once
use tenzor_bus.Common.{
  ℕ, ◌+◌, ◌-◌, ◌≡◌, Bool, true, false, ltb, if◌then◌else◌, Option, none, some, List, [], ◌∷◌,
}
use tenzor_bus.Proto.{DType}
use tenzor_bus.Producer.{SlotWriter, PublishResult}
use tenzor_bus.Python.Raise.{
  PyResult, returns, raises, runtime_error, buffer_error, writer_finished, commit_with_view,
  abort_with_view, interpreter,
}

-- `SlotWriter` as the bindings use it; `give_up` is both `abort` and a drop without a commit.
pub record WriterApi (M : Type 0) : Type 0 where
  pub commit : SlotWriter → M → PublishResult × M
  pub give_up : SlotWriter → M → M
  pub set_timestamp_ns : SlotWriter → ℕ → M → M

pub record PySlotWriter : Type 0 where
  pub writer : Option SlotWriter
  pub dtype : DType
  pub shape : List ℕ
  pub exports : ℕ

abbrev pub new_writer : DType → List ℕ → SlotWriter → PySlotWriter
new_writer dtype shape w = record { writer = some w; dtype = dtype; shape = shape; exports = 0 }

-- The getters: `get` picks the field.
abbrev pub getter : (SlotWriter → ℕ) → Option SlotWriter → PyResult ℕ
getter get none = raises runtime_error writer_finished
getter get (some w) = returns (get w)

module _ (p : PySlotWriter) where
  unfoldable pub sequence : PyResult ℕ
  sequence = getter (λ w. w.sequence) p.writer

  unfoldable pub slot_index : PyResult ℕ
  slot_index = getter (λ w. w.slot) p.writer

  -- `nbytes` and `__len__`
  unfoldable pub nbytes : PyResult ℕ
  nbytes = getter (λ w. w.nbytes) p.writer

-- `__getbuffer__`; `filled` tells whether `PyBuffer_FillInfo` succeeds.
unfoldable pub get_buffer : Bool → PySlotWriter → PyResult (Unit {0}) × PySlotWriter
get_buffer filled p = elim (p.writer) [
  | none ↦ (raises runtime_error writer_finished, p)
  | some w ↦
      if filled
      then (returns tt, record p { exports = p.exports + 1 })
      else (raises buffer_error interpreter, p)
]

-- `__releasebuffer__`
unfoldable pub release_buffer : PySlotWriter → PySlotWriter
release_buffer p = record p { exports = p.exports - 1 }

module _ {M : Type 0} (api : WriterApi M) where
  abbrev pub stamp : Option SlotWriter → ℕ → M → PyResult (Unit {0}) × M
  stamp none ns m = (raises runtime_error writer_finished, m)
  stamp (some w) ns m = (returns tt, api.set_timestamp_ns w ns m)

  unfoldable pub set_timestamp_ns : ℕ → PySlotWriter → M → PyResult (Unit {0}) × M
  set_timestamp_ns ns p m = stamp p.writer ns m

  abbrev pub commit_taken :
      Option SlotWriter → PySlotWriter → M → PyResult PublishResult × PySlotWriter × M
  commit_taken none p m = (raises runtime_error writer_finished, p, m)
  commit_taken (some w) p m =
      let (res, m') = api.commit w m in (returns res, record p { writer = none }, m')

  unfoldable pub commit : PySlotWriter → M → PyResult PublishResult × PySlotWriter × M
  commit p m =
      if ltb 0 p.exports
      then (raises buffer_error commit_with_view, p, m)
      else commit_taken p.writer p m

  abbrev pub abort_taken :
      Option SlotWriter → PySlotWriter → M → PyResult (Unit {0}) × PySlotWriter × M
  abort_taken none p m = (returns tt, p, m)
  abort_taken (some w) p m = (returns tt, record p { writer = none }, api.give_up w m)

  unfoldable pub abort : PySlotWriter → M → PyResult (Unit {0}) × PySlotWriter × M
  abort p m =
      if ltb 0 p.exports
      then (raises buffer_error abort_with_view, p, m)
      else abort_taken p.writer p m

  abbrev pub forget_result :
      PyResult PublishResult × PySlotWriter × M → PyResult Bool × PySlotWriter × M
  forget_result (returns res, p, m) = (returns false, p, m)
  forget_result (raises c e, p, m) = (raises c e, p, m)

  abbrev pub answer_false :
      PyResult (Unit {0}) × PySlotWriter × M → PyResult Bool × PySlotWriter × M
  answer_false (returns u, p, m) = (returns false, p, m)
  answer_false (raises c e, p, m) = (raises c e, p, m)

  -- `__exit__`
  unfoldable pub exit : Bool → PySlotWriter → M → PyResult Bool × PySlotWriter × M
  exit raised p m = if raised then answer_false (abort p m) else forget_result (commit p m)

  abbrev pub drop_writer : Option SlotWriter → M → M
  drop_writer none m = m
  drop_writer (some w) m = api.give_up w m

  -- `Drop for PySlotWriter`
  unfoldable pub drop : PySlotWriter → M → M
  drop p m = drop_writer p.writer m

-- What happens to a writer while it exists.
pub data Event (M : Type 0) : Type 0 where
  opens_view : Bool → Event M
  closes_view : Event M
  stamps : ℕ → Event M
  commits : Event M
  aborts : Event M
  exits : Bool → Event M
  others : (M → M) → Event M

module _ {M : Type 0} (api : WriterApi M) where
  unfoldable pub event : Event M → PySlotWriter → M → PySlotWriter × M
  unfolding get_buffer release_buffer set_timestamp_ns commit abort exit
  event (opens_view filled) p m = ((get_buffer filled p).1, m)
  event closes_view p m = (release_buffer p, m)
  event (stamps ns) p m = (p, (set_timestamp_ns api ns p m).1)
  event commits p m = let (res, p', m') = commit api p m in (p', m')
  event aborts p m = let (res, p', m') = abort api p m in (p', m')
  event (exits raised) p m = let (res, p', m') = exit api raised p m in (p', m')
  event (others f) p m = (p, f m)

  unfoldable pub events : List (Event M) → PySlotWriter → M → PySlotWriter × M
  events [] p m = (p, m)
  events (e ∷ es) p m = let (p', m') = event e p m in events es p' m'
