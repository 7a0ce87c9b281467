-- ===== src/System/Inbox.antt =====
-- An abstract view of the ring of rust/tenzorbus/src/ring.rs, without slots' states, reader masks
-- or sequence comparisons: each open consumer has an inbox with at most one message per slot, and
-- each writer has a letter, addressed to some of the open consumers. An action drafts a letter for
-- all open consumers, fills it in, dates it, delivers or withdraws it, hands the oldest message of
-- one inbox out, lets a consumer join or empties the inbox of one that is gone, or does nothing.
pub mod Same
pub mod Letters
pub mod Refine
use tenzor_bus.Common.{
  ℕ, ◌+◌, ◌≤◌, ◌≡◌, ◌≢◌, ◌%◌, ◌^◌, ◌&&◌, u64, unwrap_or, Bool, true, false, ltb, if◌then◌else◌,
  Option, none, some, List, take,
}
use tenzor_bus.Proto.{code, seq_newer}
use tenzor_bus.Common.Bits.{test_bit}
use tenzor_bus.Host.{Host}
use tenzor_bus.Producer.{Header, SlotWriter, overwrite}
use tenzor_bus.Mem.{Mem, Slot, Ring, Consumer}
use tenzor_bus.Consumer.{TensorMeta, lease_data}
use tenzor_bus.Consumer.Scan.{is_pending}
use tenzor_bus.System.{
  System, Step, Reach, here, later, sweeps, registers, finds_full, closes, dies, claims, resigns,
  reserves, finds_none, drops, fills, stamps, commits, aborts, deserts, takes, returns, refused,
}

pub record Message : Type 0 where
  pub sequence : ℕ
  pub timestamp_ns : ℕ
  pub nbytes : ℕ
  pub dtype : ℕ
  pub ndim : ℕ
  pub shape : List ℕ
  pub strides : List ℕ
  pub payload : List ℕ

-- By consumer and slot.
abbrev pub Inboxes : Type 0
Inboxes = ℕ → ℕ → Option Message

abbrev pub message_of : Slot → Message
message_of s = record {
  sequence = s.sequence;
  timestamp_ns = s.timestamp_ns;
  nbytes = s.nbytes;
  dtype = s.dtype;
  ndim = s.ndim;
  shape = s.shape;
  strides = s.strides;
  payload = s.payload;
}

abbrev pub waiting_for : Option Consumer → Slot → Option Message
waiting_for none x = none
waiting_for (some c) x = if is_pending c x then some (message_of x) else none

-- The inboxes that a state of the ring stands for.
abbrev pub inboxes : Ring → System → Inboxes
inboxes r s id k = if ltb k r.slot_count then waiting_for (s.consumers id) (s.mem.slots k) else none

-- What a writer's slot holds, and for whom: the consumers whose bit it carries and who have taken
-- nothing as new.
abbrev pub letter_of : Mem → Option SlotWriter → Option Message
letter_of m none = none
letter_of m (some w) = some (message_of (m.slots w.slot))

abbrev pub addresses : Slot → Option Consumer → Bool
addresses x none = false
addresses x (some c) = seq_newer x.sequence c.last_sequence && test_bit x.mask c.index

abbrev pub is_for : Mem → Option SlotWriter → Option Consumer → Bool
is_for m none o = false
is_for m (some w) o = addresses (m.slots w.slot) o

abbrev pub last_of : Option Consumer → Option ℕ
last_of none = none
last_of (some c) = some c.last_sequence

-- The inboxes, the letters that writers are writing, whom they are for, and the last number that
-- each open consumer has taken.
pub record View : Type 0 where
  pub inbox : Inboxes
  pub letter : ℕ → Option Message
  pub addressed : ℕ → ℕ → Bool
  pub last : ℕ → Option ℕ

abbrev pub view : Ring → System → View
view r s = record {
  inbox = inboxes r s;
  letter = λ i. letter_of s.mem (s.writers i);
  addressed = λ i id. is_for s.mem (s.writers i) (s.consumers id);
  last = λ id. last_of (s.consumers id);
}

pub data Action : Type 0 where
  silent : Action
  joins : ℕ → ℕ → Action
  drafts : ℕ → Host → Header → ℕ → Action
  fills_in : ℕ → List ℕ → Action
  dates : ℕ → ℕ → Action
  delivers : ℕ → ℕ → Message → (ℕ → Bool) → Action
  withdraws : ℕ → Action
  hands_out : ℕ → TensorMeta → List ℕ → Action
  empties : ℕ → Action

-- The lease's metadata and bytes are those of the message.
pub record Shows (t : TensorMeta) (bytes : List ℕ) (x : Message) : Type 0 where
  pub sequence : x.sequence ≡ t.sequence
  pub timestamp_ns : x.timestamp_ns ≡ t.timestamp_ns
  pub nbytes : x.nbytes ≡ t.nbytes
  pub dtype : x.dtype ≡ code t.dtype
  pub ndim : x.ndim ≡ t.ndim
  pub shape : x.shape ≡ t.shape
  pub strides : x.strides ≡ t.strides
  pub payload : take t.nbytes x.payload ≡ bytes

-- What an action does to the inboxes.
abbrev pub Shifts : Action → Inboxes → Inboxes → Type 0
Shifts (delivers i slot x audience) before after =
    ((id : ℕ) → (before id slot ≡ none) × (after id slot ≡ (if audience id then some x else none)))
    × ((id k : ℕ) → slot ≢ k → after id k ≡ before id k)
Shifts (hands_out id t bytes) before after =
    (x : Message) × (before id t.slot_index ≡ some x)
    × Shows t bytes x
    × ((k : ℕ) (y : Message) → before id k ≡ some y → x.sequence ≤ y.sequence)
    × (after id t.slot_index ≡ none)
    × ((k : ℕ) → t.slot_index ≢ k → after id k ≡ before id k)
    × ((other k : ℕ) → id ≢ other → after other k ≡ before other k)
Shifts (empties id) before after =
    ((k : ℕ) → after id k ≡ none) × ((other k : ℕ) → id ≢ other → after other k ≡ before other k)
Shifts _ before after = (id k : ℕ) → after id k ≡ before id k

-- The header of a letter is that of its reservation.
pub record IsDraft (h : Host) (hd : Header) (sequence : ℕ) (x : Message) : Type 0 where
  pub number : x.sequence ≡ sequence
  pub time : x.timestamp_ns ≡ unwrap_or hd.timestamp_ns h.clock_ns
  pub nbytes : x.nbytes ≡ u64 hd.nbytes
  pub dtype : x.dtype ≡ code hd.dtype
  pub ndim : x.ndim ≡ hd.ndim % 2 ^ 8
  pub shape : x.shape ≡ hd.shape
  pub strides : x.strides ≡ hd.strides

-- What an action does to the letters.
abbrev pub Writes : Action → (ℕ → Option Message) → (ℕ → Option Message) → Type 0
Writes (drafts i h hd sequence) before after =
    (x : Message) × (after i ≡ some x)
    × IsDraft h hd sequence x
    × ((j : ℕ) → i ≢ j → after j ≡ before j)
Writes (fills_in i bytes) before after =
    (x : Message) × (before i ≡ some x)
    × (after i ≡ some (record x { payload = overwrite bytes x.payload }))
    × ((j : ℕ) → i ≢ j → after j ≡ before j)
Writes (dates i ns) before after =
    (x : Message) × (before i ≡ some x)
    × (after i ≡ some (record x { timestamp_ns = ns }))
    × ((j : ℕ) → i ≢ j → after j ≡ before j)
Writes (delivers i slot x audience) before after =
    (before i ≡ some x) × (after i ≡ none) × ((j : ℕ) → i ≢ j → after j ≡ before j)
Writes (withdraws i) before after = (after i ≡ none) × ((j : ℕ) → i ≢ j → after j ≡ before j)
Writes _ before after = (j : ℕ) → after j ≡ before j

abbrev pub is_later : ℕ → Option Message → Bool
is_later n none = false
is_later n (some x) = ltb n x.sequence

abbrev pub is_before : Option ℕ → ℕ → Bool
is_before none sequence = false
is_before (some last) sequence = ltb last sequence

-- What an action does to whom the letters are for. A new one is for the consumers that are open and
-- have taken no such number yet; a consumer that takes a message is not addressed any more by
-- letters with smaller numbers.
abbrev pub Addresses : Action → View → View → Type 0
Addresses (drafts i h hd sequence) before after =
    ((id : ℕ) → after.addressed i id ≡ is_before (before.last id) sequence)
    × ((j id : ℕ) → i ≢ j → after.addressed j id ≡ before.addressed j id)
Addresses (delivers i slot x audience) before after =
    ((id : ℕ) → before.addressed i id ≡ audience id)
    × ((id : ℕ) → after.addressed i id ≡ false)
    × ((j id : ℕ) → i ≢ j → after.addressed j id ≡ before.addressed j id)
Addresses (withdraws i) before after =
    ((id : ℕ) → after.addressed i id ≡ false)
    × ((j id : ℕ) → i ≢ j → after.addressed j id ≡ before.addressed j id)
Addresses (hands_out id t bytes) before after =
    ((j : ℕ)
      → after.addressed j id ≡ (before.addressed j id && is_later t.sequence (before.letter j)))
    × ((j other : ℕ) → id ≢ other → after.addressed j other ≡ before.addressed j other)
Addresses (empties id) before after =
    ((j : ℕ) → after.addressed j id ≡ false)
    × ((j other : ℕ) → id ≢ other → after.addressed j other ≡ before.addressed j other)
Addresses _ before after = (j id : ℕ) → after.addressed j id ≡ before.addressed j id

-- What an action does to the consumers' last numbers.
abbrev pub Opens : Action → (ℕ → Option ℕ) → (ℕ → Option ℕ) → Type 0
Opens (joins id last) before after =
    (before id ≡ none) × (after id ≡ some last) × ((j : ℕ) → id ≢ j → after j ≡ before j)
Opens (empties id) before after = (after id ≡ none) × ((j : ℕ) → id ≢ j → after j ≡ before j)
Opens (hands_out id t bytes) before after =
    (after id ≡ some t.sequence) × ((j : ℕ) → id ≢ j → after j ≡ before j)
Opens _ before after = (j : ℕ) → after j ≡ before j

pub record Does (a : Action) (before after : View) : Type 0 where
  pub moves : Shifts a before.inbox after.inbox
  pub writes : Writes a before.letter after.letter
  pub addresses : Addresses a before after
  pub opens : Opens a before.last after.last

-- The action that a step is, seen from the inboxes.
abbrev pub action_of : {r : Ring} {s t : System} → Step r s t → Action
action_of (sweeps h sees) = silent
action_of (registers id h {c} unused unowned sees e) = joins id c.last_sequence
action_of (finds_full h sees e) = silent
action_of (closes id h e) = empties id
action_of (dies id) = empties id
action_of (claims h n) = silent
action_of (resigns h n) = silent
action_of (reserves id h hd nbytes {a} unused sees e) = drafts id h hd a.sequence
action_of (finds_none h hd sees e) = silent
action_of drops = silent
action_of (fills id bytes e) = fills_in id bytes
action_of (stamps id ns e) = dates id ns
action_of {s} (commits id {w} e) =
    delivers id w.slot (message_of (s.mem.slots w.slot))
      (λ c. addresses (s.mem.slots w.slot) (s.consumers c))
action_of (aborts id h e) = withdraws id
action_of (deserts id) = withdraws id
action_of {s} (takes id l h {c} {t} known unused stale e) = hands_out id t (lease_data t s.mem)
action_of (returns l h e known done) = silent
action_of (refused l h c e gone no_release) = silent

unfoldable pub steps : {r : Ring} {s t : System} → Reach r s t → ℕ
steps here = 0
steps (later p st) = steps p + 1
