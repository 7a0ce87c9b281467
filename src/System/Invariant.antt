-- ===== src/System/Invariant.antt =====
-- What holds of every reachable state of the ring.
use tenzor_bus.Common.{◌∙◌, ℕ, ◌<◌, ◌≡◌, true, take, some}
use tenzor_bus.Common.Bits.{test_bit}
use tenzor_bus.Proto.{max_consumers, state_committed, state_writing}
use tenzor_bus.Mem.{Mem, Ring, Consumer}
use tenzor_bus.Registry.{is_active}
use tenzor_bus.Registry.Reap.{SameTensor}
use tenzor_bus.Producer.{SlotWriter}
use tenzor_bus.System.{Held, System}

-- The leased slot still carries the leased publication, addressed to its consumer, with the bytes
-- that the lease showed when it was taken.
pub record SlotHolds (r : Ring) (m : Mem) (c : Consumer) (x : Held) : Type 0 where
  pub in_range : x.meta.slot_index < r.slot_count
  pub committed : (m.slots x.meta.slot_index).state ≡ state_committed
  pub sequence : (m.slots x.meta.slot_index).sequence ≡ x.meta.sequence
  pub addressed : test_bit (m.slots x.meta.slot_index).mask c.index ≡ true
  pub payload : take x.meta.nbytes (m.slots x.meta.slot_index).payload ≡ x.bytes

pub record Inv (r : Ring) (s : System) : Type 0 where
  pub registered :
      (id : ℕ) (c : Consumer)
      → s.consumers id ≡ some c
      → (c.index < max_consumers) × (is_active (s.mem.entries c.index) ≡ true)
  pub apart :
      (i j : ℕ) (c d : Consumer)
      → s.consumers i ≡ some c
      → s.consumers j ≡ some d
      → c.index ≡ d.index
      → i ≡ j
  pub writing :
      (id : ℕ) (w : SlotWriter) → s.writers id ≡ some w → (s.mem.slots w.slot).state ≡ state_writing
  pub alone :
      (i j : ℕ) (w v : SlotWriter)
      → s.writers i ≡ some w
      → s.writers j ≡ some v
      → w.slot ≡ v.slot
      → i ≡ j
  pub leased :
      (l : ℕ) (x : Held) (c : Consumer)
      → s.leases l ≡ some x
      → s.consumers x.owner ≡ some c
      → SlotHolds r s.mem c x
  pub once :
      (l k : ℕ) (x y : Held)
      → s.leases l ≡ some x
      → s.leases k ≡ some y
      → x.owner ≡ y.owner
      → x.meta.slot_index ≡ y.meta.slot_index
      → l ≡ k

-- A slot that keeps its tensor and the reader's bit still holds the lease.
pub SlotHolds-same :
    (r : Ring) (m m' : Mem) (c : Consumer) (x : Held)
    → SameTensor (m.slots x.meta.slot_index) (m'.slots x.meta.slot_index)
    → test_bit (m'.slots x.meta.slot_index).mask c.index ≡ true
    → SlotHolds r m c x
    → SlotHolds r m' c x
SlotHolds-same r m m' c x same bit hold = record {
  in_range = hold.in_range;
  committed = same.same_state ∙ hold.committed;
  sequence = same.same_sequence ∙ hold.sequence;
  addressed = bit;
  payload = rw (same.same_payload) hold.payload;
}

-- What a step of the memory alone has to keep.
pub record Keeps (r : Ring) (s : System) (m : Mem) : Type 0 where
  pub active :
      (id : ℕ) (c : Consumer) → s.consumers id ≡ some c → is_active (m.entries c.index) ≡ true
  pub reserved :
      (id : ℕ) (w : SlotWriter) → s.writers id ≡ some w → (m.slots w.slot).state ≡ state_writing
  pub holds :
      (l : ℕ) (x : Held) (c : Consumer)
      → s.leases l ≡ some x
      → s.consumers x.owner ≡ some c
      → SlotHolds r s.mem c x
      → SlotHolds r m c x

pub Keeps-Inv :
    (r : Ring) (s : System) (m : Mem) → Keeps r s m → Inv r s → Inv r (record s { mem = m })
Keeps-Inv r s m k inv = record {
  registered = λ id c e. ((inv.registered id c e).0, k.active id c e);
  apart = inv.apart;
  writing = k.reserved;
  alone = inv.alone;
  leased = λ l x c e known. k.holds l x c e known (inv.leased l x c e known);
  once = inv.once;
}
