-- ===== src/System/Inbox/Refine/Moves.antt =====
-- The steps that deliver a message or empty an inbox.
use tenzor_bus.Common.{
  ℕ, ltb, true, if◌then◌else◌, ◌≡◌, ◌≢◌, refl, sym, Option, none, some, arith, update,
}
use tenzor_bus.Mem.{Mem, Ring, Consumer}
use tenzor_bus.Producer.{SlotWriter, commit, commit_slot}
use tenzor_bus.System.{Held, System}
use tenzor_bus.System.Invariant.{Inv}
use tenzor_bus.System.Order.{Ordered}
use tenzor_bus.System.Inbox.{message_of, waiting_for, inboxes, Shifts, delivers, empties, addresses}
use tenzor_bus.System.Inbox.Same.{waiting_for-uncommitted, inboxes-at, inboxes-none}

module _ (r : Ring) (s : System) (inv : Inv r s) (ord : Ordered r s) where
  abbrev committed : ℕ → SlotWriter → System
  committed id w = record s { mem = (commit w s.mem).1; writers = update s.writers id none }

  pub delivers-commits :
      (id : ℕ) {w : SlotWriter}
      → s.writers id ≡ some w
      → Shifts
          (delivers id w.slot
            (message_of (s.mem.slots w.slot))
            (λ c. addresses (s.mem.slots w.slot) (s.consumers c)))
          (inboxes r s)
          (inboxes r (record s { mem = (commit w s.mem).1; writers = update s.writers id none }))
  unfolding commit commit_slot
  delivers-commits id {w} e =
      let (lt, number) = ord.writer id w e in
      let inside : ltb w.slot r.slot_count ≡ true = ground arith in
      (
        λ i. (
          inboxes-none r s i w.slot (
              waiting_for-uncommitted (s.consumers i) (s.mem.slots w.slot)
                (λ z. ground (arith, inv.writing id w e))),
          rw inside (delivered (s.consumers i)),
        ),
        λ i k ne. inboxes-at r s (committed id w) i k (λ lt'. ground arith),
      )
    where
      delivered :
          (o : Option Consumer)
          → waiting_for o ((committed id w).mem.slots w.slot) ≡ (
              if addresses (s.mem.slots w.slot) o
              then some (message_of (s.mem.slots w.slot))
              else none)
      delivered none = refl
      delivered (some c) = ground arith

  abbrev gone_state : ℕ → Mem → (ℕ → Option Held) → System
  gone_state id m leases = record s {
    mem = m;
    consumers = update s.consumers id none;
    leases = leases;
  }

  pub empties-gone :
      (id : ℕ) (m : Mem) (leases : ℕ → Option Held)
      → ((i k : ℕ) (c : Consumer)
          → i ≢ id
          → s.consumers i ≡ some c
          → waiting_for (some c) (m.slots k) ≡ waiting_for (some c) (s.mem.slots k))
      → Shifts (empties id) (inboxes r s) (
          inboxes r (record s { mem = m; consumers = update s.consumers id none; leases = leases }))
  empties-gone id m leases same = (
    λ k.
        inboxes-none r (gone_state id m leases) id k
          (let closed : update s.consumers id none id ≡ none = ground arith in rw closed),
    λ other k ne. inboxes-at r s (gone_state id m leases) other k (λ lt.
        let theirs : update s.consumers id none other ≡ s.consumers other = ground arith in
        rw theirs (kept other k (s.consumers other) refl ne)),
  )
    where
      kept :
          (other k : ℕ) (o : Option Consumer)
          → s.consumers other ≡ o
          → id ≢ other
          → waiting_for o (m.slots k) ≡ waiting_for o (s.mem.slots k)
      kept other k none q ne = refl
      kept other k (some c) q ne = same other k c (λ z. ne (sym z)) q
