-- ===== src/System/Handles.antt =====
-- The steps that open or end a handle keep the invariant.
use mathlib.Core.Bool.{false≢true}
use tenzor_bus.Common.{
  Option, ℕ, ◌≡◌, ◌≢◌, refl, sym, ◌∙◌, true, update, none, some, arith, Bool-cases, inl, inr,
}
use tenzor_bus.Errors.{ok}
use tenzor_bus.Host.{Host}
use tenzor_bus.Mem.{Mem, Ring, Consumer}
use tenzor_bus.Registry.{is_active, consumer, close}
use tenzor_bus.Registry.Reap.{locked_reap-Reaped}
use tenzor_bus.Registry.Close.{close-Closed, close_twice}
use tenzor_bus.Registry.Drop.{test_bit-clear_reader}
use tenzor_bus.Registry.Register.{consumer-Registration}
use tenzor_bus.Producer.{
  SlotWriter, Header, Reserved, attempt, commit, commit_slot, abort, release_slot,
}
use tenzor_bus.Producer.Reserve.{attempt-Reservation}
use tenzor_bus.System.{Held, System, Sees, without_owner, writer_of}
use tenzor_bus.System.Invariant.{SlotHolds, Inv, SlotHolds-same}
use tenzor_bus.System.Keep.{Keeps-Reaped}

module _ (r : Ring) (s : System) (inv : Inv r s) where
  abbrev registered_state : ℕ → Consumer → Mem → System
  registered_state id c m = record s { mem = m; consumers = update s.consumers id (some c) }

  pub Inv-registers :
      (id : ℕ) (h : Host) {c : Consumer} {m : Mem}
      → s.consumers id ≡ none
      → ((l : ℕ) (x : Held) → s.leases l ≡ some x → x.owner ≢ id)
      → Sees h r s
      → consumer h r s.mem ≡ (ok c, m)
      → Inv r (registered_state id c m)
  Inv-registers id h {c} {m} unused unowned sees e =
      let reg = consumer-Registration h r s.mem e in
      let k = Keeps-Reaped r s inv h _ sees (locked_reap-Reaped h r s.mem) in
      record {
        registered = λ i d q. ground (
          arith,
          reg.in_range,
          reg.active,
          inv.registered i d,
          reg.others d.index,
          sees.readers i d,
        );
        apart = λ i j d d' p q same. ground (
          arith,
          inv.apart i j d d',
          reg.vacant,
          inv.registered i d,
          inv.registered j d',
          sees.readers i d,
          sees.readers j d',
        );
        writing = λ i w q. ground (arith, k.reserved i w q, reg.slots w.slot);
        alone = inv.alone;
        leased = λ l x d q new.
            let known : s.consumers x.owner ≡ some d = ground (arith, unowned l x q) in
            let hold = inv.leased l x d q known in
            let kept = k.holds l x d q known hold in
            ground (arith, kept, reg.slots x.meta.slot_index);
        once = inv.once;
      }

  -- A consumer that is gone, with a memory that keeps what the others rely on; of its leases, some
  -- may be left.
  Inv-gone :
      (id : ℕ) (m : Mem) (leases : ℕ → Option Held)
      → ((l : ℕ) (x : Held) → leases l ≡ some x → s.leases l ≡ some x)
      → ((j : ℕ) (c : Consumer)
          → j ≢ id
          → s.consumers j ≡ some c
          → is_active (m.entries c.index) ≡ true)
      → ((j : ℕ) → (m.slots j).state ≡ (s.mem.slots j).state)
      → ((l : ℕ) (x : Held) (c : Consumer)
          → s.leases l ≡ some x
          → x.owner ≢ id
          → s.consumers x.owner ≡ some c
          → SlotHolds r s.mem c x
          → SlotHolds r m c x)
      → Inv r (record s { mem = m; consumers = update s.consumers id none; leases = leases })
  Inv-gone id m leases old active states holds = record {
    registered = λ j c q. ground (arith, inv.registered j c, active j c);
    apart = λ i j c d p q same. ground (arith, inv.apart i j c d);
    writing = λ i w q. ground (arith, inv.writing i w, states w.slot);
    alone = inv.alone;
    leased = λ l x c q left.
        let other : x.owner ≢ id = ground arith in
        let known : s.consumers x.owner ≡ some c = ground arith in
        holds l x c (old l x q) other known (inv.leased l x c (old l x q) known);
    once = λ l k x y p q o i. inv.once l k x y (old l x p) (old k y q) o i;
  }

  pub Inv-dies :
      (id : ℕ)
      → Inv r
          (record s { consumers = update s.consumers id none; leases = without_owner id s.leases })
  Inv-dies id =
      Inv-gone id s.mem (without_owner id s.leases) (λ l x q. ground arith)
        (λ j c ne q. (inv.registered j c q).1) (λ j. refl) (λ l x c old other known hold. hold)

  pub Inv-closes :
      (id : ℕ) (h : Host) {c : Consumer}
      → s.consumers id ≡ some c
      → Inv r (record s { mem = (close h r c s.mem).1; consumers = update s.consumers id none })
  Inv-closes id h {c} q = elim (Bool-cases c.closed) [
    | inl e ↦ rw (close_twice h r c s.mem e) (
        Inv-gone id s.mem s.leases (λ l x z. z) (λ j d ne known. (inv.registered j d known).1)
          (λ j. refl) (λ l x d old other known hold. hold))
    | inr e ↦
        let closed = close-Closed h r c s.mem e in
        Inv-gone id _ s.leases (λ l x z. z)
          (λ j d ne known.
            ground (arith, inv.registered j d, inv.apart j id d c, closed.entries d.index))
          (λ j. ground (arith, closed.slots j))
          (λ l x d old other known hold.
            SlotHolds-same r s.mem _ d x (ground (arith, closed.slots x.meta.slot_index))
              (ground (
                arith,
                hold,
                closed.slots x.meta.slot_index,
                inv.apart x.owner id d c,
                test_bit-clear_reader c.index (s.mem.slots x.meta.slot_index) d.index,
              ))
              hold)
  ]

  pub Inv-reserves :
      (id : ℕ) (h : Host) (hd : Header) (nbytes : ℕ) {a : Reserved} {m : Mem}
      → s.writers id ≡ none
      → Sees h r s
      → attempt h r hd s.mem ≡ (some a, m)
      → Inv r (record s { mem = m; writers = update s.writers id (some (writer_of a nbytes)) })
  Inv-reserves id h hd nbytes {a} {m} unused sees e =
      let v = attempt-Reservation h r hd s.mem e in
      record {
        registered =
            λ i c q. ground (arith, inv.registered i c, sees.readers i c, v.entries c.index);
        apart = inv.apart;
        writing = λ i w q.
            ground
              (arith, v.written, v.origin, inv.writing i w, sees.reserving i w, v.others w.slot);
        alone = λ i j w w' p q same. ground (
          arith,
          v.origin,
          inv.writing i w,
          inv.writing j w',
          sees.reserving i w,
          sees.reserving j w',
          inv.alone i j w w',
        );
        leased = λ l x c q known.
            let hold = inv.leased l x c q known in
            let elsewhere : a.slot ≢ x.meta.slot_index = λ same.
              let dead = v.unread (rw same hold.committed) c.index (rw same hold.addressed) in
              false≢true (sym (sees.readers x.owner c known) ∙ dead.1) in
            SlotHolds-same r s.mem m c x
              (v.others x.meta.slot_index elsewhere (ground (arith, hold)))
              (ground (arith, hold, v.bits x.meta.slot_index c.index, sees.readers x.owner c known))
              hold;
        once = inv.once;
      }

  -- A step that ends the handle of writer `id` and touches its slot only.
  Inv-ended :
      (id : ℕ) {w : SlotWriter} (m : Mem)
      → s.writers id ≡ some w
      → ((j : ℕ) → w.slot ≢ j → m.slots j ≡ s.mem.slots j)
      → ((i : ℕ) → m.entries i ≡ s.mem.entries i)
      → Inv r (record s { mem = m; writers = update s.writers id none })
  Inv-ended id {w} m e slots entries = record {
    registered = λ i c q. ground (arith, inv.registered i c, entries c.index);
    apart = inv.apart;
    writing = λ i v q. ground (arith, inv.writing i v, inv.alone i id v w, slots v.slot);
    alone = λ i j v v' p q same. ground (arith, inv.alone i j v v');
    leased = λ l x c q known.
        let hold = inv.leased l x c q known in
        ground (arith, hold, inv.writing id w e, slots x.meta.slot_index);
    once = inv.once;
  }

  pub Inv-commits :
      (id : ℕ) {w : SlotWriter}
      → s.writers id ≡ some w
      → Inv r (record s { mem = (commit w s.mem).1; writers = update s.writers id none })
  unfolding commit commit_slot
  Inv-commits id {w} e = Inv-ended id _ e (λ j ne. ground arith) (λ i. refl)

  pub Inv-aborts :
      (id : ℕ) (h : Host) {w : SlotWriter}
      → s.writers id ≡ some w
      → Inv r (record s { mem = (abort h w s.mem).1; writers = update s.writers id none })
  unfolding abort release_slot
  Inv-aborts id h {w} e = Inv-ended id _ e (λ j ne. ground arith) (λ i. refl)

  pub Inv-deserts : (id : ℕ) → Inv r (record s { writers = update s.writers id none })
  Inv-deserts id = record {
    registered = inv.registered;
    apart = inv.apart;
    writing = λ i v q. ground (arith, inv.writing i v);
    alone = λ i j v v' p q same. ground (arith, inv.alone i j v v');
    leased = inv.leased;
    once = inv.once;
  }
