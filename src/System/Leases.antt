-- ===== src/System/Leases.antt =====
-- The steps that take a lease and give it back keep the invariant.
use mathlib.Core.Bool.{false≢true}
use native.Mathlib.Decide.{ℕ_discrete}
use tenzor_bus.Common.{ℕ, ◌≡◌, ◌≢◌, refl, subst, sym, ◌∙◌, ap, true, update, none, some, arith}
use tenzor_bus.Common.Bits.{test_bit}
use tenzor_bus.Errors.{ok}
use tenzor_bus.Host.{Host}
use tenzor_bus.Mem.{Mem, Ring, Consumer}
use tenzor_bus.Consumer.{TensorMeta, try_take, steady, taken, lease_data, release}
use tenzor_bus.Consumer.Take.{Taking, try_take-Taking}
use tenzor_bus.Consumer.Release.{Released, release-Released}
use tenzor_bus.System.{Held, System, NoneStale}
use tenzor_bus.System.Invariant.{SlotHolds, Inv, SlotHolds-same}

module _ (r : Ring) (s : System) (inv : Inv r s) where
  abbrev taken_state : ℕ → ℕ → Host → Consumer → TensorMeta → System
  taken_state id l h c t = record s {
    mem = (taken h c t s.mem).1;
    consumers = update s.consumers id (some (taken h c t s.mem).0);
    leases = update s.leases l (some (record { owner = id; meta = t; bytes = lease_data t s.mem }));
  }

  -- A publication that is taken is not leased to the same consumer already.
  taken_fresh :
      (id : ℕ) {c : Consumer} {t : TensorMeta}
      → s.consumers id ≡ some c
      → NoneStale s id c
      → Taking r c s.mem t
      → (k : ℕ) (y : Held) → s.leases k ≡ some y
      → y.owner ≡ id
      → y.meta.slot_index ≢ t.slot_index
  taken_fresh id {c} {t} known stale taking k y e o same =
      let hold = inv.leased k y c e (rw o known) in
      let seq : y.meta.sequence ≡ t.sequence =
        sym hold.sequence ∙ rw same taking.valid.sequence_before in
      false≢true (sym (stale k y e o) ∙ rw seq taking.newer)

  -- The lease that was just taken shows what the slot holds.
  new-SlotHolds :
      (id l : ℕ) (h : Host) {c : Consumer} {t : TensorMeta}
      → Taking r c s.mem t
      → SlotHolds r
          (taken h c t s.mem).1
          (taken h c t s.mem).0
          (record { owner = id; meta = t; bytes = lease_data t s.mem })
  unfolding lease_data
  new-SlotHolds id l h taking =
      let v = taking.valid in
      record {
        in_range = taking.in_range;
        committed = v.committed_before;
        sequence = v.sequence_before;
        addressed = v.addressed;
        payload = refl;
      }

  -- A lease that was there before is still held, by the same consumer.
  old-SlotHolds :
      (id : ℕ) (h : Host) {c : Consumer} (t : TensorMeta)
      → s.consumers id ≡ some c
      → (k : ℕ) (x : Held) (d : Consumer) → s.leases k ≡ some x
      → update s.consumers id (some (taken h c t s.mem).0) x.owner ≡ some d
      → SlotHolds r (taken h c t s.mem).1 d x
  old-SlotHolds id h {c} t known k x d e now = elim (ℕ_discrete id x.owner) [
    | yes same ↦
        let hold = inv.leased k x c e (rw (sym same) known) in
        let mine : (taken h c t s.mem).0 ≡ d = ground arith in
        record {
          in_range = hold.in_range;
          committed = hold.committed;
          sequence = hold.sequence;
          addressed = rw (sym mine) hold.addressed;
          payload = hold.payload;
        }
    | no other ↦
        let hold = inv.leased k x d e (ground arith) in
        record {
          in_range = hold.in_range;
          committed = hold.committed;
          sequence = hold.sequence;
          addressed = hold.addressed;
          payload = hold.payload;
        }
  ]

  taken-SlotHolds :
      (id l : ℕ) (h : Host) {c : Consumer} {t : TensorMeta}
      → s.consumers id ≡ some c
      → Taking r c s.mem t
      → (k : ℕ) (x : Held) (d : Consumer) → (taken_state id l h c t).leases k ≡ some x
      → (taken_state id l h c t).consumers x.owner ≡ some d
      → SlotHolds r (taken h c t s.mem).1 d x
  taken-SlotHolds id l h {c} {t} known taking k x d q now = elim (ℕ_discrete l k) [
    | yes same ↦
        let new : (record { owner = id; meta = t; bytes = lease_data t s.mem }) ≡ x =
          ground arith in
        let mine : (taken h c t s.mem).0 ≡ d = let at = rw (sym new) at now in ground arith in
        subst (λ z. SlotHolds r (taken h c t s.mem).1 z x) mine
          (subst (λ z. SlotHolds r (taken h c t s.mem).1 (taken h c t s.mem).0 z) new
            (new-SlotHolds id l h taking))
    | no other ↦ old-SlotHolds id h t known k x d (ground arith) now
  ]

  pub Inv-takes :
      (id l : ℕ) (h : Host) {c : Consumer} {t : TensorMeta}
      → s.consumers id ≡ some c
      → s.leases l ≡ none
      → NoneStale s id c
      → try_take r c (steady s.mem) ≡ some t
      → Inv r (taken_state id l h c t)
  Inv-takes id l h {c} {t} known unused stale e =
      let taking = try_take-Taking r c s.mem e in
      let fresh = taken_fresh id known stale taking in
      let v = taking.valid in
      record {
        registered = λ i d q. ground (arith, inv.registered i d, inv.registered id c known);
        apart = λ i j d d' p q same.
            ground (arith, inv.apart i j d d', inv.apart id j c d', inv.apart i id d c);
        writing = inv.writing;
        alone = inv.alone;
        leased = λ k x d q now. taken-SlotHolds id l h known taking k x d q now;
        once = λ k k' x y p q o i. ground (arith, inv.once k k' x y, fresh k x, fresh k' y);
      }

  -- Another lease does not lose its bit.
  returned-bit :
      (l : ℕ) (h : Host) {x : Held} {c : Consumer} {m : Mem}
      → s.leases l ≡ some x
      → s.consumers x.owner ≡ some c
      → Released h c x.meta s.mem m
      → (k : ℕ) (y : Held) (d : Consumer) → s.leases k ≡ some y
      → s.consumers y.owner ≡ some d
      → SlotHolds r s.mem d y
      → l ≢ k
      → test_bit (m.slots y.meta.slot_index).mask d.index ≡ true
  returned-bit l h {x} {c} e known p k y d f d_known hold ne = ground (
    arith,
    hold,
    p.bits y.meta.slot_index d.index,
    inv.apart x.owner y.owner c d,
    inv.once l k x y,
  )

  pub Inv-returns :
      (l : ℕ) (h : Host) {x : Held} {c : Consumer} {m : Mem}
      → s.leases l ≡ some x
      → s.consumers x.owner ≡ some c
      → release h c x.meta s.mem ≡ (ok tt, m)
      → Inv r (record s { mem = m; leases = update s.leases l none })
  Inv-returns l h {x} {c} {m} e known done =
      let p : Released h c x.meta s.mem m =
        subst (λ z. Released h c x.meta s.mem z) (ap (λ z. z.1) done)
          (release-Released h c x.meta s.mem (ap (λ z. z.0) done)) in
      record {
        registered = λ i d q. ground (arith, inv.registered i d, p.states d.index);
        apart = inv.apart;
        writing = λ i w q. ground (arith, inv.writing i w, p.tensors w.slot);
        alone = inv.alone;
        leased = λ k y d q d_known.
            let hold = inv.leased k y d (ground arith) d_known in
            SlotHolds-same r s.mem m d y (p.tensors y.meta.slot_index)
              (returned-bit l h e known p k y d (ground arith) d_known hold (ground arith)) hold;
        once = λ k k' y z q q' o i. ground (arith, inv.once k k' y z);
      }

  -- Without one of the leases.
  pub Inv-refused : (l : ℕ) → Inv r (record s { leases = update s.leases l none })
  Inv-refused l = record {
    registered = inv.registered;
    apart = inv.apart;
    writing = inv.writing;
    alone = inv.alone;
    leased = λ k y d q known. inv.leased k y d (ground arith) known;
    once = λ k k' y z q q' o i. inv.once k k' y z (ground arith) (ground arith) o i;
  }
