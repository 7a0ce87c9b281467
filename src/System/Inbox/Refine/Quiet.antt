-- ===== src/System/Inbox/Refine/Quiet.antt =====
-- The steps that leave every inbox alone.
use native.Mathlib.Decide.{ℕ_discrete}
use tenzor_bus.Common.{
  ℕ, ◌^◌, ◌<◌, ◌≡◌, ◌≢◌, refl, sym, ◌∙◌, ap, ltb, Bool-cases, inl, inr, Option, none, some, arith,
  update,
}
use tenzor_bus.Proto.{state_committed, seq_newer}
use tenzor_bus.Errors.{ok}
use tenzor_bus.Host.{Host}
use tenzor_bus.Mem.{Mem, Ring, Consumer}
use tenzor_bus.Registry.{is_abandoned, consumer}
use tenzor_bus.Registry.Reap.{Reaped, locked_reap-Reaped}
use tenzor_bus.Registry.Register.{consumer-Registration}
use tenzor_bus.Producer.{SlotWriter, Header, Reserved, attempt}
use tenzor_bus.Producer.Reserve.{attempt-Reservation}
use tenzor_bus.Consumer.Scan.{is_pending}
use tenzor_bus.System.{System, Sees, writer_of}
use tenzor_bus.System.Invariant.{Inv}
use tenzor_bus.System.Order.{Young, Ordered}
use tenzor_bus.System.Inbox.{waiting_for, inboxes, Shifts, silent}
use tenzor_bus.System.Inbox.Same.{
  waiting_for-uncommitted, waiting_for-same, waiting_for-seen, inboxes-same, waiting_for-Reaped,
}

-- Numbers that have not wrapped are compared as numbers.
pub newer-low : (a b : ℕ) → a < 2 ^ 62 → b < 2 ^ 62 → seq_newer a b ≡ ltb b a
unfolding seq_newer
newer-low a b p q = ground arith

module _ (r : Ring) (s : System) (inv : Inv r s) (ord : Ordered r s) where
  pub silent-same :
      (m : Mem)
      → ((j : ℕ) → m.slots j ≡ s.mem.slots j)
      → Shifts silent (inboxes r s) (inboxes r (record s { mem = m }))
  silent-same m same =
      inboxes-same r s (record s { mem = m })
        (λ id k lt. ap (waiting_for (s.consumers id)) (same k))

  pub silent-Reaped :
      (h : Host) (m : Mem)
      → Sees h r s
      → Reaped h r s.mem m
      → Shifts silent (inboxes r s) (inboxes r (record s { mem = m }))
  silent-Reaped h m sees p =
      inboxes-same r s (record s { mem = m })
        (λ id k lt. waiting_for-Reaped h r s m id k (s.consumers id) inv sees p refl lt)

  -- A slot that is being written before, and not committed after.
  pub silent-written :
      (m : Mem) (writers : ℕ → Option SlotWriter) (id : ℕ) (w : SlotWriter)
      → s.writers id ≡ some w
      → ((j : ℕ) → w.slot ≢ j → m.slots j ≡ s.mem.slots j)
      → (m.slots w.slot).state ≢ state_committed
      → Shifts silent (inboxes r s) (inboxes r (record s { mem = m; writers = writers }))
  silent-written m writers id w e others after =
      inboxes-same r s (record s { mem = m; writers = writers })
        (λ i k lt. elim (ℕ_discrete w.slot k) [
          | yes q ↦ rw (sym q) (
              waiting_for-uncommitted (s.consumers i) (m.slots w.slot) after
              ∙ sym (
                  waiting_for-uncommitted (s.consumers i) (s.mem.slots w.slot)
                    (λ z. ground (arith, inv.writing id w e))))
          | no q ↦ ap (waiting_for (s.consumers i)) (others k q)
        ])

  -- A new consumer has an empty inbox.
  fresh-inbox :
      (h : Host) {c : Consumer} {m : Mem} (k : ℕ)
      → Young s
      → consumer h r s.mem ≡ (ok c, m)
      → k < r.slot_count
      → waiting_for (some c) (m.slots k) ≡ none
  fresh-inbox h {c} {m} k young e lt =
      let reg = consumer-Registration h r s.mem e in
      let p = locked_reap-Reaped h r s.mem in
      elim (Bool-cases (is_abandoned h (s.mem.slots k))) [
        | inl dead ↦
            waiting_for-uncommitted (some c) (m.slots k)
              (λ z. ground (arith, reg.slots k, p.abandoned k lt dead))
        | inr alive ↦ elim (ℕ_discrete (m.slots k).state state_committed) [
          | yes z ↦
              let same = p.tensors k alive in
              waiting_for-seen c (m.slots k) (
                ground (
                  arith,
                  same,
                  reg.slots k,
                  reg.from_now,
                  ord.counting,
                  ord.numbered k lt,
                  newer-low (m.slots k).sequence c.last_sequence,
                ))
          | no z ↦ waiting_for-uncommitted (some c) (m.slots k) z
        ]
      ]

  pub silent-registers :
      (id : ℕ) (h : Host) {c : Consumer} {m : Mem}
      → Young s
      → s.consumers id ≡ none
      → Sees h r s
      → consumer h r s.mem ≡ (ok c, m)
      → Shifts silent
          (inboxes r s)
          (inboxes r (record s { mem = m; consumers = update s.consumers id (some c) }))
  silent-registers id h {c} {m} young unused sees e =
      let reg = consumer-Registration h r s.mem e in
      inboxes-same r s (record s { mem = m; consumers = update s.consumers id (some c) })
        (λ i k lt. elim (ℕ_discrete id i) [
          | yes q ↦
              let mine : update s.consumers id (some c) i ≡ some c = ground arith in
              let before : s.consumers i ≡ none = ground arith in
              rw (mine, before) (fresh-inbox h k young e lt)
          | no q ↦
              let theirs : update s.consumers id (some c) i ≡ s.consumers i = ground arith in
              let p = locked_reap-Reaped h r s.mem in
              rw (theirs, reg.slots k)
                (waiting_for-Reaped h r s _ i k (s.consumers i) inv sees p refl lt)
        ])

  -- A slot that is reserved is in no inbox before.
  unread-inbox :
      (h : Host) (hd : Header) {a : Reserved} {m : Mem} (id : ℕ) (o : Option Consumer)
      → Sees h r s
      → attempt h r hd s.mem ≡ (some a, m)
      → s.consumers id ≡ o
      → waiting_for o (s.mem.slots a.slot) ≡ none
  unread-inbox h hd id none sees e q = refl
  unread-inbox h hd {a} {m} id (some c) sees e q =
      let v = attempt-Reservation h r hd s.mem e in
      elim (Bool-cases (is_pending c (s.mem.slots a.slot))) [
        | inl p ↦
            absurd
              (ground (arith, v.unread (ground arith) c.index (ground arith), sees.readers id c q))
        | inr p ↦ waiting_for-seen c (s.mem.slots a.slot) p
      ]

  kept-inbox :
      (h : Host) (hd : Header) {a : Reserved} {m : Mem} (id k : ℕ) (o : Option Consumer)
      → Sees h r s
      → attempt h r hd s.mem ≡ (some a, m)
      → s.consumers id ≡ o
      → k < r.slot_count
      → a.slot ≢ k
      → waiting_for o (m.slots k) ≡ waiting_for o (s.mem.slots k)
  kept-inbox h hd id k none sees e q lt ne = refl
  kept-inbox h hd {a} {m} id k (some c) sees e q lt ne =
      let v = attempt-Reservation h r hd s.mem e in
      elim (Bool-cases (is_abandoned h (s.mem.slots k))) [
        | inl dead ↦ rw (
          waiting_for-uncommitted (some c) (m.slots k)
              (λ z. ground (arith, v.abandoned k lt ne dead)),
          waiting_for-uncommitted (some c) (s.mem.slots k) (λ z. ground arith),
        )
        | inr alive ↦ waiting_for-same c (s.mem.slots k) (m.slots k) (v.others k ne alive) (
            ground
              (arith, v.bits k c.index lt ne alive, sees.readers id c q, inv.registered id c q))
      ]

  pub silent-reserves :
      (id : ℕ) (h : Host) (hd : Header) (nbytes : ℕ) {a : Reserved} {m : Mem}
      → Sees h r s
      → attempt h r hd s.mem ≡ (some a, m)
      → Shifts silent (inboxes r s) (
          inboxes r
            (record s { mem = m; writers = update s.writers id (some (writer_of a nbytes)) }))
  silent-reserves id h hd nbytes {a} {m} sees e =
      let v = attempt-Reservation h r hd s.mem e in
      inboxes-same r s
        (record s { mem = m; writers = update s.writers id (some (writer_of a nbytes)) })
        (λ i k lt. elim (ℕ_discrete a.slot k) [
          | yes q ↦ rw (sym q) (
              waiting_for-uncommitted (s.consumers i) (m.slots a.slot)
                (λ z. ground (arith, v.written))
              ∙ sym (unread-inbox h hd i (s.consumers i) sees e refl))
          | no q ↦ kept-inbox h hd i k (s.consumers i) sees e refl lt q
        ])
