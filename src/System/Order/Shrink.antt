-- ===== src/System/Order/Shrink.antt =====
-- The operations that number no slot.
use tenzor_bus.Common.{ℕ, ◌^◌, ◌<◌, ◌≡◌, ◌≢◌, refl, true, arith, Bool-cases, inl, inr}
use tenzor_bus.Proto.{seq_newer, state_writing}
use tenzor_bus.Errors.{ok, err, Error}
use tenzor_bus.Host.{Host}
use tenzor_bus.Mem.{Mem, Ring, Consumer}
use tenzor_bus.Registry.{is_abandoned, consumer, close, sweep, producer, drop_producer}
use tenzor_bus.Registry.Reap.{Reaped, locked_reap-Reaped}
use tenzor_bus.Registry.Register.{consumer-Registration, consumer-full}
use tenzor_bus.Registry.Close.{close-Closed, close_twice}
use tenzor_bus.Producer.{SlotWriter, commit, commit_slot, set_timestamp_ns}
use tenzor_bus.System.Order.{Shrinks}

pub Shrinks-Reaped : (h : Host) (r : Ring) (m m' : Mem) → Reaped h r m m' → Shrinks r m m'
Shrinks-Reaped h r m m' p = record {
  next_seq = p.next_seq;
  used = λ j lt u. elim (Bool-cases (is_abandoned h (m.slots j))) [
    | inl dead ↦ absurd (ground (arith, p.abandoned j lt dead))
    | inr alive ↦ let q = p.tensors j alive in ground (arith, q)
  ];
}

pub Shrinks-locked_reap : (h : Host) (r : Ring) (m : Mem) → Shrinks r m (sweep h r m)
unfolding sweep
Shrinks-locked_reap h r m = Shrinks-Reaped h r m _ (locked_reap-Reaped h r m)

pub Shrinks-finds_full :
    (h : Host) (r : Ring) (m : Mem) {e : Error} {m' : Mem}
    → consumer h r m ≡ (err e, m')
    → Shrinks r m m'
Shrinks-finds_full h r m eq =
    rw (consumer-full h r m 0 eq (omega arith)).0
      (Shrinks-Reaped h r m _ (locked_reap-Reaped h r m))

pub Shrinks-registers :
    (h : Host) (r : Ring) (m : Mem) {c : Consumer} {m' : Mem}
    → consumer h r m ≡ (ok c, m')
    → Shrinks r m m'
Shrinks-registers h r m e =
    let reg = consumer-Registration h r m e in
    let p = Shrinks-Reaped h r m _ (locked_reap-Reaped h r m) in
    record { next_seq = reg.next_seq; used = λ j lt u. ground (arith, reg.slots j, p.used j lt) }

pub Shrinks-closes : (h : Host) (r : Ring) (c : Consumer) (m : Mem) → Shrinks r m (close h r c m).1
Shrinks-closes h r c m = elim (Bool-cases c.closed) [
  | inl e ↦ rw (close_twice h r c m e) (record { next_seq = refl; used = λ j lt u. (u, refl) })
  | inr e ↦
      let closed = close-Closed h r c m e in
      record { next_seq = closed.next_seq; used = λ j lt u. ground (arith, closed.slots j) }
]

pub newer-lt :
    {last seq : ℕ} → last < 2 ^ 62 → seq < 2 ^ 62 → seq_newer seq last ≡ true → last < seq
unfolding seq_newer
newer-lt a b e = ground arith

pub Shrinks-written :
    (r : Ring) (m m' : Mem) (slot : ℕ)
    → (m.slots slot).state ≡ state_writing
    → m'.next_seq ≡ m.next_seq
    → ((j : ℕ) → (m'.slots j).sequence ≡ (m.slots j).sequence)
    → ((j : ℕ) → slot ≢ j → m'.slots j ≡ m.slots j)
    → Shrinks r m m'
Shrinks-written r m m' slot writing same numbers others = record {
  next_seq = same;
  used = λ j lt u. ground (arith, others j, numbers j);
}

pub Shrinks-stamps :
    (r : Ring) (m : Mem) (w : SlotWriter) (ns : ℕ)
    → (m.slots w.slot).state ≡ state_writing
    → Shrinks r m (set_timestamp_ns w ns m)
unfolding set_timestamp_ns
Shrinks-stamps r m w ns writing =
    Shrinks-written r m _ w.slot writing refl (λ j. ground arith) (λ j ne. ground arith)

pub Shrinks-commits :
    (r : Ring) (m : Mem) (w : SlotWriter)
    → (m.slots w.slot).state ≡ state_writing
    → Shrinks r m (commit w m).1
unfolding commit commit_slot
Shrinks-commits r m w writing =
    Shrinks-written r m _ w.slot writing refl (λ j. ground arith) (λ j ne. ground arith)

pub Shrinks-claims : (h : Host) (n : ℕ) (r : Ring) (m : Mem) → Shrinks r m (producer h n m).1
unfolding producer
Shrinks-claims h n r m = record { next_seq = ground arith; used = λ j lt u. ground arith }

pub Shrinks-resigns : (h : Host) (n : ℕ) (r : Ring) (m : Mem) → Shrinks r m (drop_producer h n m).1
unfolding drop_producer
Shrinks-resigns h n r m = record { next_seq = ground arith; used = λ j lt u. ground arith }
