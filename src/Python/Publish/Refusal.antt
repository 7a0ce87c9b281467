-- ===== src/Python/Publish/Refusal.antt =====
-- What a call of `publish` from Python has done, by how it ended.
use Prim.Native.String.{String}
use tenzor_bus.Common.{
  ℕ, ◌≡◌, ◌⊎◌, inl, inr, refl, ap, ltb, length, Bool-cases, Option, none, some, List, arith,
}
use tenzor_bus.Proto.{DType, from_numpy_name}
use tenzor_bus.Errors.{
  Result, ok, err, Error, ring_full, invalid, bad_header, timeout, capacity, io, lease_violation,
}
use tenzor_bus.Host.{Host}
use tenzor_bus.Mem.{Mem, Ring}
use tenzor_bus.Tensor.{TensorView, contiguous, with_timestamp_ns, new}
use tenzor_bus.Producer.{
  Backpressure, block, drop_newest, PublishResult, Reserved, Outcome, Tick, publish, attempt,
  view_header, finish_publish, commit_slot, write_payload,
}
use tenzor_bus.Producer.Acquire.{Explained, acquire-Explained}
use tenzor_bus.Python.Raise.{PyResult, returns, raises, runtime_error, of_error, to_py_err}
use tenzor_bus.Python.Publish.{
  NdArray, parse_policy, Published, Waiting, stamped, describe, publish_view, publish_flat,
  publish_array, publish_with, py_publish,
}

stamped-timestamp :
    (ts : Option ℕ) (v : TensorView) → v.timestamp_ns ≡ none → (stamped ts v).timestamp_ns ≡ ts
unfolding with_timestamp_ns
stamped-timestamp none v e = e
stamped-timestamp (some ns) v e = refl

module _ (h : Host) (r : Ring) (deadline : ℕ) (copying : Mem → Mem) (ticks : List Tick) where
  -- What the ring has done for a view: it has not been touched, it was full, the publication was
  -- dropped, or it was published.
  abbrev Ended : Backpressure → TensorView → Mem → Outcome PublishResult → Type 0
  Ended policy v m none = policy ≡ block
  Ended policy v m (some (err e, m')) =
      (m' ≡ m)
      ⊎ ((e ≡ ring_full)
          × (policy ≡ block)
          × ((m0 : Mem) × (attempt h r (view_header v) m0 ≡ (none, m'))))
  Ended policy v m (some (ok none, m')) = policy ≡ drop_newest
  Ended policy v m (some (ok (some p), m')) =
      (a : Reserved) × (m0 : Mem) × (m1 : Mem) × (attempt h r (view_header v) m0 ≡ (some a, m1))
      × (p.sequence ≡ a.sequence)
      × (p.slot_index ≡ a.slot)
      × (m' ≡ commit_slot a.slot (write_payload a.slot v.bytes (copying m1)))

  finish_publish-Ended :
      (policy : Backpressure) (v : TensorView) (m : Mem) (o : Outcome Reserved)
      → Explained h r (view_header v) policy o
      → Ended policy v m (finish_publish v copying o)
  finish_publish-Ended policy v m none e = e
  finish_publish-Ended policy v m (some (err x, m')) e = inr e
  finish_publish-Ended policy v m (some (ok none, m')) e = e.0
  finish_publish-Ended policy v m (some (ok (some a), m')) e = (a, e.0, m', e.1, refl, refl, refl)

  publish-Ended :
      (policy : Backpressure) (v : TensorView) (m : Mem)
      → Ended policy v m (publish h r v policy deadline copying ticks m)
  unfolding publish
  publish-Ended policy v m = elim (Bool-cases (ltb r.slot_capacity (length v.bytes))) [
    | inl large ↦ rw large (inl refl)
    | inr fits ↦ rw fits (
        finish_publish-Ended policy v m _
          (acquire-Explained h r (view_header v) policy deadline ticks m))
  ]

  module _ (timestamp_ns : Option ℕ) (m : Mem) (array : PyResult NdArray) where
    -- `v` is what the bindings make of the array: its bytes under its own type and shape.
    pub record IsViewOf (v : TensorView) : Type 0 where
      pub converted : NdArray
      pub dtype : DType
      pub bytes : List ℕ
      pub plain : TensorView
      pub given : array ≡ returns converted
      pub known : from_numpy_name converted.dtype_name ≡ some dtype
      pub flat : converted.buffer ≡ returns bytes
      pub made : contiguous dtype converted.shape bytes ≡ ok plain
      pub stamp : v ≡ stamped timestamp_ns plain

    -- How a call from Python ended. One that raises has left the memory alone, unless the ring was
    -- full under `block`.
    abbrev pub Answered : Option Backpressure → Waiting (Option Published) → Type 0
    Answered policy none = policy ≡ some block
    Answered policy (some (raises c e, m')) =
        (m' ≡ m) ⊎ ((c ≡ runtime_error) × (e ≡ of_error ring_full) × (policy ≡ some block))
    Answered policy (some (returns none, m')) = policy ≡ some drop_newest
    Answered policy (some (returns (some p), m')) =
        (v : TensorView) × (a : Reserved) × (m0 : Mem) × (m1 : Mem) × (attempt h r (view_header v)
            m0
          ≡ (some a, m1))
        × IsViewOf v
        × (p.timestamp_ns ≡ timestamp_ns)
        × (p.result.sequence ≡ a.sequence)
        × (m' ≡ commit_slot a.slot (write_payload a.slot v.bytes (copying m1)))

    raised-Answered :
        (policy : Option Backpressure) (e : Error) (m' : Mem)
        → (m' ≡ m) ⊎ ((e ≡ ring_full) × (policy ≡ some block))
        → Answered policy (some (to_py_err e, m'))
    unfolding to_py_err
    raised-Answered policy (bad_header x) m' (inl same) = inl same
    raised-Answered policy (bad_header x) m' (inr full) = absurd (ground (arith, full.0))
    raised-Answered policy timeout m' (inl same) = inl same
    raised-Answered policy timeout m' (inr full) = absurd (ground (arith, full.0))
    raised-Answered policy (capacity x) m' (inl same) = inl same
    raised-Answered policy (capacity x) m' (inr full) = absurd (ground (arith, full.0))
    raised-Answered policy (invalid x) m' (inl same) = inl same
    raised-Answered policy (invalid x) m' (inr full) = absurd (ground (arith, full.0))
    raised-Answered policy (lease_violation x) m' (inl same) = inl same
    raised-Answered policy (lease_violation x) m' (inr full) = absurd (ground (arith, full.0))
    raised-Answered policy (io x) m' (inl same) = inl same
    raised-Answered policy (io x) m' (inr full) = absurd (ground (arith, full.0))
    raised-Answered policy ring_full m' (inl same) = inl same
    raised-Answered policy ring_full m' (inr full) = inr (refl, refl, full.1)

    describe-Answered :
        (policy : Backpressure) (v : TensorView) (o : Outcome PublishResult)
        → v.timestamp_ns ≡ timestamp_ns
        → IsViewOf v
        → Ended policy v m o
        → Answered (some policy) (describe v o)
    describe-Answered policy v none ts from e = ap some e
    describe-Answered policy v (some (err x, m')) ts from (inl same) =
        raised-Answered (some policy) x m' (inl same)
    describe-Answered policy v (some (err x, m')) ts from (inr full) =
        raised-Answered (some policy) x m' (inr (full.0, ap some (full.1)))
    describe-Answered policy v (some (ok none, m')) ts from e = ap some e
    describe-Answered policy v (some (ok (some p), m')) ts from
          (a, m0, m1, taken, seq, slot, done) =
        (v, a, m0, m1, taken, from, ts, seq, done)

    contiguous-timestamp :
        (dtype : DType) (shape bytes : List ℕ) (v : TensorView)
        → contiguous dtype shape bytes ≡ ok v
        → v.timestamp_ns ≡ none
    unfolding contiguous new
    contiguous-timestamp dtype shape bytes v e = ground arith

    publish_view-Answered :
        (policy : Backpressure) (x : Result TensorView)
        → ((v : TensorView)
            → x ≡ ok v
            → (v.timestamp_ns ≡ none) × IsViewOf (stamped timestamp_ns v))
        → Answered (some policy) (publish_view h r deadline copying ticks x policy timestamp_ns m)
    publish_view-Answered policy (err e) fresh = raised-Answered (some policy) e m (inl refl)
    publish_view-Answered policy (ok v) fresh =
        let (plain, from) = fresh v refl in
        describe-Answered policy (stamped timestamp_ns v) _ (stamped-timestamp timestamp_ns v plain)
          from (publish-Ended policy (stamped timestamp_ns v) m)

    publish_flat-Answered :
        (policy : Backpressure) (a : NdArray) (dtype : DType) (b : PyResult (List ℕ))
        → array ≡ returns a
        → from_numpy_name a.dtype_name ≡ some dtype
        → a.buffer ≡ b
        → Answered
            (some policy)
            (publish_flat h r deadline copying ticks dtype a.shape b policy timestamp_ns m)
    publish_flat-Answered policy a dtype (raises c e) given known flat = inl refl
    publish_flat-Answered policy a dtype (returns bytes) given known flat =
        publish_view-Answered policy (contiguous dtype a.shape bytes) (λ v made. (
          contiguous-timestamp dtype a.shape bytes v made,
          record {
            converted = a;
            dtype = dtype;
            bytes = bytes;
            plain = v;
            given = given;
            known = known;
            flat = flat;
            made = made;
            stamp = refl;
          },
        ))

    publish_array-Answered :
        (policy : Backpressure) (a : NdArray) (dtype : Option DType)
        → array ≡ returns a
        → from_numpy_name a.dtype_name ≡ dtype
        → Answered
            (some policy)
            (publish_array h r deadline copying ticks a dtype policy timestamp_ns m)
    publish_array-Answered policy a none given known = inl refl
    publish_array-Answered policy a (some dtype) given known =
        publish_flat-Answered policy a dtype a.buffer given known refl

    -- A call of `publish` from Python that raises has left the memory alone, unless it raises
    -- RuntimeError for a full ring under "block"; `None` comes only under "drop_newest", and only
    -- "block" waits. A publication is a slot that was reserved for the view of the array, with its
    -- type, its shape and the caller's timestamp, filled with its bytes and committed; its dict has
    -- the number of the reservation and that timestamp.
    pub py_publish-Answered :
        (policy : String)
        → Answered
            (parse_policy policy)
            (py_publish h r deadline copying ticks array policy timestamp_ns m)
    unfolding py_publish
    py_publish-Answered policy = go (parse_policy policy) array refl
      where
        go :
            (known : Option Backpressure) (x : PyResult NdArray)
            → array ≡ x
            → Answered known (publish_with h r deadline copying ticks policy known x timestamp_ns m)
        go none x e = inl refl
        go (some p) (raises c x) e = inl refl
        go (some p) (returns a) e = publish_array-Answered p a (from_numpy_name a.dtype_name) e refl
