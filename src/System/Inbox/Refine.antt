-- ===== src/System/Inbox/Refine.antt =====
-- The steps of the ring against their actions on the inboxes.
pub mod Quiet
pub mod Moves
pub mod Taken
use tenzor_bus.Common.{ℕ, ◌+◌, ◌^◌, ◌<◌, ◌≤◌, ◌≡◌, true, arith, u64}
use tenzor_bus.Proto.{state_committed}
use tenzor_bus.Mem.{Mem, Ring}
use tenzor_bus.Host.{Host}
use tenzor_bus.Producer.Select.{is_free}
use tenzor_bus.Create.{format}
use tenzor_bus.Create.Geometry.{format-next_seq, format-free}
use tenzor_bus.System.{System, Reach, here, later}
use tenzor_bus.System.Safety.{Inv-start, Reach-Inv, start}
use tenzor_bus.System.Order.{Young, Ordered}
use tenzor_bus.System.Order.Steps.{Step-Ordered, Step-counts}
use tenzor_bus.System.Inbox.{Action, waiting_for, steps}

Ordered-start :
    (r : Ring) (m : Mem)
    → m.next_seq ≡ 1
    → ((j : ℕ) → is_free (m.slots j) ≡ true)
    → Ordered r (start m)
Ordered-start r m first free = record {
  counting = omega (arith, first);
  numbered = λ j lt u. ground (arith, free j);
  distinct = λ i j lt lt' u u' e. ground (arith, free i);
  writer = λ id w e. absurd cc;
  low = λ id c e. absurd cc;
  seen = λ l x c e known. absurd cc;
}

module _ {r : Ring} where
  ordered :
      {s : System} (p : Reach r (start (format r)) s)
      → steps p < 2 ^ 61
      → (s.mem.next_seq ≤ steps p + 1) × Ordered r s
  unfolding steps
  ordered here bound = (
    omega (arith, format-next_seq r),
    Ordered-start r (format r) (format-next_seq r) (λ j. let e = format-free r j in ground arith),
  )
  ordered (later {t} p st) bound =
      let (count, ord) = ordered p (omega arith) in
      let young : Young t = omega arith in
      let grown = Step-counts st (Reach-Inv (Inv-start r (format r)) p) ord young in
      (
        omega arith,
        Step-Ordered st (Reach-Inv (Inv-start r (format r)) p)
            (Reach-Inv (Inv-start r (format r)) (later p st)) young ord,
      )

  -- In every state that fewer than 2^61 steps reach from a new ring: the slots in use have
  -- different numbers below the counter, each writer's slot has the writer's number, and no
  -- consumer holds a lease that is newer than the last number it has taken.
  pub Reach-Ordered :
      {s : System} (p : Reach r (start (format r)) s) → steps p < 2 ^ 61 → Ordered r s
  Reach-Ordered p bound = (ordered p bound).1
