-- ===== src/Registry/Drop.antt =====
-- `drop_consumer_bit` and `active_mask` in closed form.
use tenzor_bus.Common.{
  ℕ, zero, suc, ◌≡◌, ap, ◌∙◌, false, ◌&&◌, ◌==◌, ltb, if◌then◌else◌, for_to, map_below,
  map_below-suc, arith, fun_ext,
}
use tenzor_bus.Common.Bits.{test_bit, test_bit-set_bit, test_bit-clear_bit, test_bit-zero}
use tenzor_bus.Proto.{max_consumers}
use tenzor_bus.Mem.{Slot, Entry, Mem, Ring, at_slot}
use tenzor_bus.Registry.{
  is_active, active_mask_body, active_mask, clear_reader, drop_bit_body, drop_consumer_bit,
}

-- The loop has cleared the bit in the slots below `n`, and touched nothing else.
drop_loop :
    (index : ℕ) (n : ℕ) (m : Mem)
    → (for_to n (drop_bit_body index) (m, false)).0
      ≡ record m { slots = map_below n (clear_reader index) m.slots }
unfolding for_to
drop_loop index zero m = ap (λ f. record m { slots = f }) (fun_ext (λ j. ground arith))
drop_loop index (suc n) m =
    ap (λ t. at_slot n (clear_reader index) t) (drop_loop index n m)
    ∙ ap (λ f. record m { slots = f }) (map_below-suc n (clear_reader index) m.slots)

-- `drop_consumer_bit` clears the consumer's reader bit in every slot and changes nothing else.
pub drop_consumer_bit-eq :
    (r : Ring) (index : ℕ) (m : Mem)
    → (drop_consumer_bit r index m).0
      ≡ record m { slots = map_below r.slot_count (clear_reader index) m.slots }
unfolding drop_consumer_bit
drop_consumer_bit-eq r index m = drop_loop index r.slot_count m

mask_loop :
    (entries : ℕ → Entry) (n i : ℕ)
    → test_bit (for_to n (active_mask_body entries) 0) i ≡ (ltb i n && is_active (entries i))
unfolding for_to
mask_loop entries zero i = rw (test_bit-zero i) (ground arith)
mask_loop entries (suc n) i =
    ground
      (arith, mask_loop entries n i, test_bit-set_bit (for_to n (active_mask_body entries) 0) n i)

-- The reader mask of a publication has exactly the bits of the registered consumers.
pub test_bit-active_mask :
    (m : Mem) (i : ℕ)
    → test_bit (active_mask m) i ≡ (ltb i max_consumers && is_active (m.entries i))
unfolding active_mask
test_bit-active_mask m i = mask_loop m.entries max_consumers i

pub test_bit-clear_reader :
    (index : ℕ) (s : Slot) (i : ℕ)
    → test_bit (clear_reader index s).mask i ≡ (if index == i then false else test_bit s.mask i)
test_bit-clear_reader index s i = ground (arith, test_bit-clear_bit s.mask index i)
