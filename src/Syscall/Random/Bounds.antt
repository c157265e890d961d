-- ===== src/Syscall/Random/Bounds.antt =====
-- The range of `SYS_RAND_R_INT` of src/core.c.
use native.Mathlib.Nat.{mod-lt}
use cortex_vm.Prelude.{ℕ, suc, ◌≤◌, ◌<◌, ◌≡◌, ◌==◌, ◌%◌, refl, false, ok, arith}
use cortex_vm.Word.{word_mod, sign_bit, int64, lt_signed, add64, sub64}
use cortex_vm.Word.Int.{◌+ℤ◌, ◌≤ℤ◌}
use cortex_vm.Isa.Codes.{a0, a1}
use cortex_vm.Machine.{Vm, Host, set_reg}
use cortex_vm.Alu.Multiply.{signed_result}
use cortex_vm.Syscall.Random.{in_range, rand_r_int, rand_word}

-- An offset that does not lead past `mx`.
signed_sum :
    (mn mx d : ℕ)
    → mn < word_mod
    → mx < word_mod
    → lt_signed mx mn ≡ false
    → sub64 mx mn < sign_bit
    → d ≤ sub64 mx mn
    → (signed_result (int64 mn +ℤ int64 d) ≡ ok (add64 mn d))
      × ((int64 mn ≤ℤ int64 (add64 mn d)) × (int64 (add64 mn d) ≤ℤ int64 mx))
unfolding signed_result ◌+ℤ◌
signed_sum mn mx d hmn hmx le near h = (ground arith, (ground arith, ground arith))

mod-add64 : (d r : ℕ) → d < sign_bit → r % add64 d 1 ≤ d
mod-add64 d r h =
    let e : add64 d 1 ≡ suc d = omega arith in
    rw e (omega (arith, mod-lt r {m = suc d} (omega arith)))

in_range-bounded :
    (mn mx r : ℕ)
    → mn < word_mod
    → mx < word_mod
    → lt_signed mx mn ≡ false
    → sub64 mx mn < sign_bit
    → (v : ℕ) × ((in_range mn (add64 (sub64 mx mn) 1) r ≡ ok v)
        × ((int64 mn ≤ℤ int64 v) × (int64 v ≤ℤ int64 mx)))
unfolding in_range
in_range-bounded mn mx r hmn hmx le near =
    let range = add64 (sub64 mx mn) 1 in
    let some_range : (range == 0) ≡ false = ground arith in
    let fits : r % range ≤ sub64 mx mn = mod-add64 (sub64 mx mn) r near in
    let (sum, bounds) = signed_sum mn mx (r % range) hmn hmx le near fits in
    (add64 mn (r % range), (rw some_range sum, bounds))

module _ {W : Type 0} (host : Host W) (vm : Vm W) where
  -- For words a0 and a1 in this order as signed numbers and less than 2 ^ 63 apart,
  -- `SYS_RAND_R_INT` returns and puts a number between them, as signed numbers, in a0.
  pub rand_r_int-bounded :
      vm.regs a0 < word_mod
      → vm.regs a1 < word_mod
      → lt_signed (vm.regs a1) (vm.regs a0) ≡ false
      → sub64 (vm.regs a1) (vm.regs a0) < sign_bit
      → (vm' : Vm W) × ((rand_r_int host vm ≡ ok vm')
          × ((int64 (vm.regs a0) ≤ℤ int64 (vm'.regs a0))
              × (int64 (vm'.regs a0) ≤ℤ int64 (vm.regs a1))))
  unfolding rand_r_int
  rand_r_int-bounded hmn hmx le near =
      let (v, (drawn, bounds)) =
        in_range-bounded (vm.regs a0) (vm.regs a1) (rand_word host vm.world).0 hmn hmx le near in
      (
        set_reg a0 v (record vm { world = (rand_word host vm.world).1 }),
        (rw (le, drawn) refl, bounds),
      )
