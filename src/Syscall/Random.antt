-- ===== src/Syscall/Random.antt =====
-- The syscalls for random numbers and time of `handleSyscall`. Of two calls of `rand` in one C
-- expression the left one is made first here.
pub mod Bounds
use cortex_vm.Prelude.{
  ℕ, ◌*◌, ◌/◌, ◌%◌, ◌==◌, if◌then◌else◌, bit_or, Result, ok, fatal, undefined, ◌>>=◌,
}
use cortex_vm.Word.{add64, sub64, shl64, u64, low_bits, int64, lt_signed}
use cortex_vm.Word.Int.{◌+ℤ◌}
use cortex_vm.Isa.Codes.{a0, a1}
use cortex_vm.Machine.{Vm, Host, Fpu, set_reg}
use cortex_vm.Alu.Multiply.{signed_result}

-- `mn + (int64_t)(r % range)`, where a range of 0 has no remainder.
unfoldable pub in_range : (mn range r : ℕ) → Result ℕ
unfolding signed_result ◌+ℤ◌
in_range mn range r =
    if range == 0 then undefined else signed_result (int64 mn +ℤ int64 (r % range))

module _ {W : Type 0} where
  unfoldable pub rand_seed : Host W → Vm W → Result (Vm W)
  rand_seed host vm = ok (record vm { world = host.srand (low_bits (vm.regs a0) 32) vm.world })

  -- `((uint64_t)rand() << 32) | (uint64_t)rand()`
  unfoldable pub rand_word : Host W → W → ℕ × W
  rand_word host w =
      let first = host.rand w in
      let second = host.rand first.1 in (bit_or (shl64 first.0 32) second.0, second.1)

  unfoldable pub rand_int : Host W → Vm W → Result (Vm W)
  unfolding rand_word
  rand_int host vm =
      let r = rand_word host vm.world in ok (set_reg a0 r.0 (record vm { world = r.1 }))

  unfoldable pub rand_r_int : Host W → Vm W → Result (Vm W)
  unfolding rand_word in_range
  rand_r_int host vm =
      let mn = vm.regs a0 in
      let mx = vm.regs a1 in
      let r = rand_word host vm.world in
      if lt_signed mx mn
      then fatal 0x0213
      else (in_range mn (add64 (sub64 mx mn) 1) r.0 >>= λ v.
          ok (set_reg a0 v (record vm { world = r.1 })))

  unfoldable pub rand_float : Host W → Fpu → Vm W → Result (Vm W)
  rand_float host fpu vm =
      let r = host.rand vm.world in ok (set_reg a0 (fpu.unit_ratio r.0) (record vm { world = r.1 }))

  unfoldable pub time_get : Host W → Vm W → Result (Vm W)
  time_get host vm =
      let t = host.time vm.world in ok (set_reg a0 (u64 (t.0 * 1000)) (record vm { world = t.1 }))

  unfoldable pub time_sleep : Host W → Vm W → Result (Vm W)
  time_sleep host vm =
      ok (record vm { world = host.sleep (low_bits (vm.regs a0 / 1000) 32) vm.world })
