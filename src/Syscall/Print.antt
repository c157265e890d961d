-- ===== src/Syscall/Print.antt =====
-- The printing syscalls of `handleSyscall`. `fflush` and what goes to stderr are left out.
use cortex_vm.Prelude.{
  ℕ, zero, suc, ◌+◌, ◌%◌, ◌==◌, if◌then◌else◌, List, [], ◌∷◌, map, Result, ok, fatal, diverged,
  ◌>>=◌,
}
use cortex_vm.Word.{add64, sar64, low_bits}
use cortex_vm.Isa.Codes.{a0, a1, stack_words}
use cortex_vm.Machine.{Event, put_i64, put_u64, put_o64, put_x64, put_char, put_float, Vm, emit}
use cortex_vm.Memory.{load_word}

-- `for(int i = n - 1; i >= 0; --i) putchar((u >> i) & 1 ? '1' : '0');`
unfoldable pub binary_digits : ℕ → ℕ → List Event
binary_digits zero u = []
binary_digits (suc i) u = put_char (if sar64 u i % 2 == 1 then b'1' else b'0') ∷ binary_digits i u

-- The formats 1, 2 and 3, which `SYS_PRINT_INT` and `SYS_PRINT_UINT` share.
unfoldable pub print_radix : ℕ → ℕ → Result (List Event)
unfolding binary_digits
print_radix v format =
    if format == 1
    then ok (put_char b'0' ∷ put_char b'b' ∷ binary_digits 64 v)
    else if format == 2
    then ok (put_char b'0' ∷ put_char b'o' ∷ put_o64 v ∷ [])
    else if format == 3
    then ok (put_char b'0' ∷ put_char b'x' ∷ put_x64 v ∷ [])
    else fatal 0x020c

module _ {W : Type 0} where
  unfoldable pub print_int : Vm W → Result (Vm W)
  unfolding print_radix
  print_int vm =
      if vm.regs a1 == 0
      then ok (emit (put_i64 (vm.regs a0) ∷ []) vm)
      else (print_radix (vm.regs a0) (vm.regs a1) >>= λ es. ok (emit es vm))

  unfoldable pub print_uint : Vm W → Result (Vm W)
  unfolding print_radix
  print_uint vm =
      if vm.regs a1 == 0
      then ok (emit (put_u64 (vm.regs a0) ∷ []) vm)
      else (print_radix (vm.regs a0) (vm.regs a1) >>= λ es. ok (emit es vm))

  unfoldable pub print_char : Vm W → Result (Vm W)
  print_char vm = ok (emit (put_char (low_bits (vm.regs a0) 8) ∷ []) vm)

  unfoldable pub print_float : Vm W → Result (Vm W)
  print_float vm = ok (emit (put_float (low_bits (vm.regs a1) 32) (vm.regs a0) ∷ []) vm)

  -- The characters `(char)mem[addr]`, `(char)mem[addr + 1]`, ... before the first '\0'.
  unfoldable pub c_string : (fuel addr code_size : ℕ) → Vm W → Result (List ℕ)
  c_string zero addr code_size vm = diverged
  c_string (suc fuel) addr code_size vm = load_word addr code_size vm >>= λ w.
      let rest = c_string fuel (add64 addr 1) code_size vm in
      if low_bits w 8 == 0 then ok [] else (rest >>= λ cs. ok (low_bits w 8 ∷ cs))

  -- More steps than the regions hold words.
  abbrev pub string_fuel : ℕ → Vm W → ℕ
  string_fuel code_size vm = code_size + vm.heap.used + stack_words + 1

  unfoldable pub print_str : ℕ → Vm W → Result (Vm W)
  unfolding c_string
  print_str code_size vm = c_string (string_fuel code_size vm) (vm.regs a0) code_size vm >>= λ cs.
      ok (emit (map put_char cs) vm)
