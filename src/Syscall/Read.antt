-- ===== src/Syscall/Read.antt =====
-- The reading syscalls of `handleSyscall`. stdin is the list of the characters that are left.
use cortex_vm.Prelude.{
  ℕ, ◌+◌, ◌-◌, ltb, ◌==◌, if◌then◌else◌, List, [], ◌∷◌, get_or, Result, ok, fatal, ◌>>=◌,
}
use cortex_vm.Word.{add64}
use cortex_vm.Isa.Codes.{a0, a1}
use cortex_vm.Machine.{Scan, scn_i64, scn_u64, scn_o64, scn_x64, scn_float, Vm, Host, set_reg}
use cortex_vm.Memory.{set_word}

-- `while((ch = getchar()) != '\n' && ch != EOF) continue;`
unfoldable pub flush_line : List ℕ → List ℕ
flush_line [] = []
flush_line (c ∷ rest) = if c == b'\n' then rest else flush_line rest

module _ {W : Type 0} where
  -- One `scanf`, whose failure counts as 0, and the rest of the line.
  unfoldable pub read_scan : Host W → Scan → Vm W → Vm W
  unfolding flush_line
  read_scan host sc vm =
      let got = host.scanf sc vm.input in
      set_reg a0 (get_or got.0 0) (record vm { input = flush_line got.1 })

  -- `SYS_READ_INT` and `SYS_READ_UINT`: the format in a1, binary being read as octal.
  unfoldable pub read_number : Host W → Scan → Vm W → Result (Vm W)
  unfolding read_scan
  read_number host decimal vm =
      if vm.regs a1 == 0
      then ok (read_scan host decimal vm)
      else if vm.regs a1 == 1
      then ok (read_scan host scn_o64 vm)
      else if vm.regs a1 == 2
      then ok (read_scan host scn_o64 vm)
      else if vm.regs a1 == 3
      then ok (read_scan host scn_x64 vm)
      else fatal 0x020c

  unfoldable pub read_int : Host W → Vm W → Result (Vm W)
  unfolding read_number
  read_int host vm = read_number host scn_i64 vm

  unfoldable pub read_uint : Host W → Vm W → Result (Vm W)
  unfolding read_number
  read_uint host vm = read_number host scn_u64 vm

  unfoldable pub read_float : Host W → Vm W → Result (Vm W)
  unfolding read_scan
  read_float host vm = ok (read_scan host scn_float vm)

  -- `EOF` is -1.
  unfoldable pub read_char_from : List ℕ → Vm W → Vm W
  unfolding flush_line
  read_char_from [] vm = set_reg a0 0xffff_ffff_ffff_ffff (record vm { input = [] })
  read_char_from (c ∷ rest) vm = set_reg a0 c (record vm { input = flush_line rest })

  unfoldable pub read_char : Vm W → Result (Vm W)
  unfolding read_char_from
  read_char vm = ok (read_char_from vm.input vm)

  -- The loop of `SYS_READ_STR`, and the '\0' behind it: `limit` is `maxLen - 1`.
  unfoldable pub read_chars : (limit addr i : ℕ) → List ℕ → Vm W → Result (Vm W)
  read_chars limit addr i [] vm = set_word (add64 addr i) 0 (record vm { input = [] })
  read_chars limit addr i (c ∷ rest) vm =
      if ltb i limit
      then (if c == b'\n'
          then set_word (add64 addr i) 0 (record vm { input = rest })
          else (set_word (add64 addr i) c vm >>= λ vm'. read_chars limit addr (i + 1) rest vm'))
      else set_word (add64 addr i) 0 (record vm { input = c ∷ rest })

  unfoldable pub read_str : Vm W → Result (Vm W)
  unfolding read_chars
  read_str vm =
      if vm.regs a1 == 0 then ok vm else read_chars (vm.regs a1 - 1) (vm.regs a0) 0 vm.input vm
