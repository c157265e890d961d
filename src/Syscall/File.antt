-- ===== src/Syscall/File.antt =====
-- The file syscalls of `handleSyscall`, over `fdTable`.
use cortex_vm.Prelude.{
  ℕ, zero, suc, ◌+◌, ltb, leb, ◌==◌, if◌then◌else◌, Option, none, some, List, [], ◌∷◌, foldl,
  Result, ok, fatal, ◌>>=◌,
}
use cortex_vm.Word.{add64, low_bits}
use cortex_vm.Isa.Codes.{a0, a1}
use cortex_vm.Machine.{Vm, Host, put, set_reg}
use cortex_vm.Memory.{set_word, load_word}
use cortex_vm.Syscall.Print.{c_string, string_fuel}

-- `MAX_FDS`
abbrev pub max_fds : ℕ
max_fds = 64

-- The first free slot among the `n` ones from `fi` on.
unfoldable pub free_fd : (ℕ → Option ℕ) → (n fi : ℕ) → Option ℕ
free_fd fds zero fi = none
free_fd fds (suc n) fi = elim (fds fi) [ none ↦ some fi | some f ↦ free_fd fds n (fi + 1) ]

-- `fdTable[fd]` for `int fd = (int)regs[A0]`, which is NULL or out of range in the failing case.
unfoldable pub open_file : (ℕ → Option ℕ) → ℕ → Option ℕ
open_file fds a = let fd = low_bits a 32 in if ltb fd max_fds then fds fd else none

module _ {W : Type 0} where
  -- The path, at most `n` characters of it.
  unfoldable pub read_path : (n addr code_size : ℕ) → Vm W → Result (List ℕ)
  read_path zero addr code_size vm = ok []
  read_path (suc n) addr code_size vm = load_word addr code_size vm >>= λ w.
      let rest = read_path n (add64 addr 1) code_size vm in
      if low_bits w 8 == 0 then ok [] else (rest >>= λ cs. ok (low_bits w 8 ∷ cs))

  -- `fopen` into the slot that was found.
  unfoldable pub open_at : Host W → List ℕ → Option ℕ → Vm W → Result (Vm W)
  open_at host path none vm = fatal 0x020d
  open_at host path (some fd) vm =
      let opened = host.fopen path (vm.regs a1) vm.world in
      elim opened.0 [
        | none ↦ fatal 0x0210
        | some f ↦ ok (set_reg a0 fd (record vm { fds = put vm.fds fd (some f); world = opened.1 }))
      ]

  unfoldable pub file_open : Host W → ℕ → Vm W → Result (Vm W)
  file_open host code_size vm = read_path 4095 (vm.regs a0) code_size vm >>= λ path.
      if ltb (vm.regs a1) 3 then open_at host path (free_fd vm.fds 61 3) vm else fatal 0x020c

  -- One word for each character, then the '\0'; a0 is the number of characters.
  unfoldable pub write_chars : (buf wi : ℕ) → List ℕ → Vm W → Result (Vm W)
  write_chars buf wi [] vm = set_word (add64 buf wi) 0 vm >>= λ vm'. ok (set_reg a0 wi vm')
  write_chars buf wi (c ∷ cs) vm =
      set_word (add64 buf wi) c vm >>= λ vm'. write_chars buf (wi + 1) cs vm'

  unfoldable pub file_read_from : Host W → Option ℕ → Vm W → Result (Vm W)
  unfolding write_chars
  file_read_from host none vm = fatal 0x0211
  file_read_from host (some f) vm =
      let got = host.fgetc f vm.world in
      write_chars (vm.regs a1) 0 got.0 (record vm { world = got.1 })

  unfoldable pub file_read : Host W → Vm W → Result (Vm W)
  unfolding open_file file_read_from
  file_read host vm = file_read_from host (open_file vm.fds (vm.regs a0)) vm

  unfoldable pub file_close_at : Host W → Option ℕ → Vm W → Vm W
  file_close_at host none vm = vm
  file_close_at host (some f) vm = record vm {
    fds = put vm.fds (low_bits (vm.regs a0) 32) none;
    world = host.fclose f vm.world;
  }

  -- The slots 0 to 2 are never closed.
  unfoldable pub file_close : Host W → Vm W → Result (Vm W)
  unfolding open_file file_close_at
  file_close host vm =
      if leb 3 (low_bits (vm.regs a0) 32)
      then ok (file_close_at host (open_file vm.fds (vm.regs a0)) vm)
      else ok vm

  unfoldable pub file_write_to : Host W → ℕ → Option ℕ → Vm W → Result (Vm W)
  unfolding c_string
  file_write_to host code_size none vm = fatal 0x0212
  file_write_to host code_size (some f) vm =
      c_string (string_fuel code_size vm) (vm.regs a1) code_size vm >>= λ cs.
      ok (record vm { world = foldl (λ w c. host.fputc c f w) vm.world cs })

  unfoldable pub file_write : Host W → ℕ → Vm W → Result (Vm W)
  unfolding open_file file_write_to
  file_write host code_size vm = file_write_to host code_size (open_file vm.fds (vm.regs a0)) vm
