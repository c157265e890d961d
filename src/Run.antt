-- ===== src/Run.antt =====
-- `run` of src/core.c with labels as values: the threaded interpreter over predecoded records.
-- The PC is a local variable; `regs[PC]` is written for the syscalls, the extensions and at the end.
pub mod Dispatch
pub mod Agree
pub mod Simulation
pub mod SimulationMemory
pub mod Refinement
pub mod Bounds
pub mod Loop
use cortex_vm.Prelude.{
  ℕ, zero, suc, ltb, leb, ◌==◌, not, if◌then◌else◌, bit_and, bit_or, bit_xor, Bool, none, some,
  Result, ok, fatal, undefined, diverged, ◌>>=◌,
}
use cortex_vm.Word.{add64, sub64, shl64, low_bits, lt_signed}
use cortex_vm.Isa.Codes.{pc_reg, zero_reg}
use cortex_vm.Machine.{Vm, Host, Fpu, set_reg}
use cortex_vm.Memory.{set_word, load_word}
use cortex_vm.Alu.{flag, add_or_sub, shift_right}
use cortex_vm.Syscall.{handle_syscall}
use cortex_vm.Extension.{extension_opcode}
use cortex_vm.Step.{drop_char}
use cortex_vm.Decoded.{
  Handler, r_addsub, r_or, r_xor, r_and, r_sll, r_sr, r_sltu, r_slt, r_seq, i_addsub, i_or, i_xor,
  i_and, i_sll, i_sr, i_jmp, s_sw, l_lw, b_beq, b_bne, b_blt, b_bltu, b_bge, b_bgt, b_bgtu, b_ble,
  b_bleu, b_bgeu, sys_halt, sys_syscall, sys_nop, sys_break, do_illegal, DecodedInstr,
}

-- `NEXT()` with this `pc`, or a return of `run`.
pub data Flow (W : Type 0) : Type 0 where
  next : ℕ → Vm W → Flow W
  stop : Vm W → Flow W

-- Targets behind the code are moved to the sentinel.
abbrev pub clamp : (code_size target : ℕ) → ℕ
clamp code_size target = if ltb code_size target then code_size else target

module _ {W : Type 0} where
  -- `r[d->rd] = v; NEXT();`
  abbrev pub write : DecodedInstr → ℕ → ℕ → Vm W → Flow W
  write d v pc vm = next pc (set_reg d.rd v vm)

  module _ (host : Host W) (fpu : Fpu) (code_size extensions : ℕ) where
    -- `BR(COND)`
    abbrev pub branch : DecodedInstr → Bool → ℕ → Vm W → Flow W
    branch d cond pc vm =
        let target = clamp code_size (add64 (sub64 pc 1) d.imm) in
        next (if cond then target else pc) vm

    -- `l_sys_syscall`: the PC is written out before and read back after.
    unfoldable pub run_syscall : ℕ → Vm W → Result (Flow W)
    run_syscall pc vm = handle_syscall host fpu code_size (set_reg pc_reg pc vm) >>= λ (on, vm').
        ok (if on then next (vm'.regs pc_reg) vm' else stop vm')

    -- `do_illegal`
    unfoldable pub run_illegal : DecodedInstr → ℕ → Vm W → Result (Flow W)
    run_illegal d pc vm =
        extension_opcode fpu d.op extensions d.raw (set_reg pc_reg pc vm)
        >>= elim [ none ↦ fatal 0x0201 | some vm' ↦ ok (next (vm'.regs pc_reg) vm') ]

    -- The code at each label; `pc` already points past the instruction.
    unfoldable pub run_handler : Handler → DecodedInstr → ℕ → Vm W → Result (Flow W)
    unfolding run_syscall run_illegal
    run_handler r_addsub d pc vm =
        add_or_sub 0x0208 d.fl (vm.regs d.ra) (vm.regs d.rb) >>= λ v. ok (write d v pc vm)
    run_handler r_or d pc vm = ok (write d (bit_or (vm.regs d.ra) (vm.regs d.rb)) pc vm)
    run_handler r_xor d pc vm = ok (write d (bit_xor (vm.regs d.ra) (vm.regs d.rb)) pc vm)
    run_handler r_and d pc vm = ok (write d (bit_and (vm.regs d.ra) (vm.regs d.rb)) pc vm)
    run_handler r_sll d pc vm =
        ok (write d (shl64 (vm.regs d.ra) (low_bits (vm.regs d.rb) 6)) pc vm)
    run_handler r_sr d pc vm =
        shift_right 0x0209 d.fl (vm.regs d.ra) (low_bits (vm.regs d.rb) 6) >>= λ v.
        ok (write d v pc vm)
    run_handler r_sltu d pc vm = ok (write d (flag (ltb (vm.regs d.ra) (vm.regs d.rb))) pc vm)
    run_handler r_slt d pc vm = ok (write d (flag (lt_signed (vm.regs d.ra) (vm.regs d.rb))) pc vm)
    run_handler r_seq d pc vm = ok (write d (flag ((vm.regs d.ra) == (vm.regs d.rb))) pc vm)
    run_handler i_addsub d pc vm =
        add_or_sub 0x020a d.fl (vm.regs d.ra) d.imm >>= λ v. ok (write d v pc vm)
    run_handler i_or d pc vm = ok (write d (bit_or (vm.regs d.ra) d.imm) pc vm)
    run_handler i_xor d pc vm = ok (write d (bit_xor (vm.regs d.ra) d.imm) pc vm)
    run_handler i_and d pc vm = ok (write d (bit_and (vm.regs d.ra) d.imm) pc vm)
    run_handler i_sll d pc vm = ok (write d (shl64 (vm.regs d.ra) (low_bits d.imm 6)) pc vm)
    run_handler i_sr d pc vm =
        shift_right 0x020b d.fl (vm.regs d.ra) (low_bits d.imm 6) >>= λ v. ok (write d v pc vm)
    run_handler i_jmp d pc vm =
        ok (next (clamp code_size (add64 (vm.regs d.ra) d.imm)) (set_reg d.rd pc vm))
    run_handler s_sw d pc vm =
        set_word (add64 (vm.regs d.ra) d.imm) (vm.regs d.rb) vm >>= λ vm'. ok (next pc vm')
    run_handler l_lw d pc vm =
        load_word (add64 (vm.regs d.ra) d.imm) code_size vm >>= λ v. ok (write d v pc vm)
    run_handler b_beq d pc vm = ok (branch d ((vm.regs d.ra) == (vm.regs d.rb)) pc vm)
    run_handler b_bne d pc vm = ok (branch d (not ((vm.regs d.ra) == (vm.regs d.rb))) pc vm)
    run_handler b_blt d pc vm = ok (branch d (lt_signed (vm.regs d.ra) (vm.regs d.rb)) pc vm)
    run_handler b_bltu d pc vm = ok (branch d (ltb (vm.regs d.ra) (vm.regs d.rb)) pc vm)
    run_handler b_bge d pc vm = ok (branch d (not (lt_signed (vm.regs d.ra) (vm.regs d.rb))) pc vm)
    run_handler b_bgt d pc vm = ok (branch d (lt_signed (vm.regs d.rb) (vm.regs d.ra)) pc vm)
    run_handler b_bgtu d pc vm = ok (branch d (ltb (vm.regs d.rb) (vm.regs d.ra)) pc vm)
    run_handler b_ble d pc vm = ok (branch d (not (lt_signed (vm.regs d.rb) (vm.regs d.ra))) pc vm)
    run_handler b_bleu d pc vm = ok (branch d (leb (vm.regs d.ra) (vm.regs d.rb)) pc vm)
    run_handler b_bgeu d pc vm = ok (branch d (leb (vm.regs d.rb) (vm.regs d.ra)) pc vm)
    run_handler sys_halt d pc vm = ok (stop (set_reg pc_reg pc vm))
    run_handler sys_syscall d pc vm = run_syscall pc vm
    run_handler sys_nop d pc vm = ok (next pc vm)
    run_handler sys_break d pc vm = ok (next pc (record vm { input = drop_char vm.input }))
    run_handler do_illegal d pc vm = run_illegal d pc vm

    -- The loop that `NEXT()` makes, from the fetch on, over the array of records.
    unfoldable pub run_from : (decoded : ℕ → DecodedInstr) (fuel pc : ℕ) → Vm W → Result (Vm W)
    run_from decoded zero pc vm = diverged
    run_from decoded (suc fuel) pc vm =
        let d = decoded pc in
        if leb pc code_size
        then (run_handler d.handler d (add64 pc 1) vm >>= elim [
          | next pc' vm' ↦ run_from decoded fuel pc' (set_reg zero_reg 0 vm')
          | stop vm' ↦ ok vm'
        ])
        else undefined

    -- What follows the decoding.
    unfoldable pub run : (decoded : ℕ → DecodedInstr) (fuel : ℕ) → Vm W → Result (Vm W)
    unfolding run_from
    run decoded fuel vm =
        if ltb code_size (vm.regs pc_reg) then ok vm else run_from decoded fuel (vm.regs pc_reg) vm
