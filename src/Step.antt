-- ===== src/Step.antt =====
-- `step` of src/core.c: the portable interpreter, which decodes each word when it meets it.
pub mod Frame
use cortex_vm.Prelude.{
  ℕ, zero, suc, ◌+◌, ltb, leb, ◌==◌, ◌&&◌, if◌then◌else◌, Bool, true, false, none, some, List, [],
  ◌∷◌, Result, ok, fatal, undefined, diverged, ◌>>=◌,
}
use cortex_vm.Word.{add64, sign_ext32, sign_ext36}
use cortex_vm.Isa.{opcode, funct, flags, i_ra, i_rd, i_rb, i_imm, s_imm, l_imm, b_imm}
use cortex_vm.Isa.Codes.{
  op_r, op_i, op_s, op_l, op_b, op_sys, fn_jmp, fn_sw, fn_lw, fn_halt, fn_syscall, fn_nop, fn_break,
  pc_reg, sp_reg, zero_reg, stack_size, stack_addr,
}
use cortex_vm.Machine.{Vm, Host, Fpu, set_reg}
use cortex_vm.Memory.{set_word, load_word}
use cortex_vm.Alu.{alu_r, alu_i}
use cortex_vm.Alu.Branch.{branch_taken}
use cortex_vm.Syscall.{handle_syscall}
use cortex_vm.Extension.{branch_to, extension_opcode}

-- `getchar()`, whose result is not used.
abbrev pub drop_char : List ℕ → List ℕ
drop_char [] = []
drop_char (c ∷ cs) = cs

module _ {W : Type 0} where
  unfoldable pub exec_r : ℕ → Vm W → Result (Vm W)
  exec_r w vm = alu_r (funct w) (flags w) (vm.regs (i_ra w)) (vm.regs (i_rb w)) >>= λ v.
      ok (set_reg (i_rd w) v vm)

  -- `next` is read, the PC is set, and then `rd`.
  unfoldable pub exec_jmp : ℕ → Vm W → Vm W
  exec_jmp w vm =
      set_reg (i_rd w) (vm.regs pc_reg)
        (set_reg pc_reg (add64 (vm.regs (i_ra w)) (sign_ext32 (i_imm w))) vm)

  unfoldable pub exec_i : ℕ → Vm W → Result (Vm W)
  unfolding exec_jmp
  exec_i w vm =
      if funct w == fn_jmp
      then ok (exec_jmp w vm)
      else (alu_i (funct w) (flags w) (vm.regs (i_ra w)) (sign_ext32 (i_imm w)) >>= λ v.
          ok (set_reg (i_rd w) v vm))

  unfoldable pub exec_s : ℕ → Vm W → Result (Vm W)
  exec_s w vm =
      if funct w == fn_sw
      then set_word (add64 (vm.regs (i_ra w)) (sign_ext36 (s_imm w))) (vm.regs (i_rb w)) vm
      else fatal 0x0204

  unfoldable pub exec_l : ℕ → ℕ → Vm W → Result (Vm W)
  exec_l code_size w vm =
      if funct w == fn_lw
      then (load_word (add64 (vm.regs (i_ra w)) (sign_ext36 (l_imm w))) code_size vm >>= λ v.
          ok (set_reg (i_rd w) v vm))
      else fatal 0x0205

  unfoldable pub exec_b : ℕ → Vm W → Result (Vm W)
  unfolding branch_to
  exec_b w vm = branch_taken (funct w) (vm.regs (i_ra w)) (vm.regs (i_rb w)) >>= λ taken.
      ok (if taken then branch_to (sign_ext36 (b_imm w)) vm else vm)

  -- The instruction did not stop the machine.
  abbrev pub running : Result (Vm W) → Result (Bool × Vm W)
  running r = r >>= λ vm. ok (true, vm)

  module _ (host : Host W) (fpu : Fpu) (code_size extensions : ℕ) where
    unfoldable pub exec_sys : ℕ → Vm W → Result (Bool × Vm W)
    exec_sys w vm =
        if funct w == fn_halt
        then ok (false, vm)
        else if funct w == fn_syscall
        then handle_syscall host fpu code_size vm
        else if funct w == fn_nop
        then ok (true, vm)
        else if funct w == fn_break
        then ok (true, record vm { input = drop_char vm.input })
        else fatal 0x0207

    -- `default`: an extension's opcode, or none.
    unfoldable pub exec_other : ℕ → Vm W → Result (Bool × Vm W)
    exec_other w vm =
        extension_opcode fpu (opcode w) extensions w vm
        >>= elim [ none ↦ fatal 0x0201 | some vm' ↦ ok (true, vm') ]

    -- `switch(opcode)`
    unfoldable pub execute : ℕ → Vm W → Result (Bool × Vm W)
    execute w vm =
        if opcode w == op_r
        then running (exec_r w vm)
        else if opcode w == op_i
        then running (exec_i w vm)
        else if opcode w == op_s
        then running (exec_s w vm)
        else if opcode w == op_l
        then running (exec_l code_size w vm)
        else if opcode w == op_b
        then running (exec_b w vm)
        else if opcode w == op_sys
        then exec_sys w vm
        else exec_other w vm

    -- What follows the switch.
    unfoldable pub finish_step : Bool × Vm W → Result (Bool × Vm W)
    finish_step (on, vm) =
        if leb (stack_size + stack_addr) (vm.regs sp_reg)
        then fatal 0x020f
        else ok (on && ltb (vm.regs pc_reg) code_size, set_reg zero_reg 0 vm)

    -- The word is fetched without a test of the PC.
    unfoldable pub step : Vm W → Result (Bool × Vm W)
    step vm =
        if ltb (vm.regs pc_reg) code_size
        then (execute (vm.code (vm.regs pc_reg)) (set_reg pc_reg (add64 (vm.regs pc_reg) 1) vm)
            >>= finish_step)
        else undefined

    -- `while(step(vm, fileLength, extensions, exit_code));`
    unfoldable pub step_loop : ℕ → Vm W → Result (Vm W)
    step_loop zero vm = diverged
    step_loop (suc fuel) vm =
        step vm >>= λ (on, vm'). elim on [ true ↦ step_loop fuel vm' | false ↦ ok vm' ]
