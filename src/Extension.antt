-- ===== src/Extension.antt =====
-- `handleExtensionOpcode` of src/core.c: `none` where no enabled extension knows the opcode.
use cortex_vm.Prelude.{
  ℕ, ◌/◌, ◌%◌, ◌==◌, if◌then◌else◌, Bool, Option, none, some, Result, ok, ◌>>=◌,
}
use cortex_vm.Word.{add64, sub64, sign_ext32, sign_ext36}
use cortex_vm.Isa.{funct, flags, i_ra, i_rd, i_rb, i_imm, b_imm}
use cortex_vm.Isa.Codes.{op_fr, op_fi, op_fb, op_mr, op_mi, pc_reg}
use cortex_vm.Machine.{Vm, Fpu, set_reg}
use cortex_vm.Alu.Float.{alu_fr, alu_fi, float_branch_taken}
use cortex_vm.Alu.Multiply.{alu_mr, alu_mi}

-- `extensions & EXT_FLOAT` and `extensions & EXT_M`.
abbrev pub has_float : ℕ → Bool
has_float extensions = extensions % 2 == 1

abbrev pub has_m : ℕ → Bool
has_m extensions = extensions / 2 % 2 == 1

module _ {W : Type 0} where
  -- `regs[PC] = (regs[PC] - 1) + imm`, as in every taken branch.
  unfoldable pub branch_to : ℕ → Vm W → Vm W
  branch_to imm vm = set_reg pc_reg (add64 (sub64 (vm.regs pc_reg) 1) imm) vm

  module _ (fpu : Fpu) where
    unfoldable pub exec_fr : ℕ → Vm W → Result (Vm W)
    exec_fr w vm = alu_fr fpu (funct w) (vm.regs (i_ra w)) (vm.regs (i_rb w)) >>= λ v.
        ok (set_reg (i_rd w) v vm)

    unfoldable pub exec_fi : ℕ → Vm W → Result (Vm W)
    exec_fi w vm = alu_fi fpu (funct w) (flags w) (vm.regs (i_ra w)) (i_imm w) >>= λ v.
        ok (set_reg (i_rd w) v vm)

    unfoldable pub exec_fb : ℕ → Vm W → Result (Vm W)
    unfolding branch_to
    exec_fb w vm =
        float_branch_taken fpu (funct w) (vm.regs (i_ra w)) (vm.regs (i_rb w)) >>= λ taken.
        ok (if taken then branch_to (sign_ext36 (b_imm w)) vm else vm)

  unfoldable pub exec_mr : ℕ → Vm W → Result (Vm W)
  exec_mr w vm =
      alu_mr (funct w) (vm.regs (i_ra w)) (vm.regs (i_rb w)) >>= λ v. ok (set_reg (i_rd w) v vm)

  unfoldable pub exec_mi : ℕ → Vm W → Result (Vm W)
  exec_mi w vm =
      alu_mi (funct w) (vm.regs (i_ra w)) (sign_ext32 (i_imm w)) >>= λ v. ok (set_reg (i_rd w) v vm)

  -- `handled = true`
  abbrev pub taken_up : Result (Vm W) → Result (Option (Vm W))
  taken_up r = r >>= λ vm. ok (some vm)

  -- The switch behind `!handled && extensions & EXT_M`.
  unfoldable pub m_opcode : (extensions op w : ℕ) → Vm W → Result (Option (Vm W))
  m_opcode extensions op w vm =
      if has_m extensions
      then (if op == op_mr
          then taken_up (exec_mr w vm)
          else if op == op_mi
          then taken_up (exec_mi w vm)
          else ok none)
      else ok none

  unfoldable pub extension_opcode : Fpu → (op extensions w : ℕ) → Vm W → Result (Option (Vm W))
  unfolding m_opcode
  extension_opcode fpu op extensions w vm =
      if has_float extensions
      then (if op == op_fr
          then taken_up (exec_fr fpu w vm)
          else if op == op_fi
          then taken_up (exec_fi fpu w vm)
          else if op == op_fb
          then taken_up (exec_fb fpu w vm)
          else m_opcode extensions op w vm)
      else m_opcode extensions op w vm
