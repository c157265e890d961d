-- ===== src/Alu/Float.antt =====
-- `OP_FR`, `OP_FI` and the conditions of `OP_FB` of `handleExtensionOpcode`.
use cortex_vm.Prelude.{ℕ, ◌==◌, if◌then◌else◌, Bool, Result, ok, fatal}
use cortex_vm.Machine.{Fpu}
use cortex_vm.Isa.Codes.{
  fn_fadd, fn_fsub, fn_fmul, fn_fdiv, fn_fsqrt, fn_fabs, fn_ftoi, fn_itof, fn_ftoui, fn_uitof,
  fn_fblt, fn_fble, fn_fbgt, fn_fbge,
}

module _ (fpu : Fpu) where
  unfoldable pub alu_fr : (fn a b : ℕ) → Result ℕ
  alu_fr fn a b =
      if fn == fn_fadd
      then ok (fpu.fadd a b)
      else if fn == fn_fsub
      then ok (fpu.fsub a b)
      else if fn == fn_fmul
      then ok (fpu.fmul a b)
      else if fn == fn_fdiv
      then ok (fpu.fdiv a b)
      else fatal 0x0202

  -- `imm` is the 32-bit pattern of a `float`. `fsubi` with the flag set is a negation.
  unfoldable pub alu_fi : (fn fl a imm : ℕ) → Result ℕ
  alu_fi fn fl a imm =
      let d = fpu.widen imm in
      if fn == fn_fadd
      then ok (fpu.fadd a d)
      else if fn == fn_fsub
      then (if fl == 1 then ok (fpu.fneg a) else ok (fpu.fsub a d))
      else if fn == fn_fmul
      then ok (fpu.fmul a d)
      else if fn == fn_fdiv
      then ok (fpu.fdiv a d)
      else if fn == fn_fsqrt
      then ok (fpu.fsqrt a)
      else if fn == fn_fabs
      then ok (fpu.fabs a)
      else if fn == fn_ftoi
      then ok (fpu.ftoi a)
      else if fn == fn_ftoui
      then ok (fpu.ftoui a)
      else if fn == fn_itof
      then ok (fpu.itof a)
      else if fn == fn_uitof
      then ok (fpu.uitof a)
      else fatal 0x0202

  unfoldable pub float_branch_taken : (fn a b : ℕ) → Result Bool
  float_branch_taken fn a b =
      if fn == fn_fblt
      then ok (fpu.flt a b)
      else if fn == fn_fble
      then ok (fpu.fle a b)
      else if fn == fn_fbgt
      then ok (fpu.flt b a)
      else if fn == fn_fbge
      then ok (fpu.fle b a)
      else fatal 0x0202
