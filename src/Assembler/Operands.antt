-- ===== src/Assembler/Operands.antt =====
-- The arms of the `switch(opcode)` in `assemble` of src/assembler.c: the operands of each format.
use cortex_vm.Prelude.{
  ℕ, ◌==◌, ◌&&◌, ◌||◌, if◌then◌else◌, Bool, Option, none, List, Result, ok, fatal, ◌>>=◌,
}
use cortex_vm.Isa.Codes.{
  op_r, op_mr, op_fr, op_i, op_mi, op_fi, op_s, op_l, op_b, op_fb, op_sys, fn_fsqrt, fn_fabs,
  fn_ftoi, fn_ftoui, fn_itof, fn_uitof, fn_fsub,
}
use cortex_vm.Isa.Encode.{encode_i, encode_s, encode_l, encode_sys}
use cortex_vm.Machine.{Fpu}
use cortex_vm.Assembler.{skip_sep, get_reg, assemble_r}
use cortex_vm.Assembler.Names.{Code}
use cortex_vm.Assembler.Immediate.{FloatText, get_imm}

-- A word, the label that is to be patched into it, and the source behind it.
pub record Statement : Type 0 where
  pub word : ℕ
  pub label : Option (List ℕ)
  pub rest : List ℕ

-- Two registers with a separator between them, and one behind.
unfoldable pub two_regs : List ℕ → Result ((ℕ × ℕ) × List ℕ)
two_regs head = get_reg head >>= λ (first, head1).
    get_reg (skip_sep head1) >>= λ (second, head2). ok ((first, second), head2)

-- The functions of OP_FI that take no immediate.
abbrev pub no_imm : Code → Bool
no_imm c =
    c.op == op_fi
    && (c.fn == fn_fsqrt
        || c.fn == fn_fabs
        || c.fn == fn_ftoi
        || c.fn == fn_ftoui
        || c.fn == fn_itof
        || c.fn == fn_uitof
        || (c.fn == fn_fsub && c.fl == 1))

module _ (fpu : Fpu) (text : FloatText) where
  -- A word made from an immediate.
  abbrev pub with_imm : (ℕ → ℕ) → List ℕ → Result Statement
  with_imm encode head = get_imm fpu text (skip_sep head) >>= λ imm.
      ok (record { word = encode imm.value; label = imm.label; rest = imm.rest })

  unfoldable pub assemble_i : Code → List ℕ → Result Statement
  unfolding two_regs
  assemble_i c head = two_regs head >>= λ ((rd, ra), rest).
      if no_imm c
      then ok (record { word = encode_i c.op c.fn ra rd 0 c.fl; label = none; rest = rest })
      else with_imm (λ v. encode_i c.op c.fn ra rd v c.fl) rest

  unfoldable pub assemble_s : Code → List ℕ → Result Statement
  unfolding two_regs
  assemble_s c head =
      two_regs head >>= λ ((ra, rb), rest). with_imm (λ v. encode_s c.op c.fn ra rb v) rest

  unfoldable pub assemble_l : Code → List ℕ → Result Statement
  unfolding two_regs
  assemble_l c head =
      two_regs head >>= λ ((rd, ra), rest). with_imm (λ v. encode_l c.op c.fn ra rd v) rest

  unfoldable pub assemble_word : Code → List ℕ → Result Statement
  assemble_word c head =
      if c.op == op_r || c.op == op_mr || c.op == op_fr
      then (assemble_r c.op c.fn c.fl head >>= λ (w, rest).
          ok (record { word = w; label = none; rest = rest }))
      else if c.op == op_i || c.op == op_mi || c.op == op_fi
      then assemble_i c head
      else if c.op == op_s || c.op == op_b || c.op == op_fb
      then assemble_s c head
      else if c.op == op_l
      then assemble_l c head
      else if c.op == op_sys
      then ok (record { word = encode_sys c.op c.fn; label = none; rest = head })
      else fatal 0x0302
