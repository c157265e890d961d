-- ===== src/Disassembler/Listing.antt =====
-- The `switch(opcode)` of `disassemble` in src/disassembler.c.
use cortex_vm.Prelude.{ℕ, ◌==◌, if◌then◌else◌, List, Result, fatal}
use cortex_vm.Isa.{opcode}
use cortex_vm.Isa.Codes.{op_r, op_i, op_s, op_l, op_b, op_sys, op_fr, op_fi, op_fb, op_mr, op_mi}
use cortex_vm.Disassembler.Lines.{
  dis_op_r, dis_op_i, dis_op_s, dis_op_l, dis_op_b, dis_op_sys, dis_op_fr, dis_op_fb, dis_op_mr,
  dis_op_mi,
}
use cortex_vm.Disassembler.Floats.{dis_op_fi}

-- The line of a word, before what follows it.
unfoldable pub dis_word : (format_g : ℕ → List ℕ) (widen : ℕ → ℕ) → ℕ → List ℕ → Result (List ℕ)
dis_word format_g widen w rest =
    if opcode w == op_r
    then dis_op_r w rest
    else if opcode w == op_i
    then dis_op_i w rest
    else if opcode w == op_s
    then dis_op_s w rest
    else if opcode w == op_l
    then dis_op_l w rest
    else if opcode w == op_b
    then dis_op_b w rest
    else if opcode w == op_sys
    then dis_op_sys w rest
    else if opcode w == op_fr
    then dis_op_fr w rest
    else if opcode w == op_fi
    then dis_op_fi format_g widen w rest
    else if opcode w == op_fb
    then dis_op_fb w rest
    else if opcode w == op_mr
    then dis_op_mr w rest
    else if opcode w == op_mi
    then dis_op_mi w rest
    else fatal 0x0600
