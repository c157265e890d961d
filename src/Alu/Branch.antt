-- ===== src/Alu/Branch.antt =====
-- The conditions of `case OP_B`.
use cortex_vm.Prelude.{ℕ, ltb, leb, ◌==◌, not, if◌then◌else◌, Bool, Result, ok, fatal}
use cortex_vm.Word.{lt_signed}
use cortex_vm.Isa.Codes.{
  fn_beq, fn_bne, fn_blt, fn_bltu, fn_ble, fn_bgt, fn_bgtu, fn_bge, fn_bgeu, fn_bleu,
}

unfoldable pub branch_taken : (fn a b : ℕ) → Result Bool
branch_taken fn a b =
    if fn == fn_beq
    then ok (a == b)
    else if fn == fn_bne
    then ok (not (a == b))
    else if fn == fn_blt
    then ok (lt_signed a b)
    else if fn == fn_bltu
    then ok (ltb a b)
    else if fn == fn_ble
    then ok (not (lt_signed b a))
    else if fn == fn_bgt
    then ok (lt_signed b a)
    else if fn == fn_bgtu
    then ok (ltb b a)
    else if fn == fn_bge
    then ok (not (lt_signed a b))
    else if fn == fn_bgeu
    then ok (leb b a)
    else if fn == fn_bleu
    then ok (leb a b)
    else fatal 0x0206
