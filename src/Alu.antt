-- ===== src/Alu.antt =====
-- The arithmetic of `step` and `handleExtensionOpcode` in src/core.c: what each function code
-- computes from the operands. A function code without a case ends the process.
pub mod Branch
pub mod Multiply
pub mod Float
use cortex_vm.Prelude.{
  ℕ, ltb, ◌==◌, if◌then◌else◌, bit_and, bit_or, bit_xor, Bool, Result, ok, fatal,
}
use cortex_vm.Word.{add64, sub64, shl64, shr, sar64, low_bits, lt_signed}
use cortex_vm.Isa.Codes.{fn_addsub, fn_or, fn_xor, fn_and, fn_sll, fn_sr, fn_slt, fn_sltu, fn_seq}

-- A C truth value as a word.
abbrev pub flag : Bool → ℕ
flag b = if b then 1 else 0

-- The two `switch(flags)`, with the error code of the instruction format.
unfoldable pub add_or_sub : ℕ → ℕ → ℕ → ℕ → Result ℕ
add_or_sub code fl a b =
    if fl == 0 then ok (add64 a b) else if fl == 1 then ok (sub64 a b) else fatal code

-- The shift count is already masked.
unfoldable pub shift_right : ℕ → ℕ → ℕ → ℕ → Result ℕ
shift_right code fl a s =
    if fl == 0 then ok (shr a s) else if fl == 1 then ok (sar64 a s) else fatal code

-- `case OP_R`
unfoldable pub alu_r : (fn fl a b : ℕ) → Result ℕ
unfolding add_or_sub shift_right
alu_r fn fl a b =
    if fn == fn_addsub
    then add_or_sub 0x0208 fl a b
    else if fn == fn_or
    then ok (bit_or a b)
    else if fn == fn_xor
    then ok (bit_xor a b)
    else if fn == fn_and
    then ok (bit_and a b)
    else if fn == fn_sll
    then ok (shl64 a (low_bits b 6))
    else if fn == fn_sr
    then shift_right 0x0209 fl a (low_bits b 6)
    else if fn == fn_sltu
    then ok (flag (ltb a b))
    else if fn == fn_slt
    then ok (flag (lt_signed a b))
    else if fn == fn_seq
    then ok (flag (a == b))
    else fatal 0x0202

-- `case OP_I` but for `FN_JMP`, which is no arithmetic.
unfoldable pub alu_i : (fn fl a imm : ℕ) → Result ℕ
unfolding add_or_sub shift_right
alu_i fn fl a imm =
    if fn == fn_addsub
    then add_or_sub 0x020a fl a imm
    else if fn == fn_or
    then ok (bit_or a imm)
    else if fn == fn_xor
    then ok (bit_xor a imm)
    else if fn == fn_and
    then ok (bit_and a imm)
    else if fn == fn_sll
    then ok (shl64 a (low_bits imm 6))
    else if fn == fn_sr
    then shift_right 0x020b fl a (low_bits imm 6)
    else fatal 0x0203
