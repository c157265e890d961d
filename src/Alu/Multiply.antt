-- ===== src/Alu/Multiply.antt =====
-- `OP_MR` and `OP_MI` of `handleExtensionOpcode`. C gives a signed product or quotient outside of
-- `int64_t`, and a division by zero, no meaning.
use cortex_vm.Prelude.{
  ℕ, ◌*◌, ◌/◌, ◌%◌, ltb, ◌==◌, ◌&&◌, if◌then◌else◌, Result, ok, fatal, undefined,
}
use cortex_vm.Word.{word_mod, sign_bit, int64, from_int64, floor_shift64}
use cortex_vm.Word.Int.{ℤ, pos, negsuc, ◌*ℤ◌, quot, remainder}
use cortex_vm.Isa.Codes.{fn_mul, fn_mulh, fn_mulhu, fn_div, fn_divu, fn_rem, fn_remu}

-- The result of a signed operation, if it is an `int64_t`.
unfoldable pub signed_result : ℤ → Result ℕ
signed_result (pos n) = if ltb n sign_bit then ok (from_int64 (pos n)) else undefined
signed_result (negsuc n) = if ltb n sign_bit then ok (from_int64 (negsuc n)) else undefined

unfoldable pub mul_signed : ℕ → ℕ → Result ℕ
unfolding signed_result ◌*ℤ◌
mul_signed a b = signed_result (int64 a *ℤ int64 b)

-- `(uint64_t)(((__int128_t)(int64_t)a * (__int128_t)(int64_t)b) >> 64)`
unfoldable pub mulh : ℕ → ℕ → ℕ
unfolding ◌*ℤ◌
mulh a b = from_int64 (floor_shift64 (int64 a *ℤ int64 b))

unfoldable pub div_signed : ℕ → ℕ → Result ℕ
unfolding signed_result
div_signed a b = if b == 0 then undefined else signed_result (quot (int64 a) (int64 b))

-- `INT64_MIN % -1` has no meaning either, since its quotient has none.
unfoldable pub rem_signed : ℕ → ℕ → Result ℕ
unfolding signed_result
rem_signed a b =
    if b == 0
    then undefined
    else if a == sign_bit && b == 0xffff_ffff_ffff_ffff
    then undefined
    else ok (from_int64 (remainder (int64 a) (int64 b)))

unfoldable pub div_unsigned : ℕ → ℕ → Result ℕ
div_unsigned a b = if b == 0 then undefined else ok (a / b)

unfoldable pub rem_unsigned : ℕ → ℕ → Result ℕ
rem_unsigned a b = if b == 0 then undefined else ok (a % b)

unfoldable pub alu_mr : (fn a b : ℕ) → Result ℕ
unfolding mul_signed mulh div_signed rem_signed div_unsigned rem_unsigned
alu_mr fn a b =
    if fn == fn_mul
    then mul_signed a b
    else if fn == fn_mulh
    then ok (mulh a b)
    else if fn == fn_mulhu
    then ok (a * b / word_mod)
    else if fn == fn_div
    then div_signed a b
    else if fn == fn_divu
    then div_unsigned a b
    else if fn == fn_rem
    then rem_signed a b
    else if fn == fn_remu
    then rem_unsigned a b
    else fatal 0x0202

unfoldable pub alu_mi : (fn a imm : ℕ) → Result ℕ
unfolding mul_signed div_signed rem_signed div_unsigned rem_unsigned
alu_mi fn a imm =
    if fn == fn_mul
    then mul_signed a imm
    else if fn == fn_div
    then div_signed a imm
    else if fn == fn_divu
    then div_unsigned a imm
    else if fn == fn_rem
    then rem_signed a imm
    else if fn == fn_remu
    then rem_unsigned a imm
    else fatal 0x0202
