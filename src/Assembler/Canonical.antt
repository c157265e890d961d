-- ===== src/Assembler/Canonical.antt =====
-- The words that assembly text can name, and the text of each word as `assemble` reads it.
use cortex_vm.Prelude.Bits.{bit_or_high}
use cortex_vm.Prelude.{◌∙◌, ℕ, ◌+◌, ◌*◌, ◌/◌, ◌%◌, ◌^◌, ◌<◌, ◌≡◌, ◌==◌, ◌||◌, if◌then◌else◌, arith}
use cortex_vm.Word.{word_mod, sign_ext32, sign_ext36}
use cortex_vm.Isa.{opcode, funct, flags, i_ra, i_rd, i_rb, i_imm, s_imm, l_imm}
use cortex_vm.Isa.Codes.{
  op_r, op_i, op_s, op_l, op_sys, op_fr, op_fi, op_fb, op_mr, op_mi, ext_m, ext_float, fn_sw, fn_lw,
}
use cortex_vm.Isa.Decode.{s_imm_sum, i_imm_sum, sign_ext32-proper, sign_ext36-proper}
use cortex_vm.Isa.Encode.{
  encode_r, encode_i, encode_s, encode_l, encode_sys, encode_opcode, encode_funct,
}
use cortex_vm.Isa.RoundTrip.{encode_r_sum, encode_i_sum, encode_s_sum, encode_l_sum}
use cortex_vm.Assembler.Reads.{printed_flags}

-- A word with the given flags, and nothing below them, respectively an immediate below them.
abbrev pub keep_registers : (fl w : ℕ) → ℕ
keep_registers fl w = w / 2 ^ 30 * 2 ^ 30 + fl * 2 ^ 26

abbrev pub keep_immediate : (fl w : ℕ) → ℕ
keep_immediate fl w = w / 2 ^ 30 * 2 ^ 30 + fl * 2 ^ 26 + w % 2 ^ 26

-- A word with another function.
abbrev pub with_funct : (fn w : ℕ) → ℕ
with_funct fn w = w / 2 ^ 56 * 2 ^ 56 + fn * 2 ^ 48 + w % 2 ^ 48

-- A word less the bits that its text does not show.
unfoldable pub shown : ℕ → ℕ
shown w =
    if opcode w == op_r
    then keep_registers (printed_flags (funct w) (flags w)) w
    else if opcode w == op_i
    then keep_immediate (printed_flags (funct w) (flags w)) w
    else if opcode w == op_s
    then with_funct fn_sw w
    else if opcode w == op_l
    then with_funct fn_lw w
    else if opcode w == op_sys
    then w / 2 ^ 48 * 2 ^ 48
    else if opcode w == op_fr || opcode w == op_mr
    then keep_registers 0 w
    else if opcode w == op_mi
    then keep_immediate 0 w
    else w

-- The extension that a word needs.
unfoldable pub word_ext : ℕ → ℕ
word_ext w =
    if opcode w == op_mr || opcode w == op_mi
    then ext_m
    else if opcode w == op_fr || opcode w == op_fi || opcode w == op_fb
    then ext_float
    else 0

pub printed_flags-below : (fn fl : ℕ) → printed_flags fn fl < 16
printed_flags-below fn fl = ground arith

pub fields_r :
    (w fl : ℕ)
    → w < word_mod
    → fl < 16
    → encode_r (opcode w) (funct w) (i_ra w) (i_rd w) (i_rb w) fl ≡ keep_registers fl w
unfolding opcode funct i_ra i_rd i_rb
fields_r w fl small flags_small =
    rw (encode_r_sum (opcode w) (funct w) (i_ra w) (i_rd w) (i_rb w) fl) (omega arith)

pub fields_i :
    (w fl : ℕ)
    → w < word_mod
    → fl < 16
    → encode_i (opcode w) (funct w) (i_ra w) (i_rd w) (sign_ext32 (i_imm w)) fl
      ≡ keep_immediate fl w
unfolding opcode funct i_ra i_rd
fields_i w fl small flags_small =
    rw (encode_i_sum (opcode w) (funct w) (i_ra w) (i_rd w) (sign_ext32 (i_imm w)) fl)
      (omega (arith, (sign_ext32-proper (i_imm w)).2, i_imm_sum w))

pub fields_s :
    (w fn : ℕ)
    → w < word_mod
    → fn < 256
    → encode_s (opcode w) fn (i_ra w) (i_rb w) (sign_ext36 (s_imm w)) ≡ with_funct fn w
unfolding opcode i_ra i_rb
fields_s w fn small fn_small =
    let sum = s_imm_sum w in
    rw (encode_s_sum (opcode w) fn (i_ra w) (i_rb w) (sign_ext36 (s_imm w)))
      (omega (arith, (sign_ext36-proper (s_imm w) (omega arith)).2))

pub fields_l :
    (w fn : ℕ)
    → w < word_mod
    → fn < 256
    → encode_l (opcode w) fn (i_ra w) (i_rd w) (sign_ext36 (l_imm w)) ≡ with_funct fn w
unfolding opcode i_ra i_rd l_imm
fields_l w fn small fn_small =
    rw (encode_l_sum (opcode w) fn (i_ra w) (i_rd w) (sign_ext36 (l_imm w)))
      (omega (arith, (sign_ext36-proper (l_imm w) (omega arith)).2))

pub fields_sys : (w : ℕ) → w < word_mod → encode_sys (opcode w) (funct w) ≡ w / 2 ^ 48 * 2 ^ 48
unfolding encode_sys encode_opcode encode_funct opcode funct
fields_sys w small =
    bit_or_high 56 (w / 2 ^ 56 % 256 % 256) (w / 2 ^ 56 % 256 % 256 * 2 ^ 56)
      (w / 2 ^ 48 % 256 % 256 * 2 ^ 48) (omega arith) (omega arith)
    ∙ omega arith
