-- ===== src/Disassembler/Lines.antt =====
-- `disOpR` to `disOpMI` of src/disassembler.c. A line stands before what follows it.
use cortex_vm.Prelude.{
  ℕ, zero, suc, ◌+◌, ◌-◌, ◌/◌, ◌%◌, ltb, if◌then◌else◌, List, ◌∷◌, ◌++◌, codes, Result, ok, ◌>>=◌,
}
use cortex_vm.Word.{sign_bit, word_mod, sign_ext32, sign_ext36}
use cortex_vm.Isa.{funct, flags, i_ra, i_rd, i_rb, i_imm, s_imm, l_imm, b_imm}
use cortex_vm.Disassembler.{decimal}
use cortex_vm.Disassembler.Mnemonics.{
  mnemonic_r, mnemonic_i, mnemonic_b, mnemonic_sys, mnemonic_fr, mnemonic_fb, mnemonic_mr,
  mnemonic_mi,
}

-- The decimal digits of a number of at most `fuel` of them.
unfoldable pub digits : (fuel n : ℕ) → List ℕ → List ℕ
digits zero n rest = rest
digits (suc fuel) n rest =
    let last = (b'0' + n % 10) ∷ rest in
    let more = digits fuel (n / 10) last in if ltb n 10 then last else more

-- `%llu`; 2 ^ 64 has 20 digits.
abbrev pub unsigned_decimal : ℕ → List ℕ → List ℕ
unsigned_decimal = digits 20

-- `%lld`
unfoldable pub signed_decimal : ℕ → List ℕ → List ℕ
signed_decimal v rest =
    if ltb v sign_bit then unsigned_decimal v rest else b'-' ∷ unsigned_decimal (word_mod - v) rest

-- "\t%s r%d, r%d": a name and two registers.
unfoldable pub two_operands : (name : List ℕ) (first second : ℕ) → List ℕ → List ℕ
unfolding decimal
two_operands name first second rest =
    b'\t' ∷ (name ++ (b' ' ∷ b'r' ∷ decimal first (b',' ∷ b' ' ∷ b'r' ∷ decimal second rest)))

-- "\t%s r%d, r%d, r%d\n"
unfoldable pub line_rrr : (name : List ℕ) (first second third : ℕ) → List ℕ → List ℕ
unfolding two_operands
line_rrr name first second third rest =
    two_operands name first second (b',' ∷ b' ' ∷ b'r' ∷ decimal third (10 ∷ rest))

-- "\t%s r%d, r%d, %lld\n"
unfoldable pub line_rri : (name : List ℕ) (first second imm : ℕ) → List ℕ → List ℕ
unfolding two_operands signed_decimal
line_rri name first second imm rest =
    two_operands name first second (b',' ∷ b' ' ∷ signed_decimal imm (10 ∷ rest))

unfoldable pub dis_op_r : ℕ → List ℕ → Result (List ℕ)
unfolding line_rrr
dis_op_r w rest =
    mnemonic_r (funct w) (flags w) >>= λ name. ok (line_rrr name (i_rd w) (i_ra w) (i_rb w) rest)

unfoldable pub dis_op_i : ℕ → List ℕ → Result (List ℕ)
unfolding line_rri
dis_op_i w rest = mnemonic_i (funct w) (flags w) >>= λ name.
    ok (line_rri name (i_rd w) (i_ra w) (sign_ext32 (i_imm w)) rest)

unfoldable pub dis_op_s : ℕ → List ℕ → Result (List ℕ)
unfolding line_rri
dis_op_s w rest = ok (line_rri (codes "sw") (i_ra w) (i_rb w) (sign_ext36 (s_imm w)) rest)

unfoldable pub dis_op_l : ℕ → List ℕ → Result (List ℕ)
unfolding line_rri
dis_op_l w rest = ok (line_rri (codes "lw") (i_rd w) (i_ra w) (sign_ext36 (l_imm w)) rest)

unfoldable pub dis_op_b : ℕ → List ℕ → Result (List ℕ)
unfolding line_rri
dis_op_b w rest = mnemonic_b (funct w) >>= λ name.
    ok (line_rri name (i_ra w) (i_rb w) (sign_ext36 (b_imm w)) rest)

unfoldable pub dis_op_sys : ℕ → List ℕ → Result (List ℕ)
dis_op_sys w rest = mnemonic_sys (funct w) >>= λ name. ok (b'\t' ∷ (name ++ (10 ∷ rest)))

unfoldable pub dis_op_fr : ℕ → List ℕ → Result (List ℕ)
unfolding line_rrr
dis_op_fr w rest =
    mnemonic_fr (funct w) >>= λ name. ok (line_rrr name (i_rd w) (i_ra w) (i_rb w) rest)

unfoldable pub dis_op_fb : ℕ → List ℕ → Result (List ℕ)
unfolding line_rri
dis_op_fb w rest = mnemonic_fb (funct w) >>= λ name.
    ok (line_rri name (i_ra w) (i_rb w) (sign_ext36 (b_imm w)) rest)

unfoldable pub dis_op_mr : ℕ → List ℕ → Result (List ℕ)
unfolding line_rrr
dis_op_mr w rest =
    mnemonic_mr (funct w) >>= λ name. ok (line_rrr name (i_rd w) (i_ra w) (i_rb w) rest)

unfoldable pub dis_op_mi : ℕ → List ℕ → Result (List ℕ)
unfolding line_rri
dis_op_mi w rest = mnemonic_mi (funct w) >>= λ name.
    ok (line_rri name (i_rd w) (i_ra w) (sign_ext32 (i_imm w)) rest)
