-- ===== src/Assembler/Registers.antt =====
-- Registers in the source, and as the disassembler prints them.
use native.Mathlib.Decide.{dec_lt}
use cortex_vm.Prelude.{
  lt→ltb, le→ltb, ℕ, ◌+◌, ◌*◌, ◌^◌, ◌-◌, ◌%◌, ◌/◌, ◌<◌, ◌≡◌, true, false, List, [], ◌∷◌, ok, refl,
  ◌∙◌, arith,
}
use cortex_vm.Isa.{opcode, funct, flags, i_ra, i_rd, i_rb}
use cortex_vm.Isa.Encode.{encode_r}
use cortex_vm.Isa.RoundTrip.{encode_r_sum}
use cortex_vm.Assembler.{
  parse_reg_num, numbered_reg, get_reg, cmp_chars, skip_sep, is_digit, assemble_r,
}
use cortex_vm.Disassembler.{decimal, operands_r}

numbered_reg-below :
    (limit base : ℕ) (head rest : List ℕ) (r : ℕ)
    → numbered_reg limit base head ≡ ok (r, rest)
    → r < limit + base
unfolding numbered_reg
numbered_reg-below limit base head rest r e = ground arith

-- Whatever the source says, a register that `getReg` returns has a number below 64: it fits the six
-- bits of its field.
pub get_reg-below : (head rest : List ℕ) (r : ℕ) → get_reg head ≡ ok (r, rest) → r < 64
unfolding get_reg
get_reg-below [] rest r e = cc
get_reg-below (c ∷ head) rest r e = ground (
  arith,
  numbered_reg-below 64 0 head rest r,
  numbered_reg-below 14 4 head rest r,
  numbered_reg-below 14 18 head rest r,
  numbered_reg-below 32 32 head rest r,
)

parse_reg_num-stop :
    (v c : ℕ) (rest : List ℕ) → is_digit c ≡ false → parse_reg_num v (c ∷ rest) ≡ (v, c ∷ rest)
unfolding parse_reg_num
parse_reg_num-stop v c rest e = rw e refl

parse_reg_num-digit :
    (v d : ℕ) (rest : List ℕ)
    → d < 10
    → parse_reg_num v ((b'0' + d) ∷ rest) ≡ parse_reg_num ((v * 10 + d) % 256) rest
unfolding parse_reg_num
parse_reg_num-digit v d rest h =
    let digit : is_digit (b'0' + d) ≡ true = ground arith in
    let value : b'0' + d - b'0' ≡ d = omega arith in rw (digit, value) refl

parse_reg_num-decimal :
    (n c : ℕ) (rest : List ℕ)
    → n < 64
    → is_digit c ≡ false
    → parse_reg_num 0 (decimal n (c ∷ rest)) ≡ (n, c ∷ rest)
unfolding decimal
parse_reg_num-decimal n c rest h e = elim (dec_lt n 10) [
  | yes one_digit ↦
      let v = (0 * 10 + n) % 256 in
      let value : v ≡ n = omega arith in
      rw
        (
          lt→ltb n 10 one_digit,
          parse_reg_num-digit 0 n (c ∷ rest) one_digit,
          parse_reg_num-stop v c rest e,
        )
        (λ i. (value i, c ∷ rest))
  | no two_digits ↦
      let v = (0 * 10 + n / 10) % 256 in
      let w = (v * 10 + n % 10) % 256 in
      let value : w ≡ n = omega arith in
      rw
        (
          le→ltb n 10 (omega arith),
          parse_reg_num-digit 0 (n / 10) ((b'0' + n % 10) ∷ c ∷ rest) (omega arith),
          parse_reg_num-digit v (n % 10) (c ∷ rest) (omega arith),
          parse_reg_num-stop w c rest e,
        )
        (λ i. (value i, c ∷ rest))
]

cmp_chars-decimal :
    (n : ℕ) (rest : List ℕ) → n < 64 → cmp_chars (decimal n rest) (b'a' ∷ []) ≡ false
unfolding cmp_chars decimal
cmp_chars-decimal n rest h = ground arith

pub get_reg-decimal :
    (n c : ℕ) (rest : List ℕ)
    → n < 64
    → is_digit c ≡ false
    → get_reg (b'r' ∷ decimal n (c ∷ rest)) ≡ ok (n, c ∷ rest)
unfolding get_reg numbered_reg
get_reg-decimal n c rest h e =
    rw (cmp_chars-decimal n (c ∷ rest) h, parse_reg_num-decimal n c rest h e) (ground arith)

pub skip_sep-r : (rest : List ℕ) → skip_sep (b'r' ∷ rest) ≡ b'r' ∷ rest
unfolding skip_sep
skip_sep-r rest = refl

skip_sep-space : (rest : List ℕ) → skip_sep (b' ' ∷ b'r' ∷ rest) ≡ b'r' ∷ rest
unfolding skip_sep
skip_sep-space rest = refl

pub skip_sep-comma : (rest : List ℕ) → skip_sep (b',' ∷ b' ' ∷ b'r' ∷ rest) ≡ b'r' ∷ rest
unfolding skip_sep
skip_sep-comma rest = refl

assemble_r-text :
    (op fn fl rd ra rb : ℕ)
    → rd < 64
    → ra < 64
    → rb < 64
    → assemble_r op fn fl (
        b' '
        ∷ b'r'
        ∷ decimal rd (b',' ∷ b' ' ∷ b'r' ∷ decimal ra (b',' ∷ b' ' ∷ b'r' ∷ decimal rb (10 ∷ []))))
      ≡ ok (encode_r op fn ra rd rb fl, 10 ∷ [])
unfolding assemble_r
assemble_r-text op fn fl rd ra rb hrd hra hrb =
    let after_ra = b' ' ∷ b'r' ∷ decimal rb (10 ∷ []) in
    let after_rd = b' ' ∷ b'r' ∷ decimal ra (b',' ∷ after_ra) in
    rw
      (
        skip_sep-space (decimal rd (b',' ∷ after_rd)),
        get_reg-decimal rd b',' after_rd hrd refl,
        skip_sep-comma (decimal ra (b',' ∷ after_ra)),
        get_reg-decimal ra b',' after_ra hra refl,
        skip_sep-comma (decimal rb (10 ∷ [])),
        get_reg-decimal rb 10 [] hrb refl,
      )
      refl

encode_r-fields :
    (w : ℕ)
    → w < 2 ^ 64
    → w % 2 ^ 26 ≡ 0
    → encode_r (opcode w) (funct w) (i_ra w) (i_rd w) (i_rb w) (flags w) ≡ w
unfolding opcode funct i_ra i_rd i_rb flags
encode_r-fields w small plain =
    encode_r_sum (opcode w) (funct w) (i_ra w) (i_rd w) (i_rb w) (flags w) ∙ omega arith

-- The operands that the disassembler prints for a word below 2 ^ 64 are assembled back to the word,
-- given its opcode, funct and flags, if its lowest 26 bits are 0; the newline is left.
pub assemble_r-operands_r :
    (w : ℕ)
    → w < 2 ^ 64
    → w % 2 ^ 26 ≡ 0
    → assemble_r (opcode w) (funct w) (flags w) (operands_r w) ≡ ok (w, 10 ∷ [])
unfolding operands_r i_rd i_ra i_rb
assemble_r-operands_r w small plain =
    rw
      (assemble_r-text (opcode w) (funct w) (flags w) (i_rd w) (i_ra w) (i_rb w) (omega arith)
        (omega arith) (omega arith))
      (λ i. ok (encode_r-fields w small plain i, 10 ∷ []))
