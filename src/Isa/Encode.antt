-- ===== src/Isa/Encode.antt =====
-- The `ENCODE_*` macros of src/assembler.c, and the words that `assemble` builds from the fields
-- that it has parsed. An immediate is an `int64_t`, given by its 64-bit pattern.
use cortex_vm.Prelude.{ℕ, ◌*◌, ◌^◌, bit_or}
use cortex_vm.Word.{shr, low_bits}

unfoldable pub encode_opcode : ℕ → ℕ
encode_opcode op = low_bits op 8 * 2 ^ 56

unfoldable pub encode_funct : ℕ → ℕ
encode_funct fn = low_bits fn 8 * 2 ^ 48

unfoldable pub encode_ra : ℕ → ℕ
encode_ra ra = low_bits ra 6 * 2 ^ 42

unfoldable pub encode_rd : ℕ → ℕ
encode_rd rd = low_bits rd 6 * 2 ^ 36

unfoldable pub encode_rb : ℕ → ℕ
encode_rb rb = low_bits rb 6 * 2 ^ 30

unfoldable pub encode_flags : ℕ → ℕ
encode_flags fl = low_bits fl 4 * 2 ^ 26

unfoldable pub encode_i_imm : ℕ → ℕ
encode_i_imm imm = bit_or (low_bits (shr imm 26) 6 * 2 ^ 30) (low_bits imm 26)

unfoldable pub encode_s_imm : ℕ → ℕ
encode_s_imm imm = bit_or (low_bits (shr imm 30) 6 * 2 ^ 36) (low_bits imm 30)

unfoldable pub encode_l_imm : ℕ → ℕ
encode_l_imm imm = low_bits imm 36

unfoldable pub encode_b_imm : ℕ → ℕ
unfolding encode_s_imm
encode_b_imm imm = encode_s_imm imm

-- The arms of the `switch(opcode)` in `assemble`: `|` groups to the left.
unfoldable pub encode_r : (op fn ra rd rb fl : ℕ) → ℕ
encode_r op fn ra rd rb fl =
    bit_or
      (bit_or
        (bit_or (bit_or (bit_or (encode_opcode op) (encode_funct fn)) (encode_ra ra))
          (encode_rd rd))
        (encode_rb rb))
      (encode_flags fl)

unfoldable pub encode_i : (op fn ra rd imm fl : ℕ) → ℕ
encode_i op fn ra rd imm fl =
    bit_or
      (bit_or
        (bit_or (bit_or (bit_or (encode_opcode op) (encode_funct fn)) (encode_ra ra))
          (encode_rd rd))
        (encode_i_imm imm))
      (encode_flags fl)

unfoldable pub encode_s : (op fn ra rb imm : ℕ) → ℕ
encode_s op fn ra rb imm =
    bit_or
      (bit_or (bit_or (bit_or (encode_opcode op) (encode_funct fn)) (encode_ra ra))
        (encode_s_imm imm))
      (encode_rb rb)

unfoldable pub encode_l : (op fn ra rd imm : ℕ) → ℕ
encode_l op fn ra rd imm =
    bit_or
      (bit_or (bit_or (bit_or (encode_opcode op) (encode_funct fn)) (encode_ra ra)) (encode_rd rd))
      (encode_l_imm imm)

unfoldable pub encode_sys : (op fn : ℕ) → ℕ
encode_sys op fn = bit_or (encode_opcode op) (encode_funct fn)
