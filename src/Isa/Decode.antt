-- ===== src/Isa/Decode.antt =====
-- What the decoding macros of src/core.c read from a word that `assemble` packed.
use cortex_vm.Prelude.{
  ℕ, ◌+◌, ◌-◌, ◌*◌, ◌/◌, ◌%◌, ◌^◌, ◌<◌, ◌≤◌, ◌≡◌, ◌≢◌, ◌⊎◌, arith, bit_or, ap, ◌∙◌,
}
use cortex_vm.Prelude.Bits.{bit_or_disjoint, bit_or_split, bit_or-zero}
use cortex_vm.Isa.{opcode, funct, flags, i_ra, i_rd, i_rb, i_imm, s_imm, l_imm}
use cortex_vm.Isa.Encode.{encode_r, encode_i, encode_s, encode_l}
use cortex_vm.Isa.RoundTrip.{encode_r_sum, encode_i_sum, encode_s_sum, encode_l_sum}
use cortex_vm.Word.{word_mod, sign_bit, sign_ext32, sign_ext36}

-- From an R-type word each field macro reads what `assemble` packed, cut to the width of the field.
pub decode-encode_r :
    (op fn ra rd rb fl : ℕ)
    → let w = encode_r op fn ra rd rb fl in
      (opcode w ≡ op % 256)
      × (funct w ≡ fn % 256)
      × (i_ra w ≡ ra % 64)
      × (i_rd w ≡ rd % 64)
      × (i_rb w ≡ rb % 64)
      × (flags w ≡ fl % 16)
unfolding opcode funct flags i_ra i_rd i_rb
decode-encode_r op fn ra rd rb fl = rw (encode_r_sum op fn ra rd rb fl) (omega arith)

pub i_imm_sum : (w : ℕ) → i_imm w ≡ w / 2 ^ 30 % 64 * 2 ^ 26 + w % 2 ^ 26
unfolding i_imm
i_imm_sum w = bit_or_disjoint 26 (w / 2 ^ 30 % 64) (w % 2 ^ 26) (omega arith)

pub s_imm_sum : (w : ℕ) → s_imm w ≡ w / 2 ^ 36 % 64 * 2 ^ 30 + w % 2 ^ 30
unfolding s_imm
s_imm_sum w = bit_or_disjoint 30 (w / 2 ^ 36 % 64) (w % 2 ^ 30) (omega arith)

-- From an I-type word each field macro reads what `assemble` packed, cut to the width of the field;
-- the immediate comes back as its low 32 bits although the flags stand between its two halves.
pub decode-encode_i :
    (op fn ra rd imm fl : ℕ)
    → let w = encode_i op fn ra rd imm fl in
      (opcode w ≡ op % 256)
      × (funct w ≡ fn % 256)
      × (i_ra w ≡ ra % 64)
      × (i_rd w ≡ rd % 64)
      × (i_imm w ≡ imm % 2 ^ 32)
      × (flags w ≡ fl % 16)
unfolding opcode funct flags i_ra i_rd
decode-encode_i op fn ra rd imm fl = rw (i_imm_sum, encode_i_sum op fn ra rd imm fl) (omega arith)

-- From an S- or B-type word each field macro reads what `assemble` packed, cut to the width of the
-- field; the immediate comes back as its low 36 bits although rb stands between its two halves.
pub decode-encode_s :
    (op fn ra rb imm : ℕ)
    → let w = encode_s op fn ra rb imm in
      (opcode w ≡ op % 256)
      × (funct w ≡ fn % 256)
      × (i_ra w ≡ ra % 64)
      × (i_rb w ≡ rb % 64)
      × (s_imm w ≡ imm % 2 ^ 36)
unfolding opcode funct i_ra i_rb
decode-encode_s op fn ra rb imm = rw (s_imm_sum, encode_s_sum op fn ra rb imm) (omega arith)

-- The fields of an L-type word come back, and the immediate as its low 36 bits.
pub decode-encode_l :
    (op fn ra rd imm : ℕ)
    → let w = encode_l op fn ra rd imm in
      (opcode w ≡ op % 256)
      × (funct w ≡ fn % 256)
      × (i_ra w ≡ ra % 64)
      × (i_rd w ≡ rd % 64)
      × (l_imm w ≡ imm % 2 ^ 36)
unfolding opcode funct i_ra i_rd l_imm
decode-encode_l op fn ra rd imm = rw (encode_l_sum op fn ra rd imm) (omega arith)

-- An `int64_t` that fits 32 bits, respectively 36.
abbrev pub FitsInt32 : ℕ → Type 0
FitsInt32 v = (v < 2 ^ 31) ⊎ ((word_mod - 2 ^ 31 ≤ v) × (v < word_mod))

abbrev pub FitsInt36 : ℕ → Type 0
FitsInt36 v = (v < 2 ^ 35) ⊎ ((word_mod - 2 ^ 35 ≤ v) × (v < word_mod))

pub sign_ext32-mod : (v : ℕ) → FitsInt32 v → sign_ext32 (v % 2 ^ 32) ≡ v
sign_ext32-mod v h = ground arith

-- The ones that `SIGN_EXT36` puts above a 36-bit field.
ext36_ones : (v : ℕ) → v < 2 ^ 36 → bit_or v (word_mod - 2 ^ 36) ≡ v + (word_mod - 2 ^ 36)
ext36_ones v h =
    let pad : v ≡ 0 * 2 ^ 36 + v = omega arith in
    ap (λ (t : ℕ). bit_or t (word_mod - 2 ^ 36)) pad
    ∙ bit_or_split 36 0 v (2 ^ 28 - 1) 0 h (omega arith)
    ∙ omega (arith, bit_or-zero v)

-- A sign-extended field is a word other than -2 ^ 63, and cut to its width it is the field again.
pub sign_ext32-proper :
    (v : ℕ)
    → (sign_ext32 v < word_mod) × (sign_ext32 v ≢ sign_bit) × (sign_ext32 v % 2 ^ 32 ≡ v % 2 ^ 32)
sign_ext32-proper v = ground arith

pub sign_ext36-proper :
    (v : ℕ)
    → v < 2 ^ 36
    → (sign_ext36 v < word_mod) × (sign_ext36 v ≢ sign_bit) × (sign_ext36 v % 2 ^ 36 ≡ v)
sign_ext36-proper v h = ground (arith, ext36_ones v h)

pub sign_ext36-mod : (v : ℕ) → FitsInt36 v → sign_ext36 (v % 2 ^ 36) ≡ v
sign_ext36-mod v h = ground (arith, ext36_ones (v % 2 ^ 36) (omega arith))

-- An immediate that fits 32 bits as a signed number is read back from an I-type word by
-- `SIGN_EXT32(I_IMM(w))`, and one that fits 36 bits from S-, B- and L-type words by
-- `SIGN_EXT36(S_IMM(w))` and `SIGN_EXT36(L_IMM(w))`.
pub immediates_round_trip :
    (op fn ra rd fl v u : ℕ)
    → FitsInt32 v
    → FitsInt36 u
    → (sign_ext32 (i_imm (encode_i op fn ra rd v fl)) ≡ v)
      × (sign_ext36 (s_imm (encode_s op fn ra rd u)) ≡ u)
      × (sign_ext36 (l_imm (encode_l op fn ra rd u)) ≡ u)
immediates_round_trip op fn ra rd fl v u hv hu = (
  rw ((decode-encode_i op fn ra rd v fl).4) (sign_ext32-mod v hv),
  rw ((decode-encode_s op fn ra rd u).4) (sign_ext36-mod u hu),
  rw ((decode-encode_l op fn ra rd u).4) (sign_ext36-mod u hu),
)
