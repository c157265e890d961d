-- ===== src/Isa/RoundTrip.antt =====
-- The packed words of `assemble` as sums of fields, and what `run` and `step` read back from them.
use cortex_vm.Prelude.{ℕ, ◌+◌, ◌*◌, ◌/◌, ◌%◌, ◌^◌, ◌<◌, ◌≡◌, bit_or, arith, ◌∙◌, ap}
use cortex_vm.Prelude.Bits.{bit_or_disjoint, bit_or_high, bit_or_split, bit_or-zero}
use cortex_vm.Isa.Encode.{
  encode_r, encode_i, encode_s, encode_l, encode_opcode, encode_funct, encode_ra, encode_rd,
  encode_rb, encode_flags, encode_i_imm, encode_s_imm, encode_l_imm,
}

-- The three fields that every word with registers has.
abbrev pub head_sum : (op fn ra : ℕ) → ℕ
head_sum op fn ra = op % 256 * 2 ^ 56 + fn % 256 * 2 ^ 48 + ra % 64 * 2 ^ 42

head_word :
    (op fn ra : ℕ)
    → bit_or (bit_or (encode_opcode op) (encode_funct fn)) (encode_ra ra) ≡ head_sum op fn ra
unfolding encode_opcode encode_funct encode_ra
head_word op fn ra =
    let a = op % 256 * 2 ^ 56 in
    let b = a + fn % 256 * 2 ^ 48 in
    rw (bit_or_high 56 (a / 2 ^ 56) a (fn % 256 * 2 ^ 48) (omega arith) (omega arith))
      (bit_or_high 48 (b / 2 ^ 48) b (ra % 64 * 2 ^ 42) (omega arith) (omega arith))

head_word_rd :
    (op fn ra rd : ℕ)
    → bit_or (bit_or (bit_or (encode_opcode op) (encode_funct fn)) (encode_ra ra)) (encode_rd rd)
      ≡ head_sum op fn ra + rd % 64 * 2 ^ 36
unfolding encode_rd
head_word_rd op fn ra rd =
    let c = head_sum op fn ra in
    rw (head_word op fn ra)
      (bit_or_high 42 (c / 2 ^ 42) c (rd % 64 * 2 ^ 36) (omega arith) (omega arith))

pub encode_r_sum :
    (op fn ra rd rb fl : ℕ)
    → encode_r op fn ra rd rb fl
      ≡ head_sum op fn ra + rd % 64 * 2 ^ 36 + rb % 64 * 2 ^ 30 + fl % 16 * 2 ^ 26
unfolding encode_r encode_rb encode_flags
encode_r_sum op fn ra rd rb fl =
    let d = head_sum op fn ra + rd % 64 * 2 ^ 36 in
    let e = d + rb % 64 * 2 ^ 30 in
    rw (head_word_rd op fn ra rd) (
      rw (bit_or_high 36 (d / 2 ^ 36) d (rb % 64 * 2 ^ 30) (omega arith) (omega arith))
        (bit_or_high 30 (e / 2 ^ 30) e (fl % 16 * 2 ^ 26) (omega arith) (omega arith)))

-- A field of `w` bits that is put at bit `k`, between two halves that are there already.
between :
    (k w q l f : ℕ)
    → l < 2 ^ k
    → f < 2 ^ w
    → bit_or (q * 2 ^ w * 2 ^ k + l) (f * 2 ^ k) ≡ q * 2 ^ w * 2 ^ k + f * 2 ^ k + l
between k w q l f hl hf =
    let pad : f * 2 ^ k ≡ f * 2 ^ k + 0 = omega arith in
    ap (bit_or (q * 2 ^ w * 2 ^ k + l)) pad
    ∙ bit_or_split k (q * 2 ^ w) l f 0 hl (omega arith)
    ∙ rw (bit_or_disjoint w q f hf, bit_or-zero l) (omega arith)

-- The flags lie between the two halves of the immediate.
pub encode_i_sum :
    (op fn ra rd imm fl : ℕ)
    → encode_i op fn ra rd imm fl
      ≡ head_sum op fn ra
        + rd % 64 * 2 ^ 36
        + imm / 2 ^ 26 % 64 * 2 ^ 30
        + fl % 16 * 2 ^ 26
        + imm % 2 ^ 26
unfolding encode_i encode_i_imm encode_flags
encode_i_sum op fn ra rd imm fl =
    let d = head_sum op fn ra + rd % 64 * 2 ^ 36 in
    let h = imm / 2 ^ 26 % 64 in
    let l = imm % 2 ^ 26 in
    let q = d / 2 ^ 30 + h in
    let regroup : d + (h * 2 ^ 30 + l) ≡ q * 2 ^ 4 * 2 ^ 26 + l = omega arith in
    rw
      (
        head_word_rd op fn ra rd,
        bit_or_disjoint 30 h l (omega arith),
        bit_or_high 36 (d / 2 ^ 36) d (h * 2 ^ 30 + l) (omega arith) (omega arith),
        regroup,
        between 26 4 q l (fl % 16) (omega arith) (omega arith),
      )
      (omega arith)

pub encode_s_sum :
    (op fn ra rb imm : ℕ)
    → encode_s op fn ra rb imm
      ≡ head_sum op fn ra + imm / 2 ^ 30 % 64 * 2 ^ 36 + rb % 64 * 2 ^ 30 + imm % 2 ^ 30
unfolding encode_s encode_s_imm encode_rb
encode_s_sum op fn ra rb imm =
    let d = head_sum op fn ra in
    let h = imm / 2 ^ 30 % 64 in
    let l = imm % 2 ^ 30 in
    let q = d / 2 ^ 36 + h in
    let regroup : d + (h * 2 ^ 36 + l) ≡ q * 2 ^ 6 * 2 ^ 30 + l = omega arith in
    rw
      (
        head_word op fn ra,
        bit_or_disjoint 36 h l (omega arith),
        bit_or_high 42 (d / 2 ^ 42) d (h * 2 ^ 36 + l) (omega arith) (omega arith),
        regroup,
        between 30 6 q l (rb % 64) (omega arith) (omega arith),
      )
      (omega arith)

pub encode_l_sum :
    (op fn ra rd imm : ℕ)
    → encode_l op fn ra rd imm ≡ head_sum op fn ra + rd % 64 * 2 ^ 36 + imm % 2 ^ 36
unfolding encode_l encode_l_imm
encode_l_sum op fn ra rd imm =
    let d = head_sum op fn ra + rd % 64 * 2 ^ 36 in
    rw (head_word_rd op fn ra rd)
      (bit_or_high 36 (d / 2 ^ 36) d (imm % 2 ^ 36) (omega arith) (omega arith))
