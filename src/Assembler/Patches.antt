-- ===== src/Assembler/Patches.antt =====
-- The labels that `assemble` of src/assembler.c patches into words, as src/core.c decodes them.
use cortex_vm.Prelude.{ℕ, ◌+◌, ◌*◌, ◌/◌, ◌%◌, ◌^◌, ◌<◌, ◌≡◌, ◌⊎◌, arith, bit_or, Result, ok, ◌>>=◌}
use cortex_vm.Prelude.Bits.{bit_or_split, bit_or_disjoint, bit_or-zero, zero-bit_or}
use cortex_vm.Word.{add64, sub64, sign_ext36}
use cortex_vm.Isa.{b_imm}
use cortex_vm.Isa.Codes.{op_i, op_s, op_l, op_b, op_fi, op_fb, op_mi, header_len}
use cortex_vm.Isa.Decode.{
  FitsInt36, decode-encode_i, decode-encode_s, decode-encode_l, sign_ext36-mod,
}
use cortex_vm.Isa.Encode.{
  encode_i, encode_s, encode_l, encode_i_imm, encode_s_imm, encode_l_imm, encode_b_imm,
}
use cortex_vm.Isa.RoundTrip.{encode_i_sum, encode_s_sum, encode_l_sum, head_sum}
use cortex_vm.Assembler.Assemble.{patch_word}

-- Both halves of an immediate, put around a field that is there already.
around_rb :
    (a h m l : ℕ)
    → h < 64
    → m < 64
    → l < 2 ^ 30
    → bit_or (a * 2 ^ 42 + m * 2 ^ 30) (h * 2 ^ 36 + l) ≡ a * 2 ^ 42 + h * 2 ^ 36 + m * 2 ^ 30 + l
around_rb a h m l hh hm hl = ground (
  arith,
  bit_or_split 30 (a * 2 ^ 12 + m) 0 (h * 2 ^ 6) l (omega arith) hl,
  bit_or_split 6 (a * 2 ^ 6) m h 0 hm (omega arith),
  bit_or_disjoint 6 a h hh,
  zero-bit_or l,
  bit_or-zero m,
)

around_flags :
    (a h m l : ℕ)
    → h < 64
    → m < 16
    → l < 2 ^ 26
    → bit_or (a * 2 ^ 36 + m * 2 ^ 26) (h * 2 ^ 30 + l) ≡ a * 2 ^ 36 + h * 2 ^ 30 + m * 2 ^ 26 + l
around_flags a h m l hh hm hl = ground (
  arith,
  bit_or_split 26 (a * 2 ^ 10 + m) 0 (h * 2 ^ 4) l (omega arith) hl,
  bit_or_split 4 (a * 2 ^ 6) m h 0 hm (omega arith),
  bit_or_disjoint 6 a h hh,
  zero-bit_or l,
  bit_or-zero m,
)

or-encode_i :
    (op fn ra rd fl v : ℕ)
    → bit_or (encode_i op fn ra rd 0 fl) (encode_i_imm v) ≡ encode_i op fn ra rd v fl
unfolding encode_i_imm
or-encode_i op fn ra rd fl v =
    let a = head_sum op fn ra / 2 ^ 36 + rd % 64 in
    let h = v / 2 ^ 26 % 64 in
    let l = v % 2 ^ 26 in
    rw
      (
        encode_i_sum op fn ra rd 0 fl,
        encode_i_sum op fn ra rd v fl,
        bit_or_disjoint 30 h l (omega arith),
      )
      (ground (arith, around_flags a h (fl % 16) l (omega arith) (omega arith) (omega arith)))

or-encode_s :
    (op fn ra rb v : ℕ) → bit_or (encode_s op fn ra rb 0) (encode_s_imm v) ≡ encode_s op fn ra rb v
unfolding encode_s_imm
or-encode_s op fn ra rb v =
    let a = head_sum op fn ra / 2 ^ 42 in
    let h = v / 2 ^ 30 % 64 in
    let l = v % 2 ^ 30 in
    rw
      (encode_s_sum op fn ra rb 0, encode_s_sum op fn ra rb v, bit_or_disjoint 36 h l (omega arith))
      (ground (arith, around_rb a h (rb % 64) l (omega arith) (omega arith) (omega arith)))

or-encode_l :
    (op fn ra rd v : ℕ) → bit_or (encode_l op fn ra rd 0) (encode_l_imm v) ≡ encode_l op fn ra rd v
unfolding encode_l_imm
or-encode_l op fn ra rd v =
    let a = head_sum op fn ra / 2 ^ 36 + rd % 64 in
    rw (encode_l_sum op fn ra rd 0, encode_l_sum op fn ra rd v)
      (ground (arith, bit_or_disjoint 36 a (v % 2 ^ 36) (omega arith)))

patch_word-i :
    (op fn ra rd fl at target : ℕ)
    → op ≡ op_i ⊎ (op ≡ op_mi ⊎ op ≡ op_fi)
    → patch_word (encode_i op fn ra rd 0 fl) at target
      ≡ ok (encode_i op fn ra rd (sub64 target header_len) fl)
unfolding patch_word
patch_word-i op fn ra rd fl at target kind = ground (
  arith,
  (decode-encode_i op fn ra rd 0 fl).0,
  or-encode_i op fn ra rd fl (sub64 target header_len),
)

patch_word-s :
    (fn ra rb at target : ℕ)
    → patch_word (encode_s op_s fn ra rb 0) at target
      ≡ ok (encode_s op_s fn ra rb (sub64 target header_len))
unfolding patch_word
patch_word-s fn ra rb at target = ground (
  arith,
  (decode-encode_s op_s fn ra rb 0).0,
  or-encode_s op_s fn ra rb (sub64 target header_len),
)

patch_word-l :
    (fn ra rd at target : ℕ)
    → patch_word (encode_l op_l fn ra rd 0) at target
      ≡ ok (encode_l op_l fn ra rd (sub64 target header_len))
unfolding patch_word
patch_word-l fn ra rd at target = ground (
  arith,
  (decode-encode_l op_l fn ra rd 0).0,
  or-encode_l op_l fn ra rd (sub64 target header_len),
)

patch_word-b :
    (op fn ra rb at target : ℕ)
    → op ≡ op_b ⊎ op ≡ op_fb
    → patch_word (encode_s op fn ra rb 0) at target ≡ ok (encode_s op fn ra rb (sub64 target at))
unfolding patch_word encode_b_imm
patch_word-b op fn ra rb at target kind =
    ground (arith, (decode-encode_s op fn ra rb 0).0, or-encode_s op fn ra rb (sub64 target at))

-- A word that was assembled with 0 in the place of a label is patched to the word that is assembled
-- with the address of the label, counted from the end of the header, or for a branch from the
-- branch, as its immediate.
pub patch_word-encode :
    (i b fn ra rx fl at target : ℕ)
    → i ≡ op_i ⊎ (i ≡ op_mi ⊎ i ≡ op_fi)
    → b ≡ op_b ⊎ b ≡ op_fb
    → let address = sub64 target header_len in
      (patch_word (encode_i i fn ra rx 0 fl) at target ≡ ok (encode_i i fn ra rx address fl))
      × (patch_word (encode_s op_s fn ra rx 0) at target ≡ ok (encode_s op_s fn ra rx address))
      × (patch_word (encode_l op_l fn ra rx 0) at target ≡ ok (encode_l op_l fn ra rx address))
      × (patch_word (encode_s b fn ra rx 0) at target ≡ ok (encode_s b fn ra rx (sub64 target at)))
patch_word-encode i b fn ra rx fl at target i_kind b_kind = (
  patch_word-i i fn ra rx fl at target i_kind,
  patch_word-s fn ra rx at target,
  patch_word-l fn ra rx at target,
  patch_word-b b fn ra rx at target b_kind,
)

-- What `SIGN_EXT36(B_IMM(w))` adds to the address of a branch, for the result of a patch.
abbrev pub lands : (at : ℕ) → Result ℕ → Result ℕ
lands at word = word >>= λ w. ok (add64 at (sign_ext36 (b_imm w)))

-- For a branch at a word below 2 ^ 35 that was assembled with a label, which stands at a word below
-- 2 ^ 35, the patch gives a word whose immediate, decoded and extended as the interpreters do it,
-- leads from the branch to the label.
pub patch_word-lands :
    (op fn ra rb at target : ℕ)
    → op ≡ op_b ⊎ op ≡ op_fb
    → at < 2 ^ 35
    → target < 2 ^ 35
    → lands at (patch_word (encode_s op fn ra rb 0) at target) ≡ ok target
unfolding b_imm
patch_word-lands op fn ra rb at target kind near_at near_target =
    let distance = sub64 target at in
    let fits : FitsInt36 distance = ground arith in
    rw
      (
        patch_word-b op fn ra rb at target kind,
        (decode-encode_s op fn ra rb distance).4,
        sign_ext36-mod distance fits,
      )
      (ground arith)
