-- ===== src/Tests/Instructions.antt =====
-- Words that are packed and read back.
use cortex_vm.Prelude.{◌≡◌, refl, inl, inr, arith}
use cortex_vm.Isa.Encode.{
  encode_i, encode_s, encode_l, encode_opcode, encode_funct, encode_ra, encode_rd, encode_i_imm,
  encode_flags,
}
use cortex_vm.Isa.{i_imm, s_imm, l_imm}
use cortex_vm.Isa.Decode.{immediates_round_trip}
use cortex_vm.Word.{sign_ext32, sign_ext36}
use cortex_vm.Tests.Programs.{addi_word}

addi_word_packed : encode_i 0x82 1 0 4 7 0 ≡ addi_word
unfolding encode_i encode_opcode encode_funct encode_ra encode_rd encode_i_imm encode_flags
addi_word_packed = refl

immediates_round_trip_example :
    (sign_ext32 (i_imm (encode_i 0x82 1 0 4 0xffff_ffff_ffff_fff9 0)) ≡ 0xffff_ffff_ffff_fff9)
    × (sign_ext36 (s_imm (encode_s 0x82 1 0 4 12)) ≡ 12)
    × (sign_ext36 (l_imm (encode_l 0x82 1 0 4 12)) ≡ 12)
immediates_round_trip_example =
    immediates_round_trip 0x82 1 0 4 0 0xffff_ffff_ffff_fff9 12 (inr (omega arith))
      (inl (omega arith))
