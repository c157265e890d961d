-- ===== src/Tests/Listing.antt =====
-- A binary that is disassembled and assembled again.
use cortex_vm.Prelude.{
  ℕ, zero, suc, ◌-◌, ◌≤◌, ◌<◌, ◌≡◌, ◌≢◌, refl, arith, List, [], ◌∷◌, ◌++◌, ok, codes, none,
  diverged,
}
use cortex_vm.Isa.Codes.{header_len}
use cortex_vm.Isa.{opcode, funct, flags, i_rd, i_ra, i_rb, i_imm, b_imm}
use cortex_vm.Header.{header_validate, header_parse}
use cortex_vm.Disassembler.{decimal}
use cortex_vm.Disassembler.Mnemonics.{mnemonic_i, mnemonic_mr, mnemonic_b, mnemonic_sys}
use cortex_vm.Assembler.Immediate.{FloatText, get_imm}
use cortex_vm.Assembler.Program.{empty_output, assemble_loop}
use cortex_vm.Assembler.Assemble.{assemble}
use cortex_vm.Assembler.Accepted.{word_at, header_validate-assemble}
use cortex_vm.Disassembler.Ends.{disassemble-ne-diverged}
use cortex_vm.Assembler.Canonical.{shown, word_ext}
use cortex_vm.Assembler.Formats.{assembled}
use cortex_vm.Assembler.Listings.{HasText}
use cortex_vm.Assembler.Numbers.{get_imm-signed_decimal}
use cortex_vm.Assembler.Reassemble.{dis_word-assembled}
use cortex_vm.Assembler.RoundTrip.{reassembled, disassemble-assemble}
use cortex_vm.Disassembler.Lines.{
  signed_decimal, digits, line_rri, line_rrr, two_operands, dis_op_i, dis_op_mr, dis_op_b,
  dis_op_sys,
}
use cortex_vm.Disassembler.Listing.{dis_word}
use cortex_vm.Disassembler.Program.{disassemble, code_lines, data_part}
use cortex_vm.Tests.Programs.{test_fpu}
use cortex_vm.Word.{word_mod}

abbrev pub test_text : FloatText
test_text = record { strtod = λ head. (0, head); narrow = λ d. 0; format_g = λ d. [] }

-- addi r5, r0, 5; mul r5, r0, r1 at the entry point; beq r0, r0, -1; break
abbrev pub image : ℕ → ℕ
image zero = 0x2e3a434f52540001
image (suc zero) = 9
image (suc (suc zero)) = 6
image (suc (suc (suc zero))) = 2
image (suc (suc (suc (suc (suc zero))))) = 0x8201005000000005
image (suc (suc (suc (suc (suc (suc zero)))))) = 0xe101005040000000
image (suc (suc (suc (suc (suc (suc (suc zero))))))) = 0x850103f03fffffff
image (suc (suc (suc (suc (suc (suc (suc (suc zero)))))))) = 0x8604000000000000
image _ = 0

image-HasText : (k : ℕ) → header_len ≤ k → k < image 1 → HasText (image k)
unfolding opcode
image-HasText (suc (suc (suc (suc (suc zero))))) lo hi = (omega arith, omega arith)
image-HasText (suc (suc (suc (suc (suc (suc zero)))))) lo hi = (omega arith, omega arith)
image-HasText (suc (suc (suc (suc (suc (suc (suc zero))))))) lo hi = (omega arith, omega arith)
image-HasText (suc (suc (suc (suc (suc (suc (suc (suc zero)))))))) lo hi =
    (omega arith, omega arith)
image-HasText _ lo hi = absurd (omega arith)

abbrev pub listing : List ℕ
listing = codes "\taddi r5, r0, 5\nmain:\n\tmul r5, r0, r1\n\tbeq r0, r0, -1\n\tbreak\n"

image-listing : disassemble image (λ v. []) (λ v. v) ≡ ok listing
unfolding disassemble header_validate header_parse dis_word opcode dis_op_i mnemonic_i funct
    dis_op_mr mnemonic_mr dis_op_b mnemonic_b dis_op_sys mnemonic_sys flags i_rd i_ra i_rb i_imm
    b_imm digits line_rri line_rrr signed_decimal two_operands code_lines data_part decimal
image-listing = refl

disassemble-assemble_example : assemble test_fpu test_text 21 listing ≡ ok (reassembled image)
disassemble-assemble_example =
    disassemble-assemble test_fpu test_text (λ v. []) (λ v. v) image listing 21 refl image-HasText
      image-listing (omega arith)

pub disassemble-assemble_again : assemble test_fpu test_text 21 listing ≡ ok (reassembled image)
disassemble-assemble_again =
    disassemble-assemble test_fpu test_text (λ v. []) (λ v. v) image listing 21 refl image-HasText
      image-listing (omega arith)

-- Here the words come back as they were.
image-reassembled :
    reassembled image
    ≡ image 0 ∷ image 1 ∷ image 2 ∷ image 3 ∷ image 4 ∷ image 5 ∷ image 6 ∷ image 7 ∷ image 8 ∷ []
unfolding shown word_ext opcode funct flags
image-reassembled = refl

abbrev branch_line : List ℕ
branch_line = codes "\tbeq r0, r0, -1\n"

branch_line-text :
    dis_word (λ v. []) (λ v. v) (image 7) (codes "; end") ≡ ok (branch_line ++ codes "; end")
unfolding dis_word opcode dis_op_b mnemonic_b funct i_ra i_rb b_imm digits signed_decimal line_rri
    two_operands decimal
branch_line-text = refl

dis_word-assembled_example :
    assemble_loop test_fpu test_text 3 (branch_line ++ codes "; end") empty_output
    ≡ assemble_loop test_fpu test_text 1
        (codes "; end")
        (assembled (shown (image 7)) (word_ext (image 7)) empty_output)
dis_word-assembled_example =
    dis_word-assembled test_fpu test_text (λ v. []) (λ v. v) (image 7) 1 (codes "; end")
      (branch_line ++ codes "; end") empty_output (image-HasText 7 (omega arith) (omega arith)).0
      (image-HasText 7 (omega arith) (omega arith)).1 branch_line-text

get_imm-signed_decimal_example :
    get_imm test_fpu test_text (signed_decimal (word_mod - 12) (10 ∷ []))
    ≡ ok (record { value = word_mod - 12; label = none; rest = 10 ∷ [] })
get_imm-signed_decimal_example =
    get_imm-signed_decimal test_fpu test_text (word_mod - 12) [] (omega arith) (omega arith)

header_validate-assemble_example :
    header_validate 9 (header_parse (word_at (reassembled image)))
    ≡ ok (header_parse (word_at (reassembled image)))
header_validate-assemble_example =
    header_validate-assemble test_fpu test_text 21 listing (reassembled image)
      disassemble-assemble_again

disassemble-ne-diverged_example : disassemble image (λ v. []) (λ v. v) ≢ diverged
disassemble-ne-diverged_example = disassemble-ne-diverged image (λ v. []) (λ v. v)
