-- ===== src/Tests/DataSection.antt =====
-- A binary with a data section that is disassembled and assembled again.
use cortex_vm.Prelude.{ℕ, zero, suc, ◌≤◌, ◌<◌, ◌≡◌, refl, arith, List, [], ok, codes}
use cortex_vm.Isa.{opcode, funct}
use cortex_vm.Isa.Codes.{header_len}
use cortex_vm.Header.{header_validate, header_parse}
use cortex_vm.Assembler.Assemble.{assemble}
use cortex_vm.Assembler.DataLines.{Printable}
use cortex_vm.Assembler.Listings.{HasText}
use cortex_vm.Assembler.WithData.{reassembled_data, disassemble-assemble_data}
use cortex_vm.Disassembler.Mnemonics.{mnemonic_sys}
use cortex_vm.Disassembler.Lines.{digits, dis_op_sys}
use cortex_vm.Disassembler.Listing.{dis_word}
use cortex_vm.Disassembler.Program.{
  disassemble, code_lines, data_part, data_lines, string_at, string_end, string_line, string_body,
  escaped, is_text, number_line,
}
use cortex_vm.Tests.Listing.{test_text}
use cortex_vm.Tests.Programs.{test_fpu}

-- break; then "hi" and 77
abbrev image : ℕ → ℕ
image zero = 0x2e3a434f52540001
image (suc zero) = 10
image (suc (suc zero)) = 5
image (suc (suc (suc zero))) = 0
image (suc (suc (suc (suc zero)))) = 6
image (suc (suc (suc (suc (suc zero))))) = 0x8604000000000000
image (suc (suc (suc (suc (suc (suc zero)))))) = 104
image (suc (suc (suc (suc (suc (suc (suc zero))))))) = 105
image (suc (suc (suc (suc (suc (suc (suc (suc zero)))))))) = 0
image (suc (suc (suc (suc (suc (suc (suc (suc (suc zero))))))))) = 77
image _ = 0

image-HasText : (k : ℕ) → header_len ≤ k → k < image 4 → HasText (image k)
unfolding opcode
image-HasText (suc (suc (suc (suc (suc zero))))) lo hi = (omega arith, omega arith)
image-HasText _ lo hi = absurd (omega arith)

image-Printable : (k : ℕ) → image 4 ≤ k → k < image 1 → Printable (image k)
image-Printable (suc (suc (suc (suc (suc (suc zero)))))) lo hi = (omega arith, omega arith)
image-Printable (suc (suc (suc (suc (suc (suc (suc zero))))))) lo hi = (omega arith, omega arith)
image-Printable (suc (suc (suc (suc (suc (suc (suc (suc zero)))))))) lo hi =
    (omega arith, omega arith)
image-Printable (suc (suc (suc (suc (suc (suc (suc (suc (suc zero))))))))) lo hi =
    (omega arith, omega arith)
image-Printable _ lo hi = absurd (omega arith)

abbrev listing : List ℕ
listing = codes "main:\n\tbreak\n.data\n    \"hi\"\n\t77\n"

image-listing : disassemble image (λ v. []) (λ v. v) ≡ ok listing
unfolding disassemble header_validate header_parse dis_word opcode dis_op_sys mnemonic_sys funct
    digits code_lines data_part data_lines string_at string_end string_line string_body escaped
    is_text number_line
image-listing = refl

disassemble-assemble_data_example :
    assemble test_fpu test_text 25 listing ≡ ok (reassembled_data image)
disassemble-assemble_data_example =
    disassemble-assemble_data test_fpu test_text (λ v. []) (λ v. v) image listing 25 (omega arith)
      (omega arith) image-HasText image-Printable image-listing (omega arith)
