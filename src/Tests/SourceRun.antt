-- ===== src/Tests/SourceRun.antt =====
-- A source that is assembled, loaded and run, by the library and by `main`.
use cortex_vm.Prelude.{
  ℕ, zero, suc, ◌≤◌, ◌<◌, ◌≡◌, refl, inl, Bool, true, false, Option, List, [], codes, Result, ok,
  arith,
}
use cortex_vm.Isa.{opcode, funct, flags, i_ra, i_rd, i_rb, i_imm}
use cortex_vm.Isa.Codes.{header_len}
use cortex_vm.Machine.{Vm}
use cortex_vm.Alu.{alu_i}
use cortex_vm.Header.{header_parse, header_validate}
use cortex_vm.Step.{exec_i, exec_sys, execute, finish_step, step, step_loop}
use cortex_vm.Run.Bounds.{IsCalm}
use cortex_vm.Loader.{load_vm, load_code, cortex_vm_create}
use cortex_vm.Loader.Outcome.{EndsAs}
use cortex_vm.Loader.Source.{exec_source, exec_source-refines-step_loop}
use cortex_vm.Disassembler.{decimal}
use cortex_vm.Disassembler.Mnemonics.{mnemonic_i, mnemonic_sys}
use cortex_vm.Disassembler.Lines.{
  signed_decimal, digits, line_rri, two_operands, dis_op_i, dis_op_sys,
}
use cortex_vm.Disassembler.Listing.{dis_word}
use cortex_vm.Disassembler.Program.{disassemble, code_lines, data_part}
use cortex_vm.Assembler.Assemble.{assemble}
use cortex_vm.Assembler.Accepted.{word_at}
use cortex_vm.Assembler.Canonical.{shown, word_ext}
use cortex_vm.Assembler.Listings.{HasText}
use cortex_vm.Assembler.RoundTrip.{reassembled, disassemble-assemble}
use cortex_vm.Tests.Listing.{test_text}
use cortex_vm.Tests.Loading.{area, malloc, stale, stale-IsRoomy, created, file}
use cortex_vm.Tests.Programs.{test_fpu, test_host, blank}
use cortex_vm.Command.{Text, main}
use cortex_vm.Command.AssembleRun.{run_options, machine_parts, RanAs, main-refines-step_loop}

-- A program of two instructions.
abbrev source : List ℕ
source = codes "main:\n\taddi r4, r0, 7\n\thalt\n"

file-source : disassemble (file 5) (λ v. []) (λ v. v) ≡ ok source
unfolding disassemble header_validate header_parse dis_word opcode dis_op_i mnemonic_i funct
    dis_op_sys mnemonic_sys flags i_rd i_ra i_rb i_imm digits line_rri signed_decimal two_operands
    code_lines data_part decimal
file-source = refl

abbrev buff : List ℕ
buff = reassembled (file 5)

file-HasText : (k : ℕ) → header_len ≤ k → k < 7 → HasText (file 5 k)
unfolding opcode
file-HasText (suc (suc (suc (suc (suc zero))))) lo hi = (omega arith, omega arith)
file-HasText (suc (suc (suc (suc (suc (suc zero)))))) lo hi = (omega arith, omega arith)
file-HasText _ lo hi = absurd (omega arith)

assembled-source : assemble test_fpu test_text 21 source ≡ ok buff
assembled-source =
    disassemble-assemble test_fpu test_text (λ v. []) (λ v. v) (file 5) source 21 refl file-HasText
      file-source (omega arith)

words-IsCalm : (i : ℕ) → 5 ≤ i → i < 7 → IsCalm (word_at buff i)
unfolding opcode i_ra i_rd i_rb shown word_ext funct flags
words-IsCalm (suc (suc (suc (suc (suc zero))))) lo hi = (refl, omega arith, inl (omega arith))
words-IsCalm (suc (suc (suc (suc (suc (suc zero)))))) lo hi = (refl, omega arith, inl (omega arith))
words-IsCalm i lo hi = absurd (omega arith)

abbrev loaded : Vm ℕ
loaded = load_vm (header_parse (word_at buff)) (word_at buff) area created

abbrev reached : Result (Vm ℕ) → Vm ℕ
reached (ok vm) = vm
reached _ = created

halted : Vm ℕ
halted = reached (step_loop test_host test_fpu 2 0 2 loaded)

loaded-ends : step_loop test_host test_fpu 2 0 2 loaded ≡ ok halted
unfolding halted load_vm load_code header_parse cortex_vm_create step_loop step execute finish_step
    exec_i exec_sys alu_i opcode funct flags i_ra i_rd i_imm shown word_ext
loaded-ends = refl

exec_source-refines-step_loop_example :
    EndsAs test_host test_fpu malloc area
      (word_at buff)
      7
      stale
      created
      halted
      (exec_source test_host test_fpu test_text malloc area 21 3 source stale created)
unfolding word_ext opcode
exec_source-refines-step_loop_example =
    exec_source-refines-step_loop test_host test_fpu test_text malloc area 21 2 source buff stale
      created halted (λ n. refl) stale-IsRoomy (omega arith) assembled-source (omega arith)
      (omega arith) words-IsCalm loaded-ends

abbrev files : Option Text → Result (List ℕ)
files path = ok source

abbrev always : Option Text → Bool
always path = true

main-refines-step_loop_example :
    RanAs test_host test_fpu test_text malloc area area 21 3 stale
      (blank (λ _. 0))
      always
      always
      true
      halted
      (main (run_options (codes "a.s") true) (
        machine_parts test_host test_fpu test_text malloc area area 21 3 stale
          (blank (λ _. 0))
          always
          always
          (λ p. false)
          files
          files
          (λ words output no_output. ok [])))
unfolding word_ext opcode
main-refines-step_loop_example =
    main-refines-step_loop test_host test_fpu test_text malloc area area 21 2 stale (blank (λ _. 0))
      halted always always (λ p. false) files files (λ words output no_output. ok []) (codes "a.s")
      source buff true refl assembled-source refl refl (λ n. refl) stale-IsRoomy (omega arith)
      (omega arith) (omega arith) words-IsCalm loaded-ends
