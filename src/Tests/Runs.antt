-- ===== src/Tests/Runs.antt =====
-- The threaded interpreter against `step`, on a small program.
use cortex_vm.Prelude.{ℕ, zero, suc, ◌<◌, ◌≤◌, ◌≡◌, refl, inl, false, Result, ok, arith}
use cortex_vm.Isa.{opcode, funct, flags, i_ra, i_rd, i_rb, i_imm}
use cortex_vm.Isa.Codes.{pc_reg}
use cortex_vm.Machine.{Vm, set_reg}
use cortex_vm.Alu.{alu_i}
use cortex_vm.Step.{exec_i, exec_sys, execute, finish_step, step, step_loop}
use cortex_vm.Syscall.{handle_syscall}
use cortex_vm.Syscall.Frame.{Frame, handle_syscall-Frame}
use cortex_vm.Decoded.{decode, decode_all, sys_nop}
use cortex_vm.Run.{run_from, run_handler}
use cortex_vm.Run.Agree.{Agree}
use cortex_vm.Run.Refinement.{execute-Agree}
use cortex_vm.Run.Bounds.{IsCalm, run_handler-bounded}
use cortex_vm.Run.Loop.{SameButPc, run_from-refines-step_loop}
use cortex_vm.Tests.Programs.{test_host, test_fpu, blank, two_words, addi_word}

abbrev program : Vm ℕ
program = blank two_words

abbrev returned : Result (Vm ℕ) → Vm ℕ
returned (ok vm) = vm
returned _ = program

-- The machine after the two words.
halted : Vm ℕ
halted = returned (step_loop test_host test_fpu 2 0 2 (set_reg pc_reg 0 program))

two_words-IsCalm : (i : ℕ) → i < 2 → IsCalm (two_words i)
unfolding opcode i_ra i_rd i_rb
two_words-IsCalm zero h = (refl, omega arith, inl (omega arith))
two_words-IsCalm (suc zero) h = (refl, omega arith, inl (omega arith))
two_words-IsCalm (suc (suc i)) h = absurd (omega arith)

-- nop
abbrev nop_word : ℕ
nop_word = 0x8603_0000_0000_0000

nop_word-IsCalm : IsCalm nop_word
unfolding opcode i_ra i_rd i_rb
nop_word-IsCalm = (refl, omega arith, inl (omega arith))

two_words_step_loop : step_loop test_host test_fpu 2 0 2 (set_reg pc_reg 0 program) ≡ ok halted
unfolding halted step_loop step execute finish_step exec_i exec_sys alu_i opcode funct flags i_ra
    i_rd i_imm
two_words_step_loop = refl

halted_r4 : halted.regs 4 ≡ 7
unfolding halted step_loop step execute finish_step exec_i exec_sys alu_i opcode funct flags i_ra
    i_rd i_imm
halted_r4 = refl

run_from-refines-step_loop_example :
    (s' : Vm ℕ) × (run_from test_host test_fpu 2 0 (decode_all program.code 2) 3 0 program ≡ ok s')
    × SameButPc halted s'
run_from-refines-step_loop_example =
    run_from-refines-step_loop test_host test_fpu 2 0 2 0 program halted (omega arith)
      two_words-IsCalm (omega arith) two_words_step_loop

handle_syscall-Frame_example : Frame 4 program (record program { exit_code = 0 })
unfolding handle_syscall
handle_syscall-Frame_example =
    handle_syscall-Frame 4 (omega arith) test_host test_fpu 2 program
      (record program { exit_code = 0 }) false refl

execute-Agree_example :
    Agree 2
      (execute test_host test_fpu 2 0 addi_word (set_reg pc_reg 1 program))
      (run_handler test_host test_fpu 2 0 (decode addi_word).handler (decode addi_word) 1 program)
unfolding opcode i_ra i_rd
execute-Agree_example = execute-Agree test_host test_fpu 2 0 addi_word 1 program refl

run_handler-bounded_example : 1 ≤ 2
unfolding run_handler
run_handler-bounded_example =
    run_handler-bounded test_host test_fpu 2 0 sys_nop nop_word 1 1 program program nop_word-IsCalm
      (omega arith) refl
