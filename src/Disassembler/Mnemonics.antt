-- ===== src/Disassembler/Mnemonics.antt =====
-- The `switch(funct)` of each of the printing functions of src/disassembler.c.
use cortex_vm.Prelude.{ℕ, ◌%◌, ◌==◌, if◌then◌else◌, List, codes, Result, ok, fatal}
use cortex_vm.Isa.Codes.{
  fn_addsub, fn_and, fn_beq, fn_bge, fn_bgeu, fn_bgt, fn_bgtu, fn_ble, fn_bleu, fn_blt, fn_bltu,
  fn_bne, fn_break, fn_div, fn_divu, fn_fadd, fn_fbge, fn_fbgt, fn_fble, fn_fblt, fn_fdiv, fn_fmul,
  fn_fsub, fn_halt, fn_jmp, fn_mul, fn_mulh, fn_mulhu, fn_nop, fn_or, fn_rem, fn_remu, fn_seq,
  fn_sll, fn_slt, fn_sltu, fn_sr, fn_syscall, fn_xor,
}

-- The names that the printing functions choose by the function code, and by the lowest flag.
unfoldable pub mnemonic_r : (fn fl : ℕ) → Result (List ℕ)
mnemonic_r fn fl =
    if fn == fn_addsub
    then ok (if fl % 2 == 1 then codes "sub" else codes "add")
    else if fn == fn_or
    then ok (codes "or")
    else if fn == fn_xor
    then ok (codes "xor")
    else if fn == fn_and
    then ok (codes "and")
    else if fn == fn_sll
    then ok (codes "sll")
    else if fn == fn_sr
    then ok (if fl % 2 == 1 then codes "sra" else codes "srl")
    else if fn == fn_slt
    then ok (codes "slt")
    else if fn == fn_sltu
    then ok (codes "sltu")
    else if fn == fn_seq
    then ok (codes "seq")
    else fatal 0x0601

unfoldable pub mnemonic_i : (fn fl : ℕ) → Result (List ℕ)
mnemonic_i fn fl =
    if fn == fn_addsub
    then ok (if fl % 2 == 1 then codes "subi" else codes "addi")
    else if fn == fn_or
    then ok (codes "ori")
    else if fn == fn_xor
    then ok (codes "xori")
    else if fn == fn_and
    then ok (codes "andi")
    else if fn == fn_sll
    then ok (codes "slli")
    else if fn == fn_sr
    then ok (if fl % 2 == 1 then codes "srai" else codes "srli")
    else if fn == fn_jmp
    then ok (codes "jmp")
    else fatal 0x0602

unfoldable pub mnemonic_b : (fn : ℕ) → Result (List ℕ)
mnemonic_b fn =
    if fn == fn_beq
    then ok (codes "beq")
    else if fn == fn_bne
    then ok (codes "bne")
    else if fn == fn_blt
    then ok (codes "blt")
    else if fn == fn_bltu
    then ok (codes "bltu")
    else if fn == fn_ble
    then ok (codes "ble")
    else if fn == fn_bgt
    then ok (codes "bgt")
    else if fn == fn_bgtu
    then ok (codes "bgtu")
    else if fn == fn_bge
    then ok (codes "bge")
    else if fn == fn_bleu
    then ok (codes "bleu")
    else if fn == fn_bgeu
    then ok (codes "bgeu")
    else fatal 0x0603

unfoldable pub mnemonic_sys : (fn : ℕ) → Result (List ℕ)
mnemonic_sys fn =
    if fn == fn_halt
    then ok (codes "halt")
    else if fn == fn_syscall
    then ok (codes "syscall")
    else if fn == fn_nop
    then ok (codes "nop")
    else if fn == fn_break
    then ok (codes "break")
    else fatal 0x0604

unfoldable pub mnemonic_fr : (fn : ℕ) → Result (List ℕ)
mnemonic_fr fn =
    if fn == fn_fadd
    then ok (codes "fadd")
    else if fn == fn_fsub
    then ok (codes "fsub")
    else if fn == fn_fmul
    then ok (codes "fmul")
    else if fn == fn_fdiv
    then ok (codes "fdiv")
    else fatal 0x0605

unfoldable pub mnemonic_fb : (fn : ℕ) → Result (List ℕ)
mnemonic_fb fn =
    if fn == fn_fblt
    then ok (codes "fblt")
    else if fn == fn_fble
    then ok (codes "fble")
    else if fn == fn_fbgt
    then ok (codes "fbgt")
    else if fn == fn_fbge
    then ok (codes "fbge")
    else fatal 0x0607

unfoldable pub mnemonic_mr : (fn : ℕ) → Result (List ℕ)
mnemonic_mr fn =
    if fn == fn_mul
    then ok (codes "mul")
    else if fn == fn_mulh
    then ok (codes "mulh")
    else if fn == fn_mulhu
    then ok (codes "mulhu")
    else if fn == fn_div
    then ok (codes "div")
    else if fn == fn_divu
    then ok (codes "divu")
    else if fn == fn_rem
    then ok (codes "rem")
    else if fn == fn_remu
    then ok (codes "remu")
    else fatal 0x0608

unfoldable pub mnemonic_mi : (fn : ℕ) → Result (List ℕ)
mnemonic_mi fn =
    if fn == fn_mul
    then ok (codes "muli")
    else if fn == fn_div
    then ok (codes "divi")
    else if fn == fn_divu
    then ok (codes "divui")
    else if fn == fn_rem
    then ok (codes "remi")
    else if fn == fn_remu
    then ok (codes "remui")
    else fatal 0x0609
