-- ===== src/Decoded.antt =====
-- The predecoding of `run` in src/core.c: the dispatch table over `opcode << 8 | funct` and
-- the `DecodedInstr` records.
pub mod Cache
use cortex_vm.Prelude.{ℕ, ◌+◌, ◌*◌, ltb, ◌==◌, ◌||◌, if◌then◌else◌}
use cortex_vm.Word.{sign_ext32, sign_ext36}
use cortex_vm.Isa.{opcode, funct, flags, i_ra, i_rd, i_rb, i_imm, s_imm, l_imm}
use cortex_vm.Isa.Codes.{
  op_r, op_i, op_s, op_l, op_b, op_sys, fn_addsub, fn_or, fn_xor, fn_and, fn_sll, fn_sr, fn_jmp,
  fn_slt, fn_sltu, fn_seq, fn_sw, fn_lw, fn_beq, fn_bne, fn_blt, fn_bltu, fn_bge, fn_bgt, fn_bgtu,
  fn_ble, fn_bleu, fn_bgeu, fn_halt, fn_syscall, fn_nop, fn_break,
}

-- The labels of the threaded code.
pub data Handler : Type 0 where
  r_addsub r_or r_xor r_and r_sll r_sr r_sltu r_slt r_seq : Handler
  i_addsub i_or i_xor i_and i_sll i_sr i_jmp : Handler
  s_sw : Handler
  l_lw : Handler
  b_beq b_bne b_blt b_bltu b_bge b_bgt b_bgtu b_ble b_bleu b_bgeu : Handler
  sys_halt sys_syscall sys_nop sys_break : Handler
  do_illegal : Handler

-- The assignments to `dispatch`, by opcode; `rest` is what the table holds elsewhere.
unfoldable pub r_entries : ℕ → Handler → Handler
r_entries k rest =
    if k == op_r * 256 + fn_addsub
    then r_addsub
    else if k == op_r * 256 + fn_or
    then r_or
    else if k == op_r * 256 + fn_xor
    then r_xor
    else if k == op_r * 256 + fn_and
    then r_and
    else if k == op_r * 256 + fn_sll
    then r_sll
    else if k == op_r * 256 + fn_sr
    then r_sr
    else if k == op_r * 256 + fn_sltu
    then r_sltu
    else if k == op_r * 256 + fn_slt
    then r_slt
    else if k == op_r * 256 + fn_seq
    then r_seq
    else rest

unfoldable pub i_entries : ℕ → Handler → Handler
i_entries k rest =
    if k == op_i * 256 + fn_addsub
    then i_addsub
    else if k == op_i * 256 + fn_or
    then i_or
    else if k == op_i * 256 + fn_xor
    then i_xor
    else if k == op_i * 256 + fn_and
    then i_and
    else if k == op_i * 256 + fn_sll
    then i_sll
    else if k == op_i * 256 + fn_sr
    then i_sr
    else if k == op_i * 256 + fn_jmp
    then i_jmp
    else rest

unfoldable pub s_entries : ℕ → Handler → Handler
s_entries k rest = if k == op_s * 256 + fn_sw then s_sw else rest

unfoldable pub l_entries : ℕ → Handler → Handler
l_entries k rest = if k == op_l * 256 + fn_lw then l_lw else rest

unfoldable pub b_entries : ℕ → Handler → Handler
b_entries k rest =
    if k == op_b * 256 + fn_beq
    then b_beq
    else if k == op_b * 256 + fn_bne
    then b_bne
    else if k == op_b * 256 + fn_blt
    then b_blt
    else if k == op_b * 256 + fn_bltu
    then b_bltu
    else if k == op_b * 256 + fn_bge
    then b_bge
    else if k == op_b * 256 + fn_bgt
    then b_bgt
    else if k == op_b * 256 + fn_bgtu
    then b_bgtu
    else if k == op_b * 256 + fn_ble
    then b_ble
    else if k == op_b * 256 + fn_bleu
    then b_bleu
    else if k == op_b * 256 + fn_bgeu
    then b_bgeu
    else rest

unfoldable pub sys_entries : ℕ → Handler → Handler
sys_entries k rest =
    if k == op_sys * 256 + fn_halt
    then sys_halt
    else if k == op_sys * 256 + fn_syscall
    then sys_syscall
    else if k == op_sys * 256 + fn_nop
    then sys_nop
    else if k == op_sys * 256 + fn_break
    then sys_break
    else rest

unfoldable pub dispatch : ℕ → Handler
unfolding r_entries i_entries s_entries l_entries b_entries sys_entries
dispatch k =
    r_entries k (i_entries k (s_entries k (l_entries k (b_entries k (sys_entries k do_illegal)))))

-- `opcode` and `raw` are for the fallback.
pub record DecodedInstr : Type 0 where
  pub handler : Handler
  pub imm : ℕ
  pub rd : ℕ
  pub ra : ℕ
  pub rb : ℕ
  pub fl : ℕ
  pub op : ℕ
  pub raw : ℕ

-- The immediate, sign-extended by the shape of the opcode.
unfoldable pub decode_imm : (op w : ℕ) → ℕ
decode_imm op w =
    if op == op_s || op == op_b
    then sign_ext36 (s_imm w)
    else if op == op_l
    then sign_ext36 (l_imm w)
    else sign_ext32 (i_imm w)

unfoldable pub decode : ℕ → DecodedInstr
decode w = record {
  handler = dispatch (opcode w * 256 + funct w);
  imm = decode_imm (opcode w) w;
  rd = i_rd w;
  ra = i_ra w;
  rb = i_rb w;
  fl = flags w;
  op = opcode w;
  raw = w;
}

-- The record behind the code, on which running off the end lands.
abbrev pub sentinel : DecodedInstr
sentinel = record {
  handler = sys_halt;
  imm = 0;
  rd = 0;
  ra = 0;
  rb = 0;
  fl = 0;
  op = op_sys;
  raw = 0;
}

-- The array `decoded` of `code_size + 1` records.
unfoldable pub decode_all : (code : ℕ → ℕ) (code_size : ℕ) → ℕ → DecodedInstr
unfolding decode
decode_all code code_size i = if ltb i code_size then decode (code i) else sentinel
