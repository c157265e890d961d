-- ===== src/Isa/Codes.antt =====
-- The numeric codes of include/defs.h: opcodes, function codes, the memory map, the syscalls and
-- the registers that the virtual machine names.
use cortex_vm.Prelude.{ℕ}

abbrev pub op_r : ℕ
op_r = 0x81

abbrev pub op_i : ℕ
op_i = 0x82

abbrev pub op_s : ℕ
op_s = 0x83

abbrev pub op_l : ℕ
op_l = 0x84

abbrev pub op_b : ℕ
op_b = 0x85

abbrev pub op_sys : ℕ
op_sys = 0x86

abbrev pub op_label : ℕ
op_label = 0

abbrev pub op_data : ℕ
op_data = 0xff

abbrev pub op_mr : ℕ
op_mr = 0xe1

abbrev pub op_mi : ℕ
op_mi = 0xe2

abbrev pub op_fr : ℕ
op_fr = 0xf1

abbrev pub op_fi : ℕ
op_fi = 0xf2

abbrev pub op_fb : ℕ
op_fb = 0xf3

abbrev pub fn_addsub : ℕ
fn_addsub = 1

abbrev pub fn_or : ℕ
fn_or = 2

abbrev pub fn_xor : ℕ
fn_xor = 3

abbrev pub fn_and : ℕ
fn_and = 4

abbrev pub fn_sll : ℕ
fn_sll = 5

abbrev pub fn_sr : ℕ
fn_sr = 6

abbrev pub fn_jmp : ℕ
fn_jmp = 7

abbrev pub fn_slt : ℕ
fn_slt = 8

abbrev pub fn_sltu : ℕ
fn_sltu = 9

abbrev pub fn_seq : ℕ
fn_seq = 10

abbrev pub fn_sw : ℕ
fn_sw = 1

abbrev pub fn_lw : ℕ
fn_lw = 1

abbrev pub fn_beq : ℕ
fn_beq = 1

abbrev pub fn_bne : ℕ
fn_bne = 2

abbrev pub fn_blt : ℕ
fn_blt = 3

abbrev pub fn_bltu : ℕ
fn_bltu = 4

abbrev pub fn_bge : ℕ
fn_bge = 5

abbrev pub fn_bgt : ℕ
fn_bgt = 6

abbrev pub fn_bgtu : ℕ
fn_bgtu = 7

abbrev pub fn_ble : ℕ
fn_ble = 8

abbrev pub fn_bleu : ℕ
fn_bleu = 9

abbrev pub fn_bgeu : ℕ
fn_bgeu = 10

abbrev pub fn_halt : ℕ
fn_halt = 1

abbrev pub fn_syscall : ℕ
fn_syscall = 2

abbrev pub fn_nop : ℕ
fn_nop = 3

abbrev pub fn_break : ℕ
fn_break = 4

abbrev pub fn_mul : ℕ
fn_mul = 1

abbrev pub fn_mulh : ℕ
fn_mulh = 2

abbrev pub fn_mulhu : ℕ
fn_mulhu = 3

abbrev pub fn_div : ℕ
fn_div = 4

abbrev pub fn_divu : ℕ
fn_divu = 5

abbrev pub fn_rem : ℕ
fn_rem = 6

abbrev pub fn_remu : ℕ
fn_remu = 7

abbrev pub fn_fadd : ℕ
fn_fadd = 1

abbrev pub fn_fsub : ℕ
fn_fsub = 2

abbrev pub fn_fmul : ℕ
fn_fmul = 3

abbrev pub fn_fdiv : ℕ
fn_fdiv = 4

abbrev pub fn_fsqrt : ℕ
fn_fsqrt = 5

abbrev pub fn_fabs : ℕ
fn_fabs = 6

abbrev pub fn_ftoi : ℕ
fn_ftoi = 7

abbrev pub fn_itof : ℕ
fn_itof = 8

abbrev pub fn_ftoui : ℕ
fn_ftoui = 9

abbrev pub fn_uitof : ℕ
fn_uitof = 10

abbrev pub fn_fblt : ℕ
fn_fblt = 1

abbrev pub fn_fble : ℕ
fn_fble = 2

abbrev pub fn_fbgt : ℕ
fn_fbgt = 3

abbrev pub fn_fbge : ℕ
fn_fbge = 4

abbrev pub ext_float : ℕ
ext_float = 1

abbrev pub ext_m : ℕ
ext_m = 2

abbrev pub version : ℕ
version = 1

abbrev pub header_len : ℕ
header_len = 5

abbrev pub heap_addr : ℕ
heap_addr = 0x0001_0000_0000_0000

abbrev pub stack_addr : ℕ
stack_addr = 0x0008_0000_0000_0000

-- `STACKSIZE` counts bytes, `stack_words` is `STACKSIZE / sizeof(uint64_t)`.
abbrev pub stack_size : ℕ
stack_size = 0x80_0000

abbrev pub stack_words : ℕ
stack_words = 0x10_0000

abbrev pub sys_exit : ℕ
sys_exit = 0

abbrev pub sys_print_int : ℕ
sys_print_int = 1

abbrev pub sys_print_uint : ℕ
sys_print_uint = 2

abbrev pub sys_print_char : ℕ
sys_print_char = 3

abbrev pub sys_print_float : ℕ
sys_print_float = 4

abbrev pub sys_print_str : ℕ
sys_print_str = 5

abbrev pub sys_read_int : ℕ
sys_read_int = 11

abbrev pub sys_read_uint : ℕ
sys_read_uint = 12

abbrev pub sys_read_char : ℕ
sys_read_char = 13

abbrev pub sys_read_float : ℕ
sys_read_float = 14

abbrev pub sys_read_str : ℕ
sys_read_str = 15

abbrev pub sys_rand_seed : ℕ
sys_rand_seed = 21

abbrev pub sys_rand_int : ℕ
sys_rand_int = 22

abbrev pub sys_rand_r_int : ℕ
sys_rand_r_int = 23

abbrev pub sys_rand_float : ℕ
sys_rand_float = 24

abbrev pub sys_file_open : ℕ
sys_file_open = 31

abbrev pub sys_file_read : ℕ
sys_file_read = 32

abbrev pub sys_file_close : ℕ
sys_file_close = 33

abbrev pub sys_file_write : ℕ
sys_file_write = 34

abbrev pub sys_time_get : ℕ
sys_time_get = 41

abbrev pub sys_time_sleep : ℕ
sys_time_sleep = 42

abbrev pub sys_heap_grow : ℕ
sys_heap_grow = 51

abbrev pub sys_heap_top : ℕ
sys_heap_top = 52

abbrev pub zero_reg : ℕ
zero_reg = 0

abbrev pub pc_reg : ℕ
pc_reg = 1

abbrev pub sp_reg : ℕ
sp_reg = 2

abbrev pub ra_reg : ℕ
ra_reg = 3

abbrev pub s0 : ℕ
s0 = 4

abbrev pub t0 : ℕ
t0 = 32

abbrev pub a0 : ℕ
a0 = 18

abbrev pub a1 : ℕ
a1 = 19

abbrev pub a13 : ℕ
a13 = 31
