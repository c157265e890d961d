-- ===== src/Isa.antt =====
-- The instruction set: the codes of include/defs.h, and the fields that the macros of src/core.c
-- take out of an instruction word. `x >> k` is `shr x k`, `x & (2^k - 1)` is `low_bits x k`.
pub mod Codes
pub mod Encode
pub mod RoundTrip
pub mod Decode
use cortex_vm.Prelude.{ℕ, ◌*◌, ◌^◌, bit_or}
use cortex_vm.Word.{shr, low_bits}

unfoldable pub opcode : ℕ → ℕ
opcode w = low_bits (shr w 56) 8

unfoldable pub funct : ℕ → ℕ
funct w = low_bits (shr w 48) 8

unfoldable pub flags : ℕ → ℕ
flags w = low_bits (shr w 26) 4

unfoldable pub i_ra : ℕ → ℕ
i_ra w = low_bits (shr w 42) 6

unfoldable pub i_rd : ℕ → ℕ
i_rd w = low_bits (shr w 36) 6

unfoldable pub i_rb : ℕ → ℕ
i_rb w = low_bits (shr w 30) 6

unfoldable pub i_imm : ℕ → ℕ
i_imm w = bit_or (low_bits (shr w 30) 6 * 2 ^ 26) (low_bits w 26)

unfoldable pub s_imm : ℕ → ℕ
s_imm w = bit_or (low_bits (shr w 36) 6 * 2 ^ 30) (low_bits w 30)

unfoldable pub l_imm : ℕ → ℕ
l_imm w = low_bits w 36

unfoldable pub b_imm : ℕ → ℕ
unfolding s_imm
b_imm w = s_imm w
