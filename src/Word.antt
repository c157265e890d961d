-- ===== src/Word.antt =====
-- The 64-bit registers: `uint64_t` as a native ℕ below 2 ^ 64, and `int64_t` as the integer that
-- such a pattern stands for. The operations are those of the C expressions in src/core.c.
pub mod Int
use cortex_vm.Prelude.{ℕ, ◌+◌, ◌-◌, ◌*◌, ◌/◌, ◌%◌, ◌^◌, ◌==◌, ltb, if◌then◌else◌, Bool, bit_or}
use cortex_vm.Word.Int.{ℤ, pos, negsuc, ltb_ℤ}

-- 2 ^ 64, the number of values of a word.
abbrev pub word_mod : ℕ
word_mod = 0x1_0000_0000_0000_0000

-- 2 ^ 63, from which on a pattern is negative as an `int64_t`.
abbrev pub sign_bit : ℕ
sign_bit = 0x8000_0000_0000_0000

abbrev pub u64 : ℕ → ℕ
u64 n = n % word_mod

-- `a + b`, `a - b`, `a << s` and `a >> s` on `uint64_t`.
abbrev pub add64 : ℕ → ℕ → ℕ
add64 a b = (a + b) % word_mod

abbrev pub sub64 : ℕ → ℕ → ℕ
sub64 a b = (a + word_mod - b) % word_mod

abbrev pub shl64 : ℕ → ℕ → ℕ
shl64 a s = a * 2 ^ s % word_mod

abbrev pub shr : ℕ → ℕ → ℕ
shr a s = a / 2 ^ s

-- `a & (2 ^ k - 1)`.
abbrev pub low_bits : ℕ → ℕ → ℕ
low_bits a k = a % 2 ^ k

-- The cast to `int64_t`, and the cast back.
abbrev pub int64 : ℕ → ℤ
int64 w = if ltb w sign_bit then pos w else negsuc (word_mod - 1 - w)

abbrev pub from_int64 : ℤ → ℕ
from_int64 (pos n) = n % word_mod
from_int64 (negsuc n) = word_mod - 1 - n % word_mod

-- `z >> 64` on `__int128_t`: rounded down.
abbrev pub floor_shift64 : ℤ → ℤ
floor_shift64 (pos n) = pos (n / word_mod)
floor_shift64 (negsuc n) = negsuc (n / word_mod)

-- `(int64_t)a < (int64_t)b`.
abbrev pub lt_signed : ℕ → ℕ → Bool
lt_signed a b = ltb_ℤ (int64 a) (int64 b)

-- `(uint64_t)((int64_t)a >> s)`: a negative pattern is filled with ones from the left.
abbrev pub sar64 : ℕ → ℕ → ℕ
sar64 a s = if ltb a sign_bit then a / 2 ^ s else word_mod - 1 - (word_mod - 1 - a) / 2 ^ s

-- `SIGN_EXT32` and `SIGN_EXT36`, whose `int64_t` value the code keeps as a `uint64_t`.
abbrev pub sign_ext32 : ℕ → ℕ
sign_ext32 v = let w = v % 2 ^ 32 in if ltb w 0x8000_0000 then w else w + (word_mod - 0x1_0000_0000)

abbrev pub sign_ext36 : ℕ → ℕ
sign_ext36 v = if shr v 35 % 2 == 1 then bit_or v (word_mod - 0x10_0000_0000) else v
