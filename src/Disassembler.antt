-- ===== src/Disassembler.antt =====
-- The operands that `disOpR` and `disOpMR` of src/disassembler.c print.
pub mod Mnemonics
pub mod Lines
pub mod Floats
pub mod Listing
pub mod Program
pub mod Append
pub mod Ends
use cortex_vm.Prelude.{ℕ, ◌+◌, ◌/◌, ◌%◌, ltb, if◌then◌else◌, List, [], ◌∷◌}
use cortex_vm.Isa.{i_ra, i_rd, i_rb}

-- `%d` of a number below 100, before what follows it.
unfoldable pub decimal : ℕ → List ℕ → List ℕ
decimal n rest = if ltb n 10 then (b'0' + n) ∷ rest else (b'0' + n / 10) ∷ (b'0' + n % 10) ∷ rest

-- " r%d, r%d, r%d\n"
unfoldable pub operands_r : ℕ → List ℕ
unfolding decimal
operands_r w =
    b' '
    ∷ b'r'
    ∷ decimal (i_rd w)
        (b',' ∷ b' ' ∷ b'r' ∷ decimal (i_ra w) (b',' ∷ b' ' ∷ b'r' ∷ decimal (i_rb w) (10 ∷ [])))
