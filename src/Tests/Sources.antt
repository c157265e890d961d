-- ===== src/Tests/Sources.antt =====
-- Source text that is assembled.
use cortex_vm.Prelude.{◌∷◌, [], ◌≡◌, refl, ok}
use cortex_vm.Assembler.{get_reg, numbered_reg, cmp_chars, parse_reg_num}

get_reg-a3 : get_reg (b'a' ∷ b'3' ∷ b',' ∷ []) ≡ ok (21, b',' ∷ [])
unfolding get_reg numbered_reg cmp_chars parse_reg_num
get_reg-a3 = refl
