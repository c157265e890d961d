-- ===== src/Assembler/Names.antt =====
-- The `switch` of `getOpcodeFunct` in src/assembler.c: the names of the instructions, letter by
-- letter. Each function has the case of one letter and starts behind it.
pub mod Extensions
pub mod Extended
use cortex_vm.Prelude.{
  ℕ, ◌+◌, ◌==◌, ◌||◌, if◌then◌else◌, Bool, false, List, [], ◌∷◌, codes, length, Result, ok, fatal,
}
use cortex_vm.Isa.Codes.{
  fn_addsub, fn_and, fn_beq, fn_bge, fn_bgeu, fn_bgt, fn_bgtu, fn_ble, fn_bleu, fn_blt, fn_bltu,
  fn_bne, fn_break, fn_halt, fn_jmp, fn_lw, fn_nop, fn_or, fn_seq, fn_sll, fn_slt, fn_sltu, fn_sr,
  fn_sw, fn_syscall, fn_xor, op_b, op_i, op_l, op_r, op_s, op_sys,
}
use cortex_vm.Assembler.{cmp_chars, skip_chars}

-- What `getOpcodeFunct` writes through its pointers; `ext` is or-ed into the extensions.
pub record Code : Type 0 where
  pub op : ℕ
  pub fn : ℕ
  pub fl : ℕ
  pub ext : ℕ

abbrev pub plain : (op fn : ℕ) → Code
plain op fn = record { op = op; fn = fn; fl = 0; ext = 0 }

abbrev pub flagged : (op fn : ℕ) → Code
flagged op fn = record { op = op; fn = fn; fl = 1; ext = 0 }

-- A code with the source behind its name.
abbrev pub Named : Type 0
Named = Result (Code × List ℕ)

-- `OP_FAILURE`
abbrev pub op_failure : Named
op_failure = fatal 0x0301

-- `if(cmpChars(head, text, len)){ head += len; ... } else ...`
unfoldable pub named : (head text : List ℕ) → Code → Named → Named
unfolding cmp_chars
named head text code other =
    if cmp_chars head text then ok (code, skip_chars (length text) head) else other

-- `case` of a letter, given in lower case.
abbrev pub is_letter : (lower c : ℕ) → Bool
is_letter lower c = c + 32 == lower || c == lower

unfoldable pub name_a : List ℕ → Named
unfolding named
name_a [] = op_failure
name_a (c ∷ head) =
    if is_letter b'd' c
    then (named head (codes "di") (plain op_i fn_addsub)
        (named head (codes "d") (plain op_r fn_addsub) op_failure))
    else if is_letter b'n' c
    then (named head (codes "di") (plain op_i fn_and)
        (named head (codes "d") (plain op_r fn_and) op_failure))
    else op_failure

unfoldable pub name_o : List ℕ → Named
unfolding named
name_o head =
    named head (codes "ri") (plain op_i fn_or)
      (named head (codes "r") (plain op_r fn_or) op_failure)

unfoldable pub name_x : List ℕ → Named
unfolding named
name_x head =
    named head (codes "ori") (plain op_i fn_xor)
      (named head (codes "or") (plain op_r fn_xor) op_failure)

-- Behind `sr`, where the letter itself is still to be compared.
unfoldable pub name_sr : List ℕ → Named
unfolding named
name_sr [] = op_failure
name_sr (c ∷ head) =
    if is_letter b'l' c
    then (named (c ∷ head) (codes "li") (plain op_i fn_sr)
        (named (c ∷ head) (codes "l") (plain op_r fn_sr) op_failure))
    else if is_letter b'a' c
    then (named (c ∷ head) (codes "ai") (flagged op_i fn_sr)
        (named (c ∷ head) (codes "a") (flagged op_r fn_sr) op_failure))
    else op_failure

unfoldable pub name_s : List ℕ → Named
unfolding named name_sr
name_s [] = op_failure
name_s (c ∷ head) =
    if is_letter b'u' c
    then (named head (codes "bi") (flagged op_i fn_addsub)
        (named head (codes "b") (flagged op_r fn_addsub) op_failure))
    else if is_letter b'l' c
    then (named head (codes "li") (plain op_i fn_sll) (
        named head (codes "l") (plain op_r fn_sll) (
          named head (codes "tu") (plain op_r fn_sltu)
            (named head (codes "t") (plain op_r fn_slt) op_failure))))
    else if is_letter b'r' c
    then (name_sr head)
    else if is_letter b'w' c
    then (ok (plain op_s fn_sw, head))
    else if is_letter b'y' c
    then (named head (codes "scall") (plain op_sys fn_syscall) op_failure)
    else if is_letter b'e' c
    then (named head (codes "q") (plain op_r fn_seq) op_failure)
    else op_failure

unfoldable pub name_j : List ℕ → Named
unfolding named
name_j head = named head (codes "mp") (plain op_i fn_jmp) op_failure

unfoldable pub name_l : List ℕ → Named
unfolding named
name_l head = named head (codes "w") (plain op_l fn_lw) op_failure

unfoldable pub name_b : List ℕ → Named
unfolding named
name_b [] = op_failure
name_b (c ∷ head) =
    if is_letter b'r' c
    then (named head (codes "eak") (plain op_sys fn_break) op_failure)
    else if is_letter b'e' c
    then (named head (codes "q") (plain op_b fn_beq) op_failure)
    else if is_letter b'n' c
    then (named head (codes "e") (plain op_b fn_bne) op_failure)
    else if is_letter b'l' c
    then (named head (codes "tu") (plain op_b fn_bltu) (
        named head (codes "t") (plain op_b fn_blt) (
          named head (codes "eu") (plain op_b fn_bleu)
            (named head (codes "e") (plain op_b fn_ble) op_failure))))
    else if is_letter b'g' c
    then (named head (codes "tu") (plain op_b fn_bgtu) (
        named head (codes "t") (plain op_b fn_bgt) (
          named head (codes "eu") (plain op_b fn_bgeu)
            (named head (codes "e") (plain op_b fn_bge) op_failure))))
    else op_failure

unfoldable pub name_h : List ℕ → Named
unfolding named
name_h head = named head (codes "alt") (plain op_sys fn_halt) op_failure

unfoldable pub name_n : List ℕ → Named
unfolding named
name_n head = named head (codes "op") (plain op_sys fn_nop) op_failure
