-- ===== src/Assembler/Assemble.antt =====
-- `assemble` of src/assembler.c: the loop over the source, the labels that are patched into the
-- words, and the header.
use cortex_vm.Prelude.{
  ℕ, ◌==◌, ◌||◌, if◌then◌else◌, bit_or, Option, none, some, List, [], ◌∷◌, codes, length, get_elem?,
  set, Result, ok, fatal, ◌>>=◌,
}
use cortex_vm.Word.{sub64}
use cortex_vm.Isa.{opcode}
use cortex_vm.Isa.Codes.{op_i, op_mi, op_fi, op_s, op_l, op_b, op_fb, header_len}
use cortex_vm.Isa.Encode.{encode_i_imm, encode_s_imm, encode_l_imm, encode_b_imm}
use cortex_vm.Machine.{Fpu}
use cortex_vm.Assembler.Immediate.{FloatText}
use cortex_vm.Assembler.Labels.{Label, label_list_find}
use cortex_vm.Assembler.Program.{Output, empty_output, assemble_loop}

-- `word |= ...`: an absolute address counts from the end of the header, a branch from its own word.
unfoldable pub patch_word : (word at target : ℕ) → Result ℕ
patch_word word at target =
    let op = opcode word in
    if op == op_fi || op == op_mi || op == op_i
    then ok (bit_or word (encode_i_imm (sub64 target header_len)))
    else if op == op_s
    then ok (bit_or word (encode_s_imm (sub64 target header_len)))
    else if op == op_l
    then ok (bit_or word (encode_l_imm (sub64 target header_len)))
    else if op == op_fb || op == op_b
    then ok (bit_or word (encode_b_imm (sub64 target at)))
    else fatal 0x030b

-- `listGet`
unfoldable pub list_get : List ℕ → ℕ → Result ℕ
list_get words i = elim (get_elem? words i) [ none ↦ fatal 0x0409 | some w ↦ ok w ]

-- `listSet`
unfoldable pub list_set : List ℕ → (i v : ℕ) → Result (List ℕ)
list_set words i v = elim (get_elem? words i) [ none ↦ fatal 0x0405 | some w ↦ ok (set words i v) ]

-- One patch, to the label that is found for it.
unfoldable pub patch_at : (at : ℕ) → Option Label → List ℕ → Result (List ℕ)
unfolding patch_word list_get list_set
patch_at at none words = fatal 0x030c
patch_at at (some r) words =
    list_get words at >>= λ w. patch_word w at r.at >>= λ v. list_set words at v

unfoldable pub patch_all : (labels patches : List Label) → List ℕ → Result (List ℕ)
patch_all labels [] words = ok words
patch_all labels (p ∷ ps) words =
    patch_at p.at (label_list_find labels p.name) words >>= patch_all labels ps

-- The entry point: the first word, if there is no label `main`.
unfoldable pub entry_point : Option Label → ℕ
entry_point none = header_len
entry_point (some l) = l.at

-- `listSet` of the words 1 to 4; the list has the header from the start.
unfoldable pub set_header : Output → List ℕ → List ℕ
set_header out words =
    set
      (set
        (set (set words 1 (length words)) 2
          (entry_point (label_list_find out.labels (codes "main"))))
        3 out.extensions)
      4 out.data_offset

unfoldable pub finish : Output → Result (List ℕ)
unfolding set_header
finish out = patch_all out.labels out.patches out.words >>= λ words. ok (set_header out words)

unfoldable pub assemble : Fpu → FloatText → (fuel : ℕ) → (source : List ℕ) → Result (List ℕ)
unfolding finish
assemble fpu text fuel source = assemble_loop fpu text fuel source empty_output >>= finish
