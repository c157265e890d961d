-- ===== src/Assembler/Program.antt =====
-- `getOpcodeFunct`, but for the names, and `assemble` of src/assembler.c. The lists of the assembler
-- are lists here; what is written to a file is the result. The loops run on fuel.
use cortex_vm.Prelude.{
  ℕ, zero, suc, ◌+◌, ◌==◌, not, if◌then◌else◌, bit_or, Option, none, some, List, [], ◌∷◌, ◌++◌,
  codes, length, Result, ok, fatal, diverged, ◌>>=◌,
}
use cortex_vm.Isa.Codes.{op_label, op_data, version}
use cortex_vm.Machine.{Fpu}
use cortex_vm.Assembler.{skip_sep, cmp_chars, skip_chars}
use cortex_vm.Assembler.Names.{Code, plain}
use cortex_vm.Assembler.Names.Extensions.{get_name}
use cortex_vm.Assembler.Immediate.{FloatText, peek, skip_while, take_while, is_label_char}
use cortex_vm.Assembler.Labels.{Label}
use cortex_vm.Assembler.Operands.{assemble_word}
use cortex_vm.Assembler.Data.{get_data}

-- `list`, `labelsRegistry`, `labelsPatches`, `extensions` and `dataOffset`.
pub record Output : Type 0 where
  pub words : List ℕ
  pub labels : List Label
  pub patches : List Label
  pub extensions : ℕ
  pub data_offset : ℕ

-- `labelListAppend(labelsPatches, ...)`, if there is a label.
abbrev pub note_patch : Option (List ℕ) → (at : ℕ) → Output → Output
note_patch none at out = out
note_patch (some name) at out = record out {
  patches = out.patches ++ (record { name = name; at = at } ∷ []);
}

-- `labelListAppend(labelsRegistry, head, peek, list->len)`
abbrev pub note_label : (head : List ℕ) → Output → Output
note_label head out = record out {
  labels =
      out.labels ++ (record { name = take_while is_label_char head; at = length out.words } ∷ []);
}

abbrev pub append_words : List ℕ → Output → Output
append_words ws out = record out { words = out.words ++ ws }

-- `skipComments`, from the ';' on.
abbrev pub skip_comment : List ℕ → List ℕ
skip_comment = skip_while (λ c. not (c == 10))

-- Whether a label stands here, and what is behind its colon.
abbrev pub after_label : List ℕ → Option (List ℕ)
after_label head = colon (skip_while is_label_char head)
  where
    colon : List ℕ → Option (List ℕ)
    colon [] = none
    colon (c ∷ rest) = if c == b':' then some rest else none

-- The lists at the start: the header's words, of which all but the first are set at the end.
abbrev pub empty_output : Output
empty_output = record {
  words = (0x2e3a_434f_5254_0000 + version) ∷ 0 ∷ 0 ∷ 0 ∷ 0 ∷ [];
  labels = [];
  patches = [];
  extensions = 0;
  data_offset = 0;
}

module _ (fpu : Fpu) (text : FloatText) where
  -- The loop over the `.data` section, to the end of the file.
  unfoldable pub data_section : (fuel : ℕ) → List ℕ → Output → Result Output
  data_section zero head out = diverged
  data_section (suc fuel) [] out = ok out
  data_section (suc fuel) (c ∷ head) out =
      let here = skip_sep (c ∷ head) in
      let next_line = data_section fuel head out in
      let next_comment = data_section fuel (skip_comment here) out in
      let next_data = get_data fpu text here >>= λ d.
      data_section fuel d.rest (append_words d.values (note_patch d.label 0 out)) in
      if c == 10
      then next_line
      else if peek here == b';'
      then next_comment
      else elim (after_label here) [
        | some rest ↦ data_section fuel rest (note_label here out)
        | none ↦ next_data
      ]

  -- `getOpcodeFunct` on a '.'.
  unfoldable pub get_section : (fuel : ℕ) → List ℕ → Output → Result ((Code × List ℕ) × Output)
  unfolding data_section cmp_chars
  get_section fuel head out =
      if cmp_chars head (codes "data")
      then (data_section fuel (skip_sep (skip_chars 4 head))
            (record out { data_offset = length out.words })
          >>= λ out'. ok ((plain op_data 0, []), out'))
      else fatal 0x030d

  unfoldable pub get_instruction : List ℕ → Output → Result ((Code × List ℕ) × Output)
  unfolding get_name
  get_instruction head out = get_name head >>= λ (code, rest).
      ok ((code, rest), record out { extensions = bit_or out.extensions code.ext })

  unfoldable pub get_opcode_funct : (fuel : ℕ) → List ℕ → Output → Result ((Code × List ℕ) × Output)
  unfolding get_section
  get_opcode_funct fuel [] out = get_instruction [] out
  get_opcode_funct fuel (c ∷ head) out =
      if c == b'.'
      then get_section fuel head out
      else if c == b';'
      then ok ((plain op_label 0, skip_comment (c ∷ head)), out)
      else elim (after_label (c ∷ head)) [
        | some rest ↦ ok ((plain op_label 0, rest), note_label (c ∷ head) out)
        | none ↦ get_instruction (c ∷ head) out
      ]

  -- The word of a statement, the label that it waits for, and the rest of the source.
  unfoldable pub finish_statement : (code : Code) → List ℕ → Output → Result (List ℕ × Output)
  finish_statement code head out =
      if code.op == op_label
      then ok (head, out)
      else if code.op == op_data
      then ok (head, append_words (0 ∷ []) out)
      else (assemble_word fpu text code head >>= λ s.
          ok (s.rest, append_words (s.word ∷ []) (note_patch s.label (length out.words) out)))

  -- One round of the loop of `assemble`, at a character that is no line end.
  unfoldable pub statement : (fuel : ℕ) → List ℕ → Output → Result (List ℕ × Output)
  statement fuel head out = get_opcode_funct fuel head out >>= λ ((code, rest), out').
      finish_statement code (skip_sep rest) out'

  unfoldable pub assemble_loop : (fuel : ℕ) → List ℕ → Output → Result Output
  assemble_loop zero head out = diverged
  assemble_loop (suc fuel) [] out = ok out
  assemble_loop (suc fuel) (c ∷ head) out =
      let here = skip_sep (c ∷ head) in
      let next_line = assemble_loop fuel (skip_chars 1 here) out in
      let next_statement =
        statement fuel here out >>= λ (rest, out'). assemble_loop fuel rest out' in
      if peek here == 10 then next_line else next_statement
