-- ===== src/Assembler/WithData.antt =====
-- `assemble` of src/assembler.c on the text that `disassemble` of src/disassembler.c makes of a
-- binary with a data section.
use cortex_vm.Prelude.{
  ℕ, zero, suc, ◌+◌, ◌-◌, ◌*◌, ◌≤◌, ◌<◌, ◌≡◌, ltb, lt→ltb, refl, sym, ap, ◌∙◌, if◌then◌else◌, arith,
  List, [], ◌∷◌, ◌++◌, append_assoc, codes, length, length-append, ok, ◌>>=◌, bind_inversion,
}
use cortex_vm.Isa.Codes.{header_len, version}
use cortex_vm.Machine.{Fpu}
use cortex_vm.Header.{Header, header_parse}
use cortex_vm.Assembler.{skip_sep}
use cortex_vm.Assembler.Immediate.{FloatText}
use cortex_vm.Assembler.Program.{
  Output, append_words, empty_output, assemble_loop, data_section, statement, finish_statement,
  get_opcode_funct, get_section,
}
use cortex_vm.Assembler.Assemble.{patch_all, set_header, finish, assemble}
use cortex_vm.Assembler.DataLines.{Printable, line_rounds, data_lines-read}
use cortex_vm.Assembler.DataRounds.{line_rounds-length, data_lines-few}
use cortex_vm.Assembler.Listings.{HasText, ok_injective, rounds, code_lines-assembled}
use cortex_vm.Assembler.RoundTrip.{
  words_from, extensions_from, length-words_from, all_fields, replay-fields, found-main, rounds-add,
  rounds-bound, listing_of, validated,
}
use cortex_vm.Assembler.Strings.{slice}
use cortex_vm.Disassembler.Program.{
  disassemble, code_lines, code_end, data_lines, data_part, line_list_join,
}

-- The binary that the text of a binary with data stands for. `assemble` puts a word 0 behind it.
abbrev pub reassembled_data : (ℕ → ℕ) → List ℕ
reassembled_data buff =
    let d = buff 4 in
    let n = d - header_len in
    (0x2e3a_434f_5254_0000 + version)
    ∷ (buff 1 + 1)
    ∷ (if ltb (buff 2) (header_len + n) then buff 2 else header_len)
    ∷ extensions_from buff n header_len 0
    ∷ d
    ∷ (words_from buff n header_len ++ (slice buff (buff 1 - d) d ++ (0 ∷ [])))

-- The output after the data section.
abbrev with_data : List ℕ → Output → Output
with_data values out =
    append_words (0 ∷ []) (append_words values (record out { data_offset = length out.words }))

length-slice : (buff : ℕ → ℕ) (left k : ℕ) → length (slice buff left k) ≡ left
length-slice buff zero k = refl
length-slice buff (suc left) k = ap suc (length-slice buff left (suc k))

finish-data :
    (buff : ℕ → ℕ)
    → header_len ≤ buff 2
    → header_len ≤ buff 4
    → buff 4 ≤ buff 1
    → finish (
        with_data
          (slice buff (buff 1 - buff 4) (buff 4))
          (all_fields buff (buff 2) (buff 4 - header_len) header_len empty_output))
      ≡ ok (reassembled_data buff)
unfolding finish patch_all set_header
finish-data buff entry lo hi =
    let d = buff 4 in
    let n = d - header_len in
    let code = words_from buff n header_len in
    let values = slice buff (buff 1 - d) d in
    let code_count = length-words_from buff n header_len in
    let start : suc (suc (suc (suc (suc (length code))))) ≡ d = omega (arith, code_count) in
    let size : suc (suc (suc (suc (suc (length ((code ++ values) ++ (0 ∷ []))))))) ≡ buff 1 + 1 =
      omega (
        arith,
        code_count,
        length-append (code ++ values) (0 ∷ []),
        length-append code values,
        length-slice buff (buff 1 - d) d,
      ) in
    rw (size, start, append_assoc code values (0 ∷ []), found-main (buff 2) n header_len entry) refl

-- With a data section the listing is the lines of the code, ".data" and the lines of the data.
parts :
    (buff : ℕ → ℕ) (format_g : ℕ → List ℕ) (widen : ℕ → ℕ) (h : Header) (listing : List ℕ)
    → 0 < h.data_offset
    → listing_of buff format_g widen h ≡ ok listing
    → (lines values : List (List ℕ)) × (code_lines buff format_g widen h.offset
          (h.data_offset - header_len)
          header_len
        ≡ ok lines)
      × (data_lines buff (suc (h.file_length - h.data_offset)) h.file_length h.data_offset
          ≡ ok values)
      × (line_list_join (lines ++ (codes ".data\n" ∷ values)) ≡ listing)
unfolding data_part
parts buff format_g widen h listing some_data made =
    let d = h.data_offset in
    let test = lt→ltb 0 d some_data in
    let listed = data_lines buff (suc (h.file_length - d)) h.file_length d in
    let ends : code_end buff format_g widen h ≡ d = rw test refl in
    let data_listed : data_part buff format_g widen h
        ≡ (listed >>= λ lines. ok (codes ".data\n" ∷ lines)) =
      rw test refl in
    let print = λ (lines rest : List (List ℕ)). ok (line_list_join (lines ++ rest)) in
    let (lines, coded, others) =
      bind_inversion
        (code_lines buff format_g widen h.offset (code_end buff format_g widen h - header_len)
          header_len)
        (λ code. data_part buff format_g widen h >>= print code) made in
    let (rest, printed, joined) =
      bind_inversion (data_part buff format_g widen h) (print lines) others in
    let (values, value_lines, headed) =
      bind_inversion listed (λ lines. ok (codes ".data\n" ∷ lines)) (sym data_listed ∙ printed) in
    (
      lines,
      values,
      ap (λ e. code_lines buff format_g widen h.offset (e - header_len) header_len) (sym ends)
          ∙ coded,
      value_lines,
      ap (λ r. line_list_join (lines ++ r)) (ok_injective (codes ".data\n" ∷ values) rest headed)
          ∙ ok_injective (line_list_join (lines ++ rest)) listing joined,
    )

module _ (fpu : Fpu) (text : FloatText) where
  data_line-assembled :
      (f : ℕ) (t values : List ℕ) (out : Output)
      → data_section fpu text f t (record out { data_offset = length out.words })
        ≡ ok (append_words values (record out { data_offset = length out.words }))
      → assemble_loop fpu text (suc (suc f)) (codes ".data\n" ++ t) out ≡ ok (with_data values out)
  unfolding assemble_loop statement finish_statement get_opcode_funct get_section data_section
      skip_sep
  data_line-assembled f t values out read = rw read refl

  -- For a binary with a data section inside it, code words below 2 ^ 64 of other opcodes than
  -- OP_FI, and data words below 2 ^ 63 none of which is the code of a quote, and which
  -- `disassemble` lists, `assemble` returns from the listing, with fuel for two rounds for each
  -- word and five more, the code cut to the bits that its text shows, the data word for word, a
  -- word 0 that the binary did not have, and a header with that length, the same place of the data,
  -- the same entry point if it lies in the code and the extensions that the code needs.
  pub disassemble-assemble_data :
      (format_g : ℕ → List ℕ) (widen : ℕ → ℕ) (buff : ℕ → ℕ) (listing : List ℕ) (fuel : ℕ)
      → header_len ≤ buff 4
      → buff 4 ≤ buff 1
      → ((k : ℕ) → header_len ≤ k → k < buff 4 → HasText (buff k))
      → ((k : ℕ) → buff 4 ≤ k → k < buff 1 → Printable (buff k))
      → disassemble buff format_g widen ≡ ok listing
      → 2 * buff 1 + 5 ≤ fuel
      → assemble fpu text fuel listing ≡ ok (reassembled_data buff)
  unfolding assemble header_parse
  disassemble-assemble_data format_g widen buff listing fuel lo hi texts shown h enough =
      let (entry, made) = validated buff format_g widen listing h in
      let (lines, values, coded, value_lines, joined) =
        parts buff format_g widen (header_parse buff) listing (omega arith) made in
      let d = buff 4 in
      let n = d - header_len in
      let offset = buff 2 in
      let few = data_lines-few buff (buff 1) (suc (buff 1 - d)) d values value_lines in
      let spare = fuel - (rounds buff offset n header_len 0 + 2 * length values + 3) in
      let inner = line_rounds values spare in
      let taken : fuel ≡ rounds buff offset n header_len (suc (suc inner)) = omega (
        arith,
        (rounds-bound buff offset n header_len).0,
        line_rounds-length values spare,
        rounds-add buff offset n header_len (suc (suc inner)),
      ) in
      let out = all_fields buff offset n header_len empty_output in
      ap (λ f. assemble fpu text f listing) taken
      ∙ rw
          (
            sym joined,
            code_lines-assembled buff offset fpu text format_g widen n header_len (suc (suc inner))
                empty_output lines (codes ".data\n" ∷ values) refl
                (λ k klo khi. texts k klo (omega arith)) coded,
            replay-fields buff offset n header_len empty_output,
            data_line-assembled inner (line_list_join values) (slice buff (buff 1 - d) d) out (
                data_lines-read fpu text buff (buff 1) (suc (buff 1 - d)) d spare values hi shown
                  value_lines (record out { data_offset = length out.words })),
          )
          (finish-data buff entry lo hi)
