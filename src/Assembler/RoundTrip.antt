-- ===== src/Assembler/RoundTrip.antt =====
-- `assemble` of src/assembler.c on the whole text that `disassemble` of src/disassembler.c makes.
use cortex_vm.Prelude.{
  ℕ, Result, zero, suc, ◌+◌, ◌-◌, ◌*◌, ◌≤◌, ◌<◌, ◌≡◌, ◌==◌, ltb, refl, sym, ap, ◌∙◌, Bool, true,
  false, if◌then◌else◌, arith, List, [], ◌∷◌, ◌++◌, append_assoc, append-nil, codes, length, bit_or,
  ok, ◌>>=◌, bind_inversion,
}
use cortex_vm.Isa.Codes.{header_len, version}
use cortex_vm.Machine.{Fpu}
use cortex_vm.Header.{Header, header_parse, header_validate}
use cortex_vm.Header.Accepted.{validate-parse, parse-IsBinary}
use cortex_vm.Assembler.Immediate.{FloatText}
use cortex_vm.Assembler.Labels.{Label, same_name, label_list_find}
use cortex_vm.Assembler.Program.{Output, empty_output, assemble_loop}
use cortex_vm.Assembler.Assemble.{patch_all, set_header, entry_point, finish, assemble}
use cortex_vm.Assembler.Canonical.{shown, word_ext}
use cortex_vm.Assembler.Formats.{assembled}
use cortex_vm.Assembler.Listings.{
  ok_injective, HasText, main_label, note_main, rounds, replay, code_lines-assembled,
}
use cortex_vm.Disassembler.Program.{disassemble, code_lines, line_list_join, data_part, code_end}

module _ (buff : ℕ → ℕ) where
  -- The words that the text of the `left` words from `i` on stands for, and their extensions.
  abbrev pub words_from : (left i : ℕ) → List ℕ
  words_from zero i = []
  words_from (suc left) i = shown (buff i) ∷ words_from left (suc i)

  abbrev pub extensions_from : (left i ext : ℕ) → ℕ
  extensions_from zero i ext = ext
  extensions_from (suc left) i ext = extensions_from left (suc i) (bit_or ext (word_ext (buff i)))

  pub length-words_from : (left i : ℕ) → length (words_from left i) ≡ left
  length-words_from zero i = refl
  length-words_from (suc left) i = ap suc (length-words_from left (suc i))

-- The label `main`, if the entry point is one of `left` words from `i` on.
abbrev pub labels_from : (offset left i : ℕ) → List Label
labels_from offset zero i = []
labels_from offset (suc left) i =
    if i == offset
    then main_label i ∷ labels_from offset left (suc i)
    else labels_from offset left (suc i)

abbrev pub all_fields : (buff : ℕ → ℕ) (offset left i : ℕ) → Output → Output
all_fields buff offset left i out = record out {
  words = out.words ++ words_from buff left i;
  labels = out.labels ++ labels_from offset left i;
  extensions = extensions_from buff left i out.extensions;
}

word-fields :
    (buff : ℕ → ℕ) (offset left i : ℕ) (b : Bool) (out : Output)
    → all_fields buff offset left
        (suc i)
        (assembled (shown (buff i)) (word_ext (buff i)) (note_main b i out))
      ≡ record out {
        words = out.words ++ words_from buff (suc left) i;
        labels =
            out.labels
            ++ (if b
                then main_label i ∷ labels_from offset left (suc i)
                else labels_from offset left (suc i));
        extensions = extensions_from buff (suc left) i out.extensions;
      }
word-fields buff offset left i true out =
    rw
      (
        append_assoc out.words (shown (buff i) ∷ []) (words_from buff left (suc i)),
        append_assoc out.labels (main_label i ∷ []) (labels_from offset left (suc i)),
      )
      refl
word-fields buff offset left i false out =
    rw (append_assoc out.words (shown (buff i) ∷ []) (words_from buff left (suc i))) refl

pub replay-fields :
    (buff : ℕ → ℕ) (offset left i : ℕ) (out : Output)
    → replay buff offset left i out ≡ all_fields buff offset left i out
replay-fields buff offset zero i out = rw (append-nil out.words, append-nil out.labels) refl
replay-fields buff offset (suc left) i out =
    replay-fields buff offset left (suc i)
      (assembled (shown (buff i)) (word_ext (buff i)) (note_main (i == offset) i out))
    ∙ word-fields buff offset left i (i == offset) out

-- The label is found where it is.
found-first :
    (i : ℕ) (ls : List Label) → entry_point (label_list_find (main_label i ∷ ls) (codes "main")) ≡ i
unfolding entry_point label_list_find same_name
found-first i ls = refl

pub found-main :
    (offset left i : ℕ)
    → i ≤ offset
    → entry_point (label_list_find (labels_from offset left i) (codes "main"))
      ≡ (if ltb offset (i + left) then offset else header_len)
unfolding entry_point label_list_find
found-main offset zero i lo = ground arith
found-main offset (suc left) i lo =
    ground (arith, found-first i (labels_from offset left (suc i)), found-main offset left (suc i))

pub rounds-add :
    (buff : ℕ → ℕ) (offset left i fuel : ℕ)
    → rounds buff offset left i fuel ≡ rounds buff offset left i 0 + fuel
rounds-add buff offset zero i fuel = omega arith
rounds-add buff offset (suc left) i fuel = ground (arith, rounds-add buff offset left (suc i) fuel)

-- Two rounds for each line.
pub rounds-bound :
    (buff : ℕ → ℕ) (offset left i : ℕ)
    → (rounds buff offset left i 0 ≤ 2 * left + 2)
      × (offset < i → rounds buff offset left i 0 ≡ 2 * left)
rounds-bound buff offset zero i = (omega arith, λ h. refl)
rounds-bound buff offset (suc left) i =
    let (bound, outside) = rounds-bound buff offset left (suc i) in ground arith

-- The binary that the text of a binary of code stands for.
abbrev pub reassembled : (ℕ → ℕ) → List ℕ
reassembled buff =
    let n = buff 1 - header_len in
    (0x2e3a_434f_5254_0000 + version)
    ∷ (header_len + n)
    ∷ (if ltb (buff 2) (header_len + n) then buff 2 else header_len)
    ∷ extensions_from buff n header_len 0
    ∷ 0
    ∷ words_from buff n header_len

five : (n : ℕ) → suc (suc (suc (suc (suc n)))) ≡ header_len + n
five n = omega arith

pub assemble_loop-end :
    (fpu : Fpu) (text : FloatText) (fuel : ℕ) (out : Output)
    → assemble_loop fpu text (suc fuel) [] out ≡ ok out
unfolding assemble_loop
assemble_loop-end fpu text fuel out = refl

finish-fields :
    (buff : ℕ → ℕ)
    → header_len ≤ buff 2
    → finish (all_fields buff (buff 2) (buff 1 - header_len) header_len empty_output)
      ≡ ok (reassembled buff)
unfolding finish patch_all set_header
finish-fields buff entry =
    rw
      (
        length-words_from buff (buff 1 - header_len) header_len,
        five (buff 1 - header_len),
        found-main (buff 2) (buff 1 - header_len) header_len entry,
      )
      refl

-- Without a data section the listing is the lines of the code.
after_header :
    (buff : ℕ → ℕ) (format_g : ℕ → List ℕ) (widen : ℕ → ℕ) (h : Header) (listing : List ℕ)
    → h.data_offset ≡ 0
    → (code_lines buff format_g widen h.offset
          (code_end buff format_g widen h - header_len)
          header_len
        >>= λ code. data_part buff format_g widen h >>= λ rest. ok (line_list_join (code ++ rest)))
      ≡ ok listing
    → (lines : List (List ℕ)) × (code_lines buff format_g widen h.offset
          (h.file_length - header_len)
          header_len
        ≡ ok lines)
      × (line_list_join lines ≡ listing)
unfolding data_part
after_header buff format_g widen h listing no_data made =
    let print = λ (code rest : List (List ℕ)). ok (line_list_join (code ++ rest)) in
    let whole : (data_part buff format_g widen h ≡ ok [])
        × (code_end buff format_g widen h ≡ h.file_length) =
      (rw no_data refl, rw no_data refl) in
    let (lines, coded, joined) =
      bind_inversion
        (code_lines buff format_g widen h.offset (code_end buff format_g widen h - header_len)
          header_len)
        (λ code. data_part buff format_g widen h >>= print code) made in
    (
      lines,
      ap (λ e. code_lines buff format_g widen h.offset (e - header_len) header_len) (sym whole.1)
          ∙ coded,
      ok_injective (line_list_join lines) listing (
          ap (λ l. ok (line_list_join l)) (sym (append-nil lines))
          ∙ ap (λ r. r >>= print lines) (sym whole.0)
          ∙ joined),
    )

-- What `disassemble` does behind the header's test.
abbrev pub listing_of :
    (buff : ℕ → ℕ) (format_g : ℕ → List ℕ) (widen : ℕ → ℕ) → Header → Result (List ℕ)
listing_of buff format_g widen h =
    code_lines buff format_g widen h.offset (code_end buff format_g widen h - header_len) header_len
    >>= λ code. data_part buff format_g widen h >>= λ rest. ok (line_list_join (code ++ rest))

-- What was disassembled passed the test.
pub validated :
    (buff : ℕ → ℕ) (format_g : ℕ → List ℕ) (widen : ℕ → ℕ) (listing : List ℕ)
    → disassemble buff format_g widen ≡ ok listing
    → (header_len ≤ buff 2) × (listing_of buff format_g widen (header_parse buff) ≡ ok listing)
unfolding disassemble header_parse
validated buff format_g widen listing h =
    let (read, passed, made) =
      bind_inversion (header_validate (buff 1) (header_parse buff)) (listing_of buff format_g widen)
        h in
    let binary = parse-IsBinary (buff 1) buff read passed in
    (
      binary.entry_lower,
      ap (λ r. r >>= listing_of buff format_g widen) (sym (validate-parse (buff 1) buff binary))
          ∙ h,
    )

-- For a binary without a data section whose code words are below 2 ^ 64 and none of them of opcode
-- OP_FI, and which `disassemble` lists, `assemble` returns from the listing, with fuel for two
-- rounds for each word and three more, a binary of the same length with the same words, cut to the
-- bits that their text shows, the same entry point if it lies in the code, the extensions that the
-- words need and no data section.
pub disassemble-assemble :
    (fpu : Fpu) (text : FloatText) (format_g : ℕ → List ℕ) (widen : ℕ → ℕ) (buff : ℕ → ℕ)
    (listing : List ℕ) (fuel : ℕ)
    → buff 4 ≡ 0
    → ((k : ℕ) → header_len ≤ k → k < buff 1 → HasText (buff k))
    → disassemble buff format_g widen ≡ ok listing
    → 2 * buff 1 + 3 ≤ fuel
    → assemble fpu text fuel listing ≡ ok (reassembled buff)
unfolding assemble header_parse
disassemble-assemble fpu text format_g widen buff listing fuel no_data texts h enough =
    let (entry, made) = validated buff format_g widen listing h in
    let (lines, coded, joined) =
      after_header buff format_g widen (header_parse buff) listing no_data made in
    let n = buff 1 - header_len in
    let offset = buff 2 in
    let spare = fuel - suc (rounds buff offset n header_len 0) in
    let bound = (rounds-bound buff offset n header_len).0 in
    let taken : fuel ≡ rounds buff offset n header_len (suc spare) =
      omega (arith, rounds-add buff offset n header_len (suc spare)) in
    let looped =
      ap
        (λ l.
          assemble_loop fpu text (rounds buff offset n header_len (suc spare)) (line_list_join l)
            empty_output)
        (sym (append-nil lines))
      ∙ code_lines-assembled buff offset fpu text format_g widen n header_len (suc spare)
          empty_output lines [] refl (λ k lo hi. texts k lo (omega arith)) coded in
    let out = replay buff offset n header_len empty_output in
    rw
      (
        taken,
        sym joined,
        looped,
        assemble_loop-end fpu text spare out,
        replay-fields buff offset n header_len empty_output,
      )
      (finish-fields buff entry)
