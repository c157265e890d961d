-- ===== src/Assembler/Listings.antt =====
-- `assemble` of src/assembler.c on the lines of code that `disassemble` of src/disassembler.c makes.
use cortex_vm.Prelude.{
  ℕ, zero, suc, ◌+◌, ◌≤◌, ◌<◌, ◌≡◌, ◌≢◌, ◌==◌, refl, sym, ap, ◌∙◌, Bool, true, false, if◌then◌else◌,
  arith, List, [], ◌∷◌, ◌++◌, codes, length, length-append, ok, ◌>>=◌, bind_inversion,
}
use cortex_vm.Word.{word_mod}
use cortex_vm.Isa.{opcode}
use cortex_vm.Isa.Codes.{op_fi}
use cortex_vm.Machine.{Fpu}
use cortex_vm.Assembler.{skip_sep}
use cortex_vm.Assembler.Immediate.{FloatText, skip_while, take_while}
use cortex_vm.Assembler.Labels.{Label}
use cortex_vm.Assembler.Program.{
  Output, assemble_loop, statement, finish_statement, get_opcode_funct,
}
use cortex_vm.Assembler.Formats.{assembled}
use cortex_vm.Assembler.Canonical.{shown, word_ext}
use cortex_vm.Assembler.Reassemble.{dis_word-assembled}
use cortex_vm.Disassembler.Append.{dis_word-MayPrint}
use cortex_vm.Disassembler.Listing.{dis_word}
use cortex_vm.Disassembler.Program.{line_list_join, label_line, code_lines}

abbrev pub main_label : (at : ℕ) → Label
main_label at = record { name = codes "main"; at = at }

pub ok_injective : {A : Type 0} (a b : A) → ok a ≡ ok b → a ≡ b
ok_injective a b h = cc

-- Words of 64 bits whose text has no float in it.
abbrev pub HasText : ℕ → Type 0
HasText w = (w < word_mod) × (opcode w ≢ op_fi)

-- The label `main` at the word `i`, if it stands there.
abbrev pub note_main : Bool → (i : ℕ) → Output → Output
note_main b i out = if b then record out { labels = out.labels ++ (main_label i ∷ []) } else out

length-note_main :
    (b : Bool) (i w : ℕ) (out : Output)
    → length out.words ≡ i
    → length ((note_main b i out).words ++ (w ∷ [])) ≡ suc i
length-note_main true i w out h = omega (arith, length-append out.words (w ∷ []))
length-note_main false i w out h = omega (arith, length-append out.words (w ∷ []))

module _ (buff : ℕ → ℕ) (offset : ℕ) where
  -- The rounds of `assemble` that the lines of the `left` words from `i` on take.
  abbrev pub rounds : (left i fuel : ℕ) → ℕ
  rounds zero i fuel = fuel
  rounds (suc left) i fuel =
      let more = suc (suc (rounds left (suc i) fuel)) in
      if i == offset then suc (suc more) else more

  -- What the lines of the `left` words from `i` on leave in the lists of `assemble`.
  abbrev pub replay : (left i : ℕ) → Output → Output
  replay zero i out = out
  replay (suc left) i out =
      replay left (suc i)
        (assembled (shown (buff i)) (word_ext (buff i)) (note_main (i == offset) i out))

  module _ (fpu : Fpu) (text : FloatText) (format_g : ℕ → List ℕ) (widen : ℕ → ℕ) where
    main_line-assembled :
        (b : Bool) (fuel i : ℕ) (lines more : List (List ℕ)) (out : Output)
        → length out.words ≡ i
        → assemble_loop fpu text
            (if b then suc (suc fuel) else fuel)
            (line_list_join ((if b then codes "main:\n" ∷ lines else lines) ++ more))
            out
          ≡ assemble_loop fpu text fuel (line_list_join (lines ++ more)) (note_main b i out)
    unfolding assemble_loop statement finish_statement get_opcode_funct skip_sep take_while
        skip_while
    main_line-assembled true fuel i lines more out h =
        ap
          (λ at.
            assemble_loop fpu text fuel (line_list_join (lines ++ more)) (note_main true at out))
          h
    main_line-assembled false fuel i lines more out h = refl

    -- The lines of the code, with others behind them.
    pub code_lines-assembled :
        (left i fuel : ℕ) (out : Output) (lines more : List (List ℕ))
        → length out.words ≡ i
        → ((k : ℕ) → i ≤ k → k < i + left → HasText (buff k))
        → code_lines buff format_g widen offset left i ≡ ok lines
        → assemble_loop fpu text (rounds left i fuel) (line_list_join (lines ++ more)) out
          ≡ assemble_loop fpu text fuel (line_list_join more) (replay left i out)
    unfolding code_lines
    code_lines-assembled zero i fuel out lines more at texts listed =
        ap (λ l. assemble_loop fpu text fuel (line_list_join (l ++ more)) out)
          (ok_injective lines [] (sym listed))
    code_lines-assembled (suc left) i fuel out lines more at texts listed =
        let (line, printed, others) =
          bind_inversion (dis_word format_g widen (buff i) [])
            (λ line. code_lines buff format_g widen offset left (suc i) >>= λ lines.
              ok (label_line offset i (line ∷ lines)))
            listed in
        let (lines', listed', listing) =
          bind_inversion (code_lines buff format_g widen offset left (suc i))
            (λ lines. ok (label_line offset i (line ∷ lines))) others in
        let noted = note_main (i == offset) i out in
        let fuel' = rounds left (suc i) fuel in
        let w = buff i in
        let rest = line_list_join (lines' ++ more) in
        let (small, no_float) = texts i (omega arith) (omega arith) in
        ap (λ l. assemble_loop fpu text (rounds (suc left) i fuel) (line_list_join (l ++ more)) out)
          (ok_injective lines (label_line offset i (line ∷ lines')) (sym listing))
        ∙ main_line-assembled (i == offset) (suc (suc fuel')) i (line ∷ lines') more out at
        ∙ dis_word-assembled fpu text format_g widen w fuel' rest (line ++ rest) noted small
            no_float (dis_word-MayPrint format_g widen w rest line printed)
        ∙ code_lines-assembled left (suc i) fuel (assembled (shown w) (word_ext w) noted) lines'
            more (length-note_main (i == offset) i (shown w) out at)
            (λ k lo hi. texts k (omega arith) (omega arith)) listed'
