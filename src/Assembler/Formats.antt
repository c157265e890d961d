-- ===== src/Assembler/Formats.antt =====
-- Rounds of `assemble` on lines as the disassembler prints them, format by format.
use cortex_vm.Prelude.{
  ℕ, suc, ◌<◌, ◌≡◌, ◌≢◌, refl, ◌∙◌, none, List, [], ◌∷◌, bit_or, false, Result, ok, ◌>>=◌, length,
}
use cortex_vm.Word.{word_mod, sign_bit}
use cortex_vm.Isa.Encode.{encode_r}
use cortex_vm.Machine.{Fpu}
use cortex_vm.Assembler.{is_digit, skip_sep, assemble_r}
use cortex_vm.Assembler.Registers.{get_reg-decimal, skip_sep-comma, skip_sep-r}
use cortex_vm.Assembler.Immediate.{FloatText}
use cortex_vm.Assembler.Operands.{Statement, two_regs, with_imm}
use cortex_vm.Assembler.Program.{Output, note_patch, append_words, finish_statement, assemble_loop}
use cortex_vm.Assembler.Numbers.{get_imm-signed_decimal, skip_sep-signed_decimal}
use cortex_vm.Assembler.Reads.{coded, Reads}
use cortex_vm.Disassembler.{decimal}
use cortex_vm.Disassembler.Lines.{signed_decimal, two_operands, line_rrr, line_rri}

-- A statement of one word that has no label.
abbrev pub assembled : (w ext : ℕ) → Output → Output
assembled w ext out = append_words (w ∷ []) (record out { extensions = bit_or out.extensions ext })

two_regs-decimal :
    (a b c : ℕ) (rest : List ℕ)
    → a < 64
    → b < 64
    → is_digit c ≡ false
    → two_regs (b'r' ∷ decimal a (b',' ∷ b' ' ∷ b'r' ∷ decimal b (c ∷ rest)))
      ≡ ok ((a, b), c ∷ rest)
unfolding two_regs
two_regs-decimal a b c rest ha hb hc =
    let behind = b' ' ∷ b'r' ∷ decimal b (c ∷ rest) in
    rw
      (
        get_reg-decimal a b',' behind ha refl,
        skip_sep-comma (decimal b (c ∷ rest)),
        get_reg-decimal b c rest hb hc,
      )
      refl

assemble_r-decimal :
    (op fn fl rd ra rb : ℕ) (rest : List ℕ)
    → rd < 64
    → ra < 64
    → rb < 64
    → assemble_r op fn fl (
        b'r'
        ∷ decimal rd
            (b',' ∷ b' ' ∷ b'r' ∷ decimal ra (b',' ∷ b' ' ∷ b'r' ∷ decimal rb (10 ∷ rest))))
      ≡ ok (encode_r op fn ra rd rb fl, 10 ∷ rest)
unfolding assemble_r
assemble_r-decimal op fn fl rd ra rb rest hrd hra hrb =
    let after_ra = b' ' ∷ b'r' ∷ decimal rb (10 ∷ rest) in
    let after_rd = b' ' ∷ b'r' ∷ decimal ra (b',' ∷ after_ra) in
    rw
      (
        skip_sep-r (decimal rd (b',' ∷ after_rd)),
        get_reg-decimal rd b',' after_rd hrd refl,
        skip_sep-comma (decimal ra (b',' ∷ after_ra)),
        get_reg-decimal ra b',' after_ra hra refl,
        skip_sep-comma (decimal rb (10 ∷ rest)),
        get_reg-decimal rb 10 rest hrb refl,
      )
      refl

-- What `finish_statement` does with a word, and a word that waits for no label.
abbrev pub keep : Output → Statement → Result (List ℕ × Output)
keep o s = ok (s.rest, append_words (s.word ∷ []) (note_patch s.label (length o.words) o))

abbrev pub unlabelled : ℕ × List ℕ → Result Statement
unlabelled (w, behind) = ok (record { word = w; label = none; rest = behind })

module _ (fpu : Fpu) (text : FloatText) where
  -- The newline behind a statement.
  pub assemble_loop-newline :
      (fuel : ℕ) (rest : List ℕ) (out : Output)
      → assemble_loop fpu text (suc fuel) (10 ∷ rest) out ≡ assemble_loop fpu text fuel rest out
  unfolding assemble_loop skip_sep
  assemble_loop-newline fuel rest out = refl

  pub line_rrr-assembled :
      (op fn fl ext rd ra rb fuel : ℕ) (name rest : List ℕ) (out : Output)
      → Reads fpu text (coded op fn fl ext) name
      → ((head : List ℕ) (o : Output)
          → finish_statement fpu text (coded op fn fl ext) head o
            ≡ ((assemble_r op fn fl head >>= unlabelled) >>= keep o))
      → rd < 64
      → ra < 64
      → rb < 64
      → assemble_loop fpu text (suc (suc fuel)) (line_rrr name rd ra rb rest) out
        ≡ assemble_loop fpu text fuel rest (assembled (encode_r op fn ra rd rb fl) ext out)
  unfolding line_rrr two_operands
  line_rrr-assembled op fn fl ext rd ra rb fuel name rest out reads finishes hrd hra hrb =
      let operands =
        decimal rd
          (b',' ∷ b' ' ∷ b'r' ∷ decimal ra (b',' ∷ b' ' ∷ b'r' ∷ decimal rb (10 ∷ rest))) in
      let opened = record out { extensions = bit_or out.extensions ext } in
      reads (suc fuel) operands out
      ∙ rw
          (finishes (b'r' ∷ operands) opened, assemble_r-decimal op fn fl rd ra rb rest hrd hra hrb)
          (assemble_loop-newline fuel rest (assembled (encode_r op fn ra rd rb fl) ext out))

  with_imm-decimal :
      (encode : ℕ → ℕ) (v : ℕ) (rest : List ℕ)
      → v < word_mod
      → v ≢ sign_bit
      → with_imm fpu text encode (b',' ∷ b' ' ∷ signed_decimal v (10 ∷ rest))
        ≡ ok (record { word = encode v; label = none; rest = 10 ∷ rest })
  with_imm-decimal encode v rest small proper =
      rw (skip_sep-signed_decimal v rest, get_imm-signed_decimal fpu text v rest small proper) refl

  -- `encode` is given both registers in the order in which they are written.
  pub line_rri-assembled :
      (op fn fl ext a b v fuel : ℕ) (encode : (a b v : ℕ) → ℕ) (name rest : List ℕ) (out : Output)
      → Reads fpu text (coded op fn fl ext) name
      → ((head : List ℕ) (o : Output)
          → finish_statement fpu text (coded op fn fl ext) head o ≡ (
              (two_regs head >>= λ ((c, d), behind). with_imm fpu text (encode c d) behind)
              >>= keep o))
      → a < 64
      → b < 64
      → v < word_mod
      → v ≢ sign_bit
      → assemble_loop fpu text (suc (suc fuel)) (line_rri name a b v rest) out
        ≡ assemble_loop fpu text fuel rest (assembled (encode a b v) ext out)
  unfolding line_rri two_operands
  line_rri-assembled op fn fl ext a b v fuel encode name rest out reads finishes ha hb small
        proper =
      let tail = b' ' ∷ signed_decimal v (10 ∷ rest) in
      let operands = decimal a (b',' ∷ b' ' ∷ b'r' ∷ decimal b (b',' ∷ tail)) in
      let opened = record out { extensions = bit_or out.extensions ext } in
      reads (suc fuel) operands out
      ∙ rw
          (
            finishes (b'r' ∷ operands) opened,
            two_regs-decimal a b b',' tail ha hb refl,
            with_imm-decimal (encode a b) v rest small proper,
          )
          (assemble_loop-newline fuel rest (assembled (encode a b v) ext out))
