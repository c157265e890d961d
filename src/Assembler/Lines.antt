-- ===== src/Assembler/Lines.antt =====
-- A line
use cortex_vm.Prelude.{
  ℕ, suc, ◌++◌, ◌^◌, ◌<◌, ◌≡◌, ◌≢◌, refl, ◌∙◌, List, ◌∷◌, codes, Result, ok, Ensures, Ensures-map,
  ◌>>=◌, arith,
}
use cortex_vm.Word.{word_mod, sign_bit, sign_ext32, sign_ext36}
use cortex_vm.Isa.{funct, flags, i_ra, i_rd, i_rb, i_imm, s_imm, l_imm, b_imm}
use cortex_vm.Isa.Codes.{
  op_r, op_i, op_s, op_l, op_b, op_sys, op_fr, op_fb, op_mr, op_mi, ext_m, ext_float, fn_sw, fn_lw,
}
use cortex_vm.Isa.Decode.{s_imm_sum, sign_ext32-proper, sign_ext36-proper}
use cortex_vm.Isa.Encode.{encode_r, encode_i, encode_s, encode_l, encode_sys}
use cortex_vm.Machine.{Fpu}
use cortex_vm.Assembler.Immediate.{FloatText, take_while, skip_while}
use cortex_vm.Assembler.{assemble_r, skip_sep}
use cortex_vm.Assembler.Names.Extensions.{get_name}
use cortex_vm.Assembler.Operands.{
  two_regs, with_imm, assemble_i, assemble_s, assemble_l, assemble_word,
}
use cortex_vm.Assembler.Program.{
  Output, finish_statement, assemble_loop, statement, get_opcode_funct, get_instruction,
}
use cortex_vm.Assembler.Formats.{
  assembled, assemble_loop-newline, keep, unlabelled, line_rrr-assembled, line_rri-assembled,
}
use cortex_vm.Assembler.Reads.{
  coded, printed_flags, Reads, ReadsAlone, mnemonic_r-Reads, mnemonic_fr-Reads, mnemonic_mr-Reads,
  mnemonic_i-Reads, mnemonic_mi-Reads, mnemonic_b-Reads, mnemonic_fb-Reads, mnemonic_sys-ReadsAlone,
}
use cortex_vm.Disassembler.Mnemonics.{
  mnemonic_r, mnemonic_fr, mnemonic_mr, mnemonic_i, mnemonic_mi, mnemonic_b, mnemonic_fb,
  mnemonic_sys,
}
use cortex_vm.Disassembler.Lines.{
  line_rrr, line_rri, dis_op_r, dis_op_fr, dis_op_mr, dis_op_i, dis_op_mi, dis_op_b, dis_op_fb,
  dis_op_s, dis_op_l, dis_op_sys,
}

i_ra-below : (w : ℕ) → i_ra w < 64
unfolding i_ra
i_ra-below w = omega arith

i_rd-below : (w : ℕ) → i_rd w < 64
unfolding i_rd
i_rd-below w = omega arith

i_rb-below : (w : ℕ) → i_rb w < 64
unfolding i_rb
i_rb-below w = omega arith

s_imm-below : (w : ℕ) → s_imm w < 2 ^ 36
s_imm-below w = omega (arith, s_imm_sum w)

l_imm-below : (w : ℕ) → l_imm w < 2 ^ 36
unfolding l_imm
l_imm-below w = omega arith

module _ (fpu : Fpu) (text : FloatText) where
  -- Two rounds of `assemble` take the line and give the word.
  abbrev pub Becomes : (line rest : List ℕ) (fuel w ext : ℕ) → Output → Type 0
  Becomes line rest fuel w ext out =
      assemble_loop fpu text (suc (suc fuel)) line out
      ≡ assemble_loop fpu text fuel rest (assembled w ext out)

  -- A format with three registers, whatever name is printed.
  rrr-assembled :
      (op fn fl ext w fuel : ℕ) (rest line : List ℕ) (out : Output) (name : Result (List ℕ))
      → Ensures (Reads fpu text (coded op fn fl ext)) name
      → ((head : List ℕ) (o : Output)
          → finish_statement fpu text (coded op fn fl ext) head o
            ≡ ((assemble_r op fn fl head >>= unlabelled) >>= keep o))
      → (name >>= λ n. ok (line_rrr n (i_rd w) (i_ra w) (i_rb w) rest)) ≡ ok line
      → Becomes line rest fuel (encode_r op fn (i_ra w) (i_rd w) (i_rb w) fl) ext out
  rrr-assembled op fn fl ext w fuel rest line out name reads finishes =
      Ensures-map (Reads fpu text (coded op fn fl ext))
        (λ l. Becomes l rest fuel (encode_r op fn (i_ra w) (i_rd w) (i_rb w) fl) ext out) name
        (λ n. line_rrr n (i_rd w) (i_ra w) (i_rb w) rest) line reads
        λ n read.
          line_rrr-assembled fpu text op fn fl ext (i_rd w) (i_ra w) (i_rb w) fuel n rest out read
            finishes (i_rd-below w) (i_ra-below w) (i_rb-below w)

  -- A format with two registers and an immediate.
  rri-assembled :
      (op fn fl ext a b v fuel : ℕ) (encode : (a b v : ℕ) → ℕ) (rest line : List ℕ) (out : Output)
      (name : Result (List ℕ))
      → Ensures (Reads fpu text (coded op fn fl ext)) name
      → ((head : List ℕ) (o : Output)
          → finish_statement fpu text (coded op fn fl ext) head o ≡ (
              (two_regs head >>= λ ((c, d), behind). with_imm fpu text (encode c d) behind)
              >>= keep o))
      → a < 64
      → b < 64
      → v < word_mod
      → v ≢ sign_bit
      → (name >>= λ n. ok (line_rri n a b v rest)) ≡ ok line
      → Becomes line rest fuel (encode a b v) ext out
  rri-assembled op fn fl ext a b v fuel encode rest line out name reads finishes ha hb small
        proper =
      Ensures-map (Reads fpu text (coded op fn fl ext))
        (λ l. Becomes l rest fuel (encode a b v) ext out) name (λ n. line_rri n a b v rest) line
        reads
        λ n read.
          line_rri-assembled fpu text op fn fl ext a b v fuel encode n rest out read finishes ha hb
            small proper

  pub dis_op_r-assembled :
      (w fuel : ℕ) (rest line : List ℕ) (out : Output)
      → dis_op_r w rest ≡ ok line
      → Becomes line rest fuel
          (encode_r op_r (funct w) (i_ra w) (i_rd w) (i_rb w) (printed_flags (funct w) (flags w)))
          0
          out
  unfolding dis_op_r finish_statement assemble_word
  dis_op_r-assembled w fuel rest line out =
      rrr-assembled op_r (funct w) (printed_flags (funct w) (flags w)) 0 w fuel rest line out
        (mnemonic_r (funct w) (flags w)) (mnemonic_r-Reads fpu text (funct w) (flags w))
        (λ head o. refl)

  pub dis_op_fr-assembled :
      (w fuel : ℕ) (rest line : List ℕ) (out : Output)
      → dis_op_fr w rest ≡ ok line
      → Becomes line rest fuel (encode_r op_fr (funct w) (i_ra w) (i_rd w) (i_rb w) 0) ext_float out
  unfolding dis_op_fr finish_statement assemble_word
  dis_op_fr-assembled w fuel rest line out =
      rrr-assembled op_fr (funct w) 0 ext_float w fuel rest line out (mnemonic_fr (funct w))
        (mnemonic_fr-Reads fpu text (funct w)) (λ head o. refl)

  pub dis_op_mr-assembled :
      (w fuel : ℕ) (rest line : List ℕ) (out : Output)
      → dis_op_mr w rest ≡ ok line
      → Becomes line rest fuel (encode_r op_mr (funct w) (i_ra w) (i_rd w) (i_rb w) 0) ext_m out
  unfolding dis_op_mr finish_statement assemble_word
  dis_op_mr-assembled w fuel rest line out =
      rrr-assembled op_mr (funct w) 0 ext_m w fuel rest line out (mnemonic_mr (funct w))
        (mnemonic_mr-Reads fpu text (funct w)) (λ head o. refl)

  pub dis_op_i-assembled :
      (w fuel : ℕ) (rest line : List ℕ) (out : Output)
      → dis_op_i w rest ≡ ok line
      → Becomes line rest fuel
          (encode_i op_i
            (funct w)
            (i_ra w)
            (i_rd w)
            (sign_ext32 (i_imm w))
            (printed_flags (funct w) (flags w)))
          0
          out
  unfolding dis_op_i finish_statement assemble_word assemble_i assemble_s
  dis_op_i-assembled w fuel rest line out =
      rri-assembled op_i (funct w) (printed_flags (funct w) (flags w)) 0 (i_rd w) (i_ra w)
        (sign_ext32 (i_imm w)) fuel
        (λ a b v. encode_i op_i (funct w) b a v (printed_flags (funct w) (flags w))) rest line out
        (mnemonic_i (funct w) (flags w)) (mnemonic_i-Reads fpu text (funct w) (flags w))
        (λ head o. refl) (i_rd-below w) (i_ra-below w) (sign_ext32-proper (i_imm w)).0
        (sign_ext32-proper (i_imm w)).1

  pub dis_op_mi-assembled :
      (w fuel : ℕ) (rest line : List ℕ) (out : Output)
      → dis_op_mi w rest ≡ ok line
      → Becomes line rest fuel
          (encode_i op_mi (funct w) (i_ra w) (i_rd w) (sign_ext32 (i_imm w)) 0)
          ext_m
          out
  unfolding dis_op_mi finish_statement assemble_word assemble_i assemble_s
  dis_op_mi-assembled w fuel rest line out =
      rri-assembled op_mi (funct w) 0 ext_m (i_rd w) (i_ra w) (sign_ext32 (i_imm w)) fuel
        (λ a b v. encode_i op_mi (funct w) b a v 0) rest line out (mnemonic_mi (funct w))
        (mnemonic_mi-Reads fpu text (funct w)) (λ head o. refl) (i_rd-below w) (i_ra-below w)
        (sign_ext32-proper (i_imm w)).0 (sign_ext32-proper (i_imm w)).1

  pub dis_op_b-assembled :
      (w fuel : ℕ) (rest line : List ℕ) (out : Output)
      → dis_op_b w rest ≡ ok line
      → Becomes line rest fuel
          (encode_s op_b (funct w) (i_ra w) (i_rb w) (sign_ext36 (s_imm w)))
          0
          out
  unfolding dis_op_b b_imm finish_statement assemble_word assemble_i assemble_s
  dis_op_b-assembled w fuel rest line out =
      rri-assembled op_b (funct w) 0 0 (i_ra w) (i_rb w) (sign_ext36 (s_imm w)) fuel
        (λ a b v. encode_s op_b (funct w) a b v) rest line out (mnemonic_b (funct w))
        (mnemonic_b-Reads fpu text (funct w)) (λ head o. refl) (i_ra-below w) (i_rb-below w)
        (sign_ext36-proper (s_imm w) (s_imm-below w)).0
        (sign_ext36-proper (s_imm w) (s_imm-below w)).1

  pub dis_op_fb-assembled :
      (w fuel : ℕ) (rest line : List ℕ) (out : Output)
      → dis_op_fb w rest ≡ ok line
      → Becomes line rest fuel
          (encode_s op_fb (funct w) (i_ra w) (i_rb w) (sign_ext36 (s_imm w)))
          ext_float
          out
  unfolding dis_op_fb b_imm finish_statement assemble_word assemble_i assemble_s
  dis_op_fb-assembled w fuel rest line out =
      rri-assembled op_fb (funct w) 0 ext_float (i_ra w) (i_rb w) (sign_ext36 (s_imm w)) fuel
        (λ a b v. encode_s op_fb (funct w) a b v) rest line out (mnemonic_fb (funct w))
        (mnemonic_fb-Reads fpu text (funct w)) (λ head o. refl) (i_ra-below w) (i_rb-below w)
        (sign_ext36-proper (s_imm w) (s_imm-below w)).0
        (sign_ext36-proper (s_imm w) (s_imm-below w)).1

  sw-Reads : Reads fpu text (coded op_s fn_sw 0 0) (codes "sw")
  unfolding assemble_loop statement get_opcode_funct get_instruction get_name skip_sep take_while
      skip_while
  sw-Reads fuel t out = refl

  lw-Reads : Reads fpu text (coded op_l fn_lw 0 0) (codes "lw")
  unfolding assemble_loop statement get_opcode_funct get_instruction get_name skip_sep take_while
      skip_while
  lw-Reads fuel t out = refl

  pub dis_op_s-assembled :
      (w fuel : ℕ) (rest line : List ℕ) (out : Output)
      → dis_op_s w rest ≡ ok line
      → Becomes line rest fuel (encode_s op_s fn_sw (i_ra w) (i_rb w) (sign_ext36 (s_imm w))) 0 out
  unfolding dis_op_s finish_statement assemble_word assemble_s
  dis_op_s-assembled w fuel rest line out =
      rri-assembled op_s fn_sw 0 0 (i_ra w) (i_rb w) (sign_ext36 (s_imm w)) fuel
        (λ a b v. encode_s op_s fn_sw a b v) rest line out (ok (codes "sw")) sw-Reads
        (λ head o. refl) (i_ra-below w) (i_rb-below w)
        (sign_ext36-proper (s_imm w) (s_imm-below w)).0
        (sign_ext36-proper (s_imm w) (s_imm-below w)).1

  pub dis_op_l-assembled :
      (w fuel : ℕ) (rest line : List ℕ) (out : Output)
      → dis_op_l w rest ≡ ok line
      → Becomes line rest fuel (encode_l op_l fn_lw (i_ra w) (i_rd w) (sign_ext36 (l_imm w))) 0 out
  unfolding dis_op_l finish_statement assemble_word assemble_l
  dis_op_l-assembled w fuel rest line out =
      rri-assembled op_l fn_lw 0 0 (i_rd w) (i_ra w) (sign_ext36 (l_imm w)) fuel
        (λ a b v. encode_l op_l fn_lw b a v) rest line out (ok (codes "lw")) lw-Reads
        (λ head o. refl) (i_rd-below w) (i_ra-below w)
        (sign_ext36-proper (l_imm w) (l_imm-below w)).0
        (sign_ext36-proper (l_imm w) (l_imm-below w)).1

  sys-assembled :
      (fn fuel : ℕ) (name rest : List ℕ) (out : Output)
      → ReadsAlone fpu text (coded op_sys fn 0 0) name
      → Becomes (b'\t' ∷ (name ++ (10 ∷ rest))) rest fuel (encode_sys op_sys fn) 0 out
  unfolding finish_statement assemble_word
  sys-assembled fn fuel name rest out reads =
      reads (suc fuel) rest out
      ∙ assemble_loop-newline fpu text fuel rest (assembled (encode_sys op_sys fn) 0 out)

  pub dis_op_sys-assembled :
      (w fuel : ℕ) (rest line : List ℕ) (out : Output)
      → dis_op_sys w rest ≡ ok line
      → Becomes line rest fuel (encode_sys op_sys (funct w)) 0 out
  unfolding dis_op_sys
  dis_op_sys-assembled w fuel rest line out =
      Ensures-map (ReadsAlone fpu text (coded op_sys (funct w) 0 0))
        (λ l. Becomes l rest fuel (encode_sys op_sys (funct w)) 0 out) (mnemonic_sys (funct w))
        (λ n. b'\t' ∷ (n ++ (10 ∷ rest))) line (mnemonic_sys-ReadsAlone fpu text (funct w))
        λ n read. sys-assembled (funct w) fuel n rest out read
