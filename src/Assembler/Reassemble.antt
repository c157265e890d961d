-- ===== src/Assembler/Reassemble.antt =====
-- `assemble` of src/assembler.c on what `disassemble` of src/disassembler.c prints for a word.
use cortex_vm.Prelude.{
  ℕ, ◌<◌, ◌≡◌, ◌≢◌, ◌==◌, Bool, true, false, if◌then◌else◌, arith, List, ok, refl, sym,
}
use cortex_vm.Word.{word_mod, sign_ext32, sign_ext36}
use cortex_vm.Isa.{opcode, funct, flags, i_ra, i_rd, i_rb, i_imm, s_imm, l_imm}
use cortex_vm.Isa.Codes.{
  op_r, op_i, op_s, op_l, op_b, op_sys, op_fr, op_fi, op_fb, op_mr, op_mi, ext_m, ext_float, fn_sw,
  fn_lw,
}
use cortex_vm.Isa.Encode.{encode_r, encode_i, encode_s, encode_l, encode_sys}
use cortex_vm.Machine.{Fpu}
use cortex_vm.Assembler.Immediate.{FloatText}
use cortex_vm.Assembler.Program.{Output}
use cortex_vm.Assembler.Reads.{printed_flags}
use cortex_vm.Assembler.Lines.{
  Becomes, dis_op_r-assembled, dis_op_i-assembled, dis_op_s-assembled, dis_op_l-assembled,
  dis_op_b-assembled, dis_op_sys-assembled, dis_op_fr-assembled, dis_op_fb-assembled,
  dis_op_mr-assembled, dis_op_mi-assembled,
}
use cortex_vm.Assembler.Canonical.{
  shown, word_ext, printed_flags-below, fields_r, fields_i, fields_s, fields_l, fields_sys,
}
use cortex_vm.Disassembler.Listing.{dis_word}

-- One case of a chain of tests.
on_test {ℓ κ} :
    {A : Type ℓ} {P : Type κ} (b : Bool) {x y z : A}
    → (b ≡ true → x ≡ z → P)
    → (b ≡ false → y ≡ z → P)
    → (if b then x else y) ≡ z
    → P
on_test true hit miss = hit refl
on_test false hit miss = miss refl

-- The word and the extension that the text of `w` stands for.
abbrev Spells : (w v ext : ℕ) → Type 0
Spells w v ext = (v ≡ shown w) × (ext ≡ word_ext w)

shown-r :
    (w : ℕ)
    → w < word_mod
    → (opcode w == op_r) ≡ true
    → Spells w
        (encode_r op_r (funct w) (i_ra w) (i_rd w) (i_rb w) (printed_flags (funct w) (flags w)))
        0
unfolding shown word_ext
shown-r w small e = ground (
  arith,
  fields_r w (printed_flags (funct w) (flags w)) small (printed_flags-below (funct w) (flags w)),
)

shown-i :
    (w : ℕ)
    → w < word_mod
    → (opcode w == op_i) ≡ true
    → Spells w
        (encode_i op_i
          (funct w)
          (i_ra w)
          (i_rd w)
          (sign_ext32 (i_imm w))
          (printed_flags (funct w) (flags w)))
        0
unfolding shown word_ext
shown-i w small e = ground (
  arith,
  fields_i w (printed_flags (funct w) (flags w)) small (printed_flags-below (funct w) (flags w)),
)

shown-s :
    (w : ℕ)
    → w < word_mod
    → (opcode w == op_s) ≡ true
    → Spells w (encode_s op_s fn_sw (i_ra w) (i_rb w) (sign_ext36 (s_imm w))) 0
unfolding shown word_ext
shown-s w small e = ground (arith, fields_s w fn_sw small (omega arith))

shown-l :
    (w : ℕ)
    → w < word_mod
    → (opcode w == op_l) ≡ true
    → Spells w (encode_l op_l fn_lw (i_ra w) (i_rd w) (sign_ext36 (l_imm w))) 0
unfolding shown word_ext
shown-l w small e = ground (arith, fields_l w fn_lw small (omega arith))

shown-b :
    (w : ℕ)
    → w < word_mod
    → (opcode w == op_b) ≡ true
    → Spells w (encode_s op_b (funct w) (i_ra w) (i_rb w) (sign_ext36 (s_imm w))) 0
unfolding shown word_ext opcode funct
shown-b w small e = ground (arith, fields_s w (funct w) small (omega arith))

shown-sys :
    (w : ℕ) → w < word_mod → (opcode w == op_sys) ≡ true → Spells w (encode_sys op_sys (funct w)) 0
unfolding shown word_ext
shown-sys w small e = ground (arith, fields_sys w small)

shown-fr :
    (w : ℕ)
    → w < word_mod
    → (opcode w == op_fr) ≡ true
    → Spells w (encode_r op_fr (funct w) (i_ra w) (i_rd w) (i_rb w) 0) ext_float
unfolding shown word_ext
shown-fr w small e = ground (arith, fields_r w 0 small (omega arith))

shown-fb :
    (w : ℕ)
    → w < word_mod
    → (opcode w == op_fb) ≡ true
    → Spells w (encode_s op_fb (funct w) (i_ra w) (i_rb w) (sign_ext36 (s_imm w))) ext_float
unfolding shown word_ext opcode funct
shown-fb w small e = ground (arith, fields_s w (funct w) small (omega arith))

shown-mr :
    (w : ℕ)
    → w < word_mod
    → (opcode w == op_mr) ≡ true
    → Spells w (encode_r op_mr (funct w) (i_ra w) (i_rd w) (i_rb w) 0) ext_m
unfolding shown word_ext
shown-mr w small e = ground (arith, fields_r w 0 small (omega arith))

shown-mi :
    (w : ℕ)
    → w < word_mod
    → (opcode w == op_mi) ≡ true
    → Spells w (encode_i op_mi (funct w) (i_ra w) (i_rd w) (sign_ext32 (i_imm w)) 0) ext_m
unfolding shown word_ext
shown-mi w small e = ground (arith, fields_i w 0 small (omega arith))

module _ (fpu : Fpu) (text : FloatText) where
  spelled :
      (line rest : List ℕ) (fuel w v ext : ℕ) (out : Output)
      → Becomes fpu text line rest fuel v ext out
      → Spells w v ext
      → Becomes fpu text line rest fuel (shown w) (word_ext w) out
  spelled line rest fuel w v ext out reads spells = rw (sym spells.0, sym spells.1) reads

  -- The line that the disassembler prints for a word below 2 ^ 64 of an opcode other than OP_FI is
  -- taken by two rounds of the loop of `assemble`, whatever stands behind it: they append the word,
  -- cut to the bits that its text shows, set the extension that it needs and change nothing else.
  pub dis_word-assembled :
      (format_g : ℕ → List ℕ) (widen : ℕ → ℕ) (w fuel : ℕ) (rest line : List ℕ) (out : Output)
      → w < word_mod
      → opcode w ≢ op_fi
      → dis_word format_g widen w rest ≡ ok line
      → Becomes fpu text line rest fuel (shown w) (word_ext w) out
  unfolding dis_word
  dis_word-assembled format_g widen w fuel rest line out small no_float =
      on_test (opcode w == op_r)
        (λ e printed.
          spelled line rest fuel w _ _ out
            (dis_op_r-assembled fpu text w fuel rest line out printed) (shown-r w small e))
        λ _.
          on_test (opcode w == op_i)
            (λ e printed.
              spelled line rest fuel w _ _ out
                (dis_op_i-assembled fpu text w fuel rest line out printed) (shown-i w small e))
            λ _.
              on_test (opcode w == op_s)
                (λ e printed.
                  spelled line rest fuel w _ _ out
                    (dis_op_s-assembled fpu text w fuel rest line out printed) (shown-s w small e))
                λ _.
                  on_test (opcode w == op_l)
                    (λ e printed.
                      spelled line rest fuel w _ _ out
                        (dis_op_l-assembled fpu text w fuel rest line out printed)
                        (shown-l w small e))
                    λ _.
                      on_test (opcode w == op_b)
                        (λ e printed.
                          spelled line rest fuel w _ _ out
                            (dis_op_b-assembled fpu text w fuel rest line out printed)
                            (shown-b w small e))
                        λ _.
                          on_test (opcode w == op_sys)
                            (λ e printed.
                              spelled line rest fuel w _ _ out
                                (dis_op_sys-assembled fpu text w fuel rest line out printed)
                                (shown-sys w small e))
                            λ _.
                              on_test (opcode w == op_fr)
                                (λ e printed.
                                  spelled line rest fuel w _ _ out
                                    (dis_op_fr-assembled fpu text w fuel rest line out printed)
                                    (shown-fr w small e))
                                λ _.
                                  on_test (opcode w == op_fi) (λ e printed. ground arith)
                                    λ _.
                                      on_test (opcode w == op_fb)
                                        (λ e printed.
                                          spelled line rest fuel w _ _ out
                                            (dis_op_fb-assembled fpu text w fuel rest line out
                                              printed)
                                            (shown-fb w small e))
                                        λ _.
                                          on_test (opcode w == op_mr)
                                            (λ e printed.
                                              spelled line rest fuel w _ _ out
                                                (dis_op_mr-assembled fpu text w fuel rest line out
                                                  printed)
                                                (shown-mr w small e))
                                            λ _.
                                              on_test (opcode w == op_mi)
                                                (λ e printed.
                                                  spelled line rest fuel w _ _ out
                                                    (dis_op_mi-assembled fpu text w fuel rest line
                                                      out printed)
                                                    (shown-mi w small e))
                                                λ _. λ impossible. ground arith
