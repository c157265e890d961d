-- ===== src/Assembler/Reads.antt =====
-- A round of `assemble` on each name that the disassembler prints.
use cortex_vm.Prelude.{
  ℕ, zero, suc, ◌≡◌, ◌==◌, ◌%◌, ◌||◌, refl, Bool, true, false, List, ◌∷◌, ◌++◌, bit_or, codes,
  Result, Ensures, Ensures-fatal, ◌>>=◌, arith, if◌then◌else◌,
}
use cortex_vm.Isa.Codes.{
  op_r, op_i, op_b, op_sys, op_fr, op_fb, op_mr, op_mi, fn_addsub, fn_sr, ext_m, ext_float,
}
use cortex_vm.Machine.{Fpu}
use cortex_vm.Assembler.{skip_sep}
use cortex_vm.Assembler.Immediate.{FloatText, skip_while, take_while}
use cortex_vm.Assembler.Names.{Code}
use cortex_vm.Assembler.Names.Extensions.{get_name}
use cortex_vm.Assembler.Program.{
  Output, assemble_loop, statement, finish_statement, get_opcode_funct, get_instruction,
}
use cortex_vm.Disassembler.Mnemonics.{
  mnemonic_r, mnemonic_i, mnemonic_b, mnemonic_sys, mnemonic_fr, mnemonic_fb, mnemonic_mr,
  mnemonic_mi,
}

abbrev pub coded : (op fn fl ext : ℕ) → Code
coded op fn fl ext = record { op = op; fn = fn; fl = fl; ext = ext }

-- The flags that a name stands for.
abbrev pub printed_flags : (fn fl : ℕ) → ℕ
printed_flags fn fl = if fn == fn_addsub || fn == fn_sr then (if fl % 2 == 1 then 1 else 0) else 0

module _ (fpu : Fpu) (text : FloatText) where
  -- What is left of a round of `assemble` behind the name of the instruction.
  abbrev pub after_name : (fuel : ℕ) → Code → List ℕ → Output → Result Output
  after_name fuel code head out =
      finish_statement fpu text code head
        (record out { extensions = bit_or out.extensions code.ext })
      >>= λ (rest, out'). assemble_loop fpu text fuel rest out'

  -- A name behind a tab, with a space and a register behind it.
  abbrev pub Reads : Code → List ℕ → Type 0
  Reads code name =
      (fuel : ℕ) (t : List ℕ) (out : Output)
      → assemble_loop fpu text (suc fuel) (b'\t' ∷ (name ++ (b' ' ∷ b'r' ∷ t))) out
        ≡ after_name fuel code (b'r' ∷ t) out

  addsub_r-Reads :
      (b : Bool)
      → Reads (coded op_r fn_addsub (if b then 1 else 0) 0) (if b then codes "sub" else codes "add")
  unfolding assemble_loop statement get_opcode_funct get_instruction get_name skip_sep take_while
      skip_while
  addsub_r-Reads true fuel t out = refl
  addsub_r-Reads false fuel t out = refl

  sr_r-Reads :
      (b : Bool)
      → Reads (coded op_r fn_sr (if b then 1 else 0) 0) (if b then codes "sra" else codes "srl")
  unfolding assemble_loop statement get_opcode_funct get_instruction get_name skip_sep take_while
      skip_while
  sr_r-Reads true fuel t out = refl
  sr_r-Reads false fuel t out = refl

  pub mnemonic_r-Reads :
      (fn fl : ℕ) → Ensures (Reads (coded op_r fn (printed_flags fn fl) 0)) (mnemonic_r fn fl)
  unfolding mnemonic_r assemble_loop statement get_opcode_funct get_instruction get_name skip_sep
      take_while skip_while
  mnemonic_r-Reads (suc zero) fl = addsub_r-Reads (fl % 2 == 1)
  mnemonic_r-Reads (suc (suc zero)) fl = λ fuel t out. refl
  mnemonic_r-Reads (suc (suc (suc zero))) fl = λ fuel t out. refl
  mnemonic_r-Reads (suc (suc (suc (suc zero)))) fl = λ fuel t out. refl
  mnemonic_r-Reads (suc (suc (suc (suc (suc zero))))) fl = λ fuel t out. refl
  mnemonic_r-Reads (suc (suc (suc (suc (suc (suc zero)))))) fl = sr_r-Reads (fl % 2 == 1)
  mnemonic_r-Reads (suc (suc (suc (suc (suc (suc (suc (suc zero)))))))) fl = λ fuel t out. refl
  mnemonic_r-Reads (suc (suc (suc (suc (suc (suc (suc (suc (suc zero))))))))) fl =
      λ fuel t out. refl
  mnemonic_r-Reads (suc (suc (suc (suc (suc (suc (suc (suc (suc (suc zero)))))))))) fl =
      λ fuel t out. refl
  mnemonic_r-Reads zero fl = tt
  mnemonic_r-Reads (suc (suc (suc (suc (suc (suc (suc zero))))))) fl = tt
  mnemonic_r-Reads (suc (suc (suc (suc (suc (suc (suc (suc (suc (suc (suc fn))))))))))) fl =
      Ensures-fatal
        (Reads (
          coded op_r (suc (suc (suc (suc (suc (suc (suc (suc (suc (suc (suc fn)))))))))))
            (printed_flags (suc (suc (suc (suc (suc (suc (suc (suc (suc (suc (suc fn))))))))))) fl)
            0))
        (mnemonic_r (suc (suc (suc (suc (suc (suc (suc (suc (suc (suc (suc fn))))))))))) fl) 0x0601
        (ground arith)

  addsub_i-Reads :
      (b : Bool)
      → Reads
          (coded op_i fn_addsub (if b then 1 else 0) 0)
          (if b then codes "subi" else codes "addi")
  unfolding assemble_loop statement get_opcode_funct get_instruction get_name skip_sep take_while
      skip_while
  addsub_i-Reads true fuel t out = refl
  addsub_i-Reads false fuel t out = refl

  sr_i-Reads :
      (b : Bool)
      → Reads (coded op_i fn_sr (if b then 1 else 0) 0) (if b then codes "srai" else codes "srli")
  unfolding assemble_loop statement get_opcode_funct get_instruction get_name skip_sep take_while
      skip_while
  sr_i-Reads true fuel t out = refl
  sr_i-Reads false fuel t out = refl

  pub mnemonic_i-Reads :
      (fn fl : ℕ) → Ensures (Reads (coded op_i fn (printed_flags fn fl) 0)) (mnemonic_i fn fl)
  unfolding mnemonic_i assemble_loop statement get_opcode_funct get_instruction get_name skip_sep
      take_while skip_while
  mnemonic_i-Reads (suc zero) fl = addsub_i-Reads (fl % 2 == 1)
  mnemonic_i-Reads (suc (suc zero)) fl = λ fuel t out. refl
  mnemonic_i-Reads (suc (suc (suc zero))) fl = λ fuel t out. refl
  mnemonic_i-Reads (suc (suc (suc (suc zero)))) fl = λ fuel t out. refl
  mnemonic_i-Reads (suc (suc (suc (suc (suc zero))))) fl = λ fuel t out. refl
  mnemonic_i-Reads (suc (suc (suc (suc (suc (suc zero)))))) fl = sr_i-Reads (fl % 2 == 1)
  mnemonic_i-Reads (suc (suc (suc (suc (suc (suc (suc zero))))))) fl = λ fuel t out. refl
  mnemonic_i-Reads zero fl = tt
  mnemonic_i-Reads (suc (suc (suc (suc (suc (suc (suc (suc fn)))))))) fl =
      Ensures-fatal
        (Reads (
          coded op_i (suc (suc (suc (suc (suc (suc (suc (suc fn))))))))
            (printed_flags (suc (suc (suc (suc (suc (suc (suc (suc fn)))))))) fl) 0))
        (mnemonic_i (suc (suc (suc (suc (suc (suc (suc (suc fn)))))))) fl) 0x0602 (ground arith)

  pub mnemonic_b-Reads : (fn : ℕ) → Ensures (Reads (coded op_b fn 0 0)) (mnemonic_b fn)
  unfolding mnemonic_b assemble_loop statement get_opcode_funct get_instruction get_name skip_sep
      take_while skip_while
  mnemonic_b-Reads (suc zero) = λ fuel t out. refl
  mnemonic_b-Reads (suc (suc zero)) = λ fuel t out. refl
  mnemonic_b-Reads (suc (suc (suc zero))) = λ fuel t out. refl
  mnemonic_b-Reads (suc (suc (suc (suc zero)))) = λ fuel t out. refl
  mnemonic_b-Reads (suc (suc (suc (suc (suc zero))))) = λ fuel t out. refl
  mnemonic_b-Reads (suc (suc (suc (suc (suc (suc zero)))))) = λ fuel t out. refl
  mnemonic_b-Reads (suc (suc (suc (suc (suc (suc (suc zero))))))) = λ fuel t out. refl
  mnemonic_b-Reads (suc (suc (suc (suc (suc (suc (suc (suc zero)))))))) = λ fuel t out. refl
  mnemonic_b-Reads (suc (suc (suc (suc (suc (suc (suc (suc (suc zero))))))))) = λ fuel t out. refl
  mnemonic_b-Reads (suc (suc (suc (suc (suc (suc (suc (suc (suc (suc zero)))))))))) =
      λ fuel t out. refl
  mnemonic_b-Reads zero = tt
  mnemonic_b-Reads (suc (suc (suc (suc (suc (suc (suc (suc (suc (suc (suc fn))))))))))) =
      Ensures-fatal
        (Reads
          (coded op_b (suc (suc (suc (suc (suc (suc (suc (suc (suc (suc (suc fn))))))))))) 0 0))
        (mnemonic_b (suc (suc (suc (suc (suc (suc (suc (suc (suc (suc (suc fn)))))))))))) 0x0603
        (ground arith)

  pub mnemonic_fr-Reads : (fn : ℕ) → Ensures (Reads (coded op_fr fn 0 ext_float)) (mnemonic_fr fn)
  unfolding mnemonic_fr assemble_loop statement get_opcode_funct get_instruction get_name skip_sep
      take_while skip_while
  mnemonic_fr-Reads (suc zero) = λ fuel t out. refl
  mnemonic_fr-Reads (suc (suc zero)) = λ fuel t out. refl
  mnemonic_fr-Reads (suc (suc (suc zero))) = λ fuel t out. refl
  mnemonic_fr-Reads (suc (suc (suc (suc zero)))) = λ fuel t out. refl
  mnemonic_fr-Reads zero = tt
  mnemonic_fr-Reads (suc (suc (suc (suc (suc fn))))) =
      Ensures-fatal (Reads (coded op_fr (suc (suc (suc (suc (suc fn))))) 0 ext_float))
        (mnemonic_fr (suc (suc (suc (suc (suc fn)))))) 0x0605 (ground arith)

  pub mnemonic_fb-Reads : (fn : ℕ) → Ensures (Reads (coded op_fb fn 0 ext_float)) (mnemonic_fb fn)
  unfolding mnemonic_fb assemble_loop statement get_opcode_funct get_instruction get_name skip_sep
      take_while skip_while
  mnemonic_fb-Reads (suc zero) = λ fuel t out. refl
  mnemonic_fb-Reads (suc (suc zero)) = λ fuel t out. refl
  mnemonic_fb-Reads (suc (suc (suc zero))) = λ fuel t out. refl
  mnemonic_fb-Reads (suc (suc (suc (suc zero)))) = λ fuel t out. refl
  mnemonic_fb-Reads zero = tt
  mnemonic_fb-Reads (suc (suc (suc (suc (suc fn))))) =
      Ensures-fatal (Reads (coded op_fb (suc (suc (suc (suc (suc fn))))) 0 ext_float))
        (mnemonic_fb (suc (suc (suc (suc (suc fn)))))) 0x0607 (ground arith)

  pub mnemonic_mr-Reads : (fn : ℕ) → Ensures (Reads (coded op_mr fn 0 ext_m)) (mnemonic_mr fn)
  unfolding mnemonic_mr assemble_loop statement get_opcode_funct get_instruction get_name skip_sep
      take_while skip_while
  mnemonic_mr-Reads (suc zero) = λ fuel t out. refl
  mnemonic_mr-Reads (suc (suc zero)) = λ fuel t out. refl
  mnemonic_mr-Reads (suc (suc (suc zero))) = λ fuel t out. refl
  mnemonic_mr-Reads (suc (suc (suc (suc zero)))) = λ fuel t out. refl
  mnemonic_mr-Reads (suc (suc (suc (suc (suc zero))))) = λ fuel t out. refl
  mnemonic_mr-Reads (suc (suc (suc (suc (suc (suc zero)))))) = λ fuel t out. refl
  mnemonic_mr-Reads (suc (suc (suc (suc (suc (suc (suc zero))))))) = λ fuel t out. refl
  mnemonic_mr-Reads zero = tt
  mnemonic_mr-Reads (suc (suc (suc (suc (suc (suc (suc (suc fn)))))))) =
      Ensures-fatal (Reads (coded op_mr (suc (suc (suc (suc (suc (suc (suc (suc fn)))))))) 0 ext_m))
        (mnemonic_mr (suc (suc (suc (suc (suc (suc (suc (suc fn))))))))) 0x0608 (ground arith)

  pub mnemonic_mi-Reads : (fn : ℕ) → Ensures (Reads (coded op_mi fn 0 ext_m)) (mnemonic_mi fn)
  unfolding mnemonic_mi assemble_loop statement get_opcode_funct get_instruction get_name skip_sep
      take_while skip_while
  mnemonic_mi-Reads (suc zero) = λ fuel t out. refl
  mnemonic_mi-Reads (suc (suc (suc (suc zero)))) = λ fuel t out. refl
  mnemonic_mi-Reads (suc (suc (suc (suc (suc zero))))) = λ fuel t out. refl
  mnemonic_mi-Reads (suc (suc (suc (suc (suc (suc zero)))))) = λ fuel t out. refl
  mnemonic_mi-Reads (suc (suc (suc (suc (suc (suc (suc zero))))))) = λ fuel t out. refl
  mnemonic_mi-Reads zero = tt
  mnemonic_mi-Reads (suc (suc zero)) = tt
  mnemonic_mi-Reads (suc (suc (suc zero))) = tt
  mnemonic_mi-Reads (suc (suc (suc (suc (suc (suc (suc (suc fn)))))))) =
      Ensures-fatal (Reads (coded op_mi (suc (suc (suc (suc (suc (suc (suc (suc fn)))))))) 0 ext_m))
        (mnemonic_mi (suc (suc (suc (suc (suc (suc (suc (suc fn))))))))) 0x0609 (ground arith)

  -- A name behind a tab, with a newline behind it.
  abbrev pub ReadsAlone : Code → List ℕ → Type 0
  ReadsAlone code name =
      (fuel : ℕ) (t : List ℕ) (out : Output)
      → assemble_loop fpu text (suc fuel) (b'\t' ∷ (name ++ (10 ∷ t))) out
        ≡ after_name fuel code (10 ∷ t) out

  pub mnemonic_sys-ReadsAlone :
      (fn : ℕ) → Ensures (ReadsAlone (coded op_sys fn 0 0)) (mnemonic_sys fn)
  unfolding mnemonic_sys assemble_loop statement get_opcode_funct get_instruction get_name skip_sep
      take_while skip_while
  mnemonic_sys-ReadsAlone (suc zero) = λ fuel t out. refl
  mnemonic_sys-ReadsAlone (suc (suc zero)) = λ fuel t out. refl
  mnemonic_sys-ReadsAlone (suc (suc (suc zero))) = λ fuel t out. refl
  mnemonic_sys-ReadsAlone (suc (suc (suc (suc zero)))) = λ fuel t out. refl
  mnemonic_sys-ReadsAlone zero = tt
  mnemonic_sys-ReadsAlone (suc (suc (suc (suc (suc fn))))) =
      Ensures-fatal (ReadsAlone (coded op_sys (suc (suc (suc (suc (suc fn))))) 0 0))
        (mnemonic_sys (suc (suc (suc (suc (suc fn)))))) 0x0604 (ground arith)
