-- ===== src/Disassembler/Append.antt =====
-- The lines of src/disassembler.c, before what follows them.
use cortex_vm.Prelude.{
  ℕ, zero, suc, ◌+◌, ◌-◌, ◌/◌, ◌%◌, ◌==◌, ◌≡◌, refl, ◌∙◌, ltb, if◌then◌else◌, Bool, true, false,
  arith, List, [], ◌∷◌, ◌++◌, append_assoc, codes, Result, ok, fatal, undefined, diverged, ◌>>=◌,
}
use cortex_vm.Word.{sign_bit, word_mod, sign_ext32, sign_ext36}
use cortex_vm.Isa.{opcode, funct, flags, i_ra, i_rd, i_rb, i_imm, s_imm, l_imm, b_imm}
use cortex_vm.Isa.Codes.{
  op_r, op_i, op_s, op_l, op_b, op_sys, op_fr, op_fi, op_fb, op_mr, op_mi, fn_fadd, fn_fsub,
  fn_fmul, fn_fdiv, fn_fsqrt, fn_fabs, fn_ftoi, fn_ftoui, fn_itof, fn_uitof,
}
use cortex_vm.Disassembler.{decimal}
use cortex_vm.Disassembler.Mnemonics.{
  mnemonic_r, mnemonic_i, mnemonic_b, mnemonic_sys, mnemonic_fr, mnemonic_fb, mnemonic_mr,
  mnemonic_mi,
}
use cortex_vm.Disassembler.Lines.{
  digits, signed_decimal, two_operands, line_rrr, line_rri, dis_op_r, dis_op_i, dis_op_s, dis_op_l,
  dis_op_b, dis_op_sys, dis_op_fr, dis_op_fb, dis_op_mr, dis_op_mi,
}
use cortex_vm.Disassembler.Floats.{line_rr, line_rrf, fmt_float, dis_op_fi}
use cortex_vm.Disassembler.Listing.{dis_word}

-- A printer puts its own text before what follows.
abbrev pub Prints : (List ℕ → List ℕ) → Type 0
Prints f = (rest : List ℕ) → f rest ≡ f [] ++ rest

-- The same of a printer that may fail.
abbrev pub MayPrint : (List ℕ → Result (List ℕ)) → Type 0
MayPrint f = (rest line : List ℕ) → f [] ≡ ok line → f rest ≡ ok (line ++ rest)

-- A printer behind another, and behind a text.
Prints-then : (f g : List ℕ → List ℕ) → Prints f → Prints g → Prints (λ rest. f (g rest))
Prints-then f g pf pg rest =
    pf (g rest) ∙ rw (pg rest, pf (g []), append_assoc (f []) (g []) rest) refl

Prints-behind : (text : List ℕ) (f : List ℕ → List ℕ) → Prints f → Prints (λ rest. text ++ f rest)
Prints-behind text f pf rest = rw (pf rest, append_assoc text (f []) rest) refl

Prints-if :
    (b : Bool) (f g : List ℕ → List ℕ)
    → Prints f
    → Prints g
    → Prints (λ rest. if b then f rest else g rest)
Prints-if true f g pf pg = pf
Prints-if false f g pf pg = pg

Prints-decimal : (n : ℕ) → Prints (decimal n)
unfolding decimal
Prints-decimal n rest = ground arith

pub Prints-digits : (fuel n : ℕ) → Prints (digits fuel n)
unfolding digits
Prints-digits zero n rest = refl
Prints-digits (suc fuel) n rest =
    Prints-if (ltb n 10) (λ t. (b'0' + n % 10) ∷ t)
      (λ t. digits fuel (n / 10) ((b'0' + n % 10) ∷ t)) (λ t. refl)
      (Prints-then (digits fuel (n / 10)) (λ t. (b'0' + n % 10) ∷ t) (Prints-digits fuel (n / 10))
        (λ t. refl))
      rest

Prints-signed_decimal : (v : ℕ) → Prints (signed_decimal v)
unfolding signed_decimal
Prints-signed_decimal v =
    Prints-if (ltb v sign_bit) (digits 20 v) (λ t. b'-' ∷ digits 20 (word_mod - v) t)
      (Prints-digits 20 v)
      (Prints-behind (b'-' ∷ []) (digits 20 (word_mod - v)) (Prints-digits 20 (word_mod - v)))

Prints-two_operands : (name : List ℕ) (a b : ℕ) → Prints (two_operands name a b)
unfolding two_operands
Prints-two_operands name a b =
    Prints-behind (b'\t' ∷ name)
      (λ rest. b' ' ∷ b'r' ∷ decimal a (b',' ∷ b' ' ∷ b'r' ∷ decimal b rest))
      (Prints-behind (b' ' ∷ b'r' ∷ []) (λ rest. decimal a (b',' ∷ b' ' ∷ b'r' ∷ decimal b rest))
        (Prints-then (decimal a) (λ rest. b',' ∷ b' ' ∷ b'r' ∷ decimal b rest) (Prints-decimal a)
          (Prints-behind (codes ", r") (decimal b) (Prints-decimal b))))

-- A line of a name and what is printed behind it, if there is one.
MayPrint-name :
    (name : Result (List ℕ)) (f : List ℕ → List ℕ → List ℕ)
    → ((n : List ℕ) → Prints (f n))
    → MayPrint (λ rest. name >>= λ n. ok (f n rest))
MayPrint-name (ok n) f pf rest line h = rw (pf n rest) (cc)
MayPrint-name (fatal code) f pf rest line h = absurd (cc)
MayPrint-name undefined f pf rest line h = absurd (cc)
MayPrint-name diverged f pf rest line h = absurd (cc)

-- A line of two registers and a third operand, and one of two registers alone.
Prints-third :
    (name : List ℕ) (a b : ℕ) (text : List ℕ) (f : List ℕ → List ℕ)
    → Prints f
    → Prints (λ rest. two_operands name a b (text ++ f (10 ∷ rest)))
Prints-third name a b text f pf =
    Prints-then (two_operands name a b) (λ t. text ++ f (10 ∷ t)) (Prints-two_operands name a b)
      (Prints-behind text (λ t. f (10 ∷ t)) (Prints-then f (λ t. 10 ∷ t) pf (λ t. refl)))

Prints-line_rrr : (name : List ℕ) (a b c : ℕ) → Prints (line_rrr name a b c)
unfolding line_rrr
Prints-line_rrr name a b c = Prints-third name a b (codes ", r") (decimal c) (Prints-decimal c)

Prints-line_rri : (name : List ℕ) (a b v : ℕ) → Prints (line_rri name a b v)
unfolding line_rri
Prints-line_rri name a b v =
    Prints-third name a b (codes ", ") (signed_decimal v) (Prints-signed_decimal v)

Prints-line_rr : (name : List ℕ) (a b : ℕ) → Prints (line_rr name a b)
unfolding line_rr
Prints-line_rr name a b = Prints-third name a b [] (λ t. t) (λ t. refl)

Prints-line_rrf : (name : List ℕ) (a b : ℕ) (float : List ℕ) → Prints (line_rrf name a b float)
unfolding line_rrf
Prints-line_rrf name a b float =
    Prints-third name a b (codes ", ") (λ t. float ++ t) (λ t. rw (append_assoc float [] t) refl)

MayPrint-rrr :
    (name : Result (List ℕ)) (a b c : ℕ)
    → MayPrint (λ rest. name >>= λ n. ok (line_rrr n a b c rest))
MayPrint-rrr name a b c = MayPrint-name name (λ n. line_rrr n a b c) (λ n. Prints-line_rrr n a b c)

MayPrint-rri :
    (name : Result (List ℕ)) (a b v : ℕ)
    → MayPrint (λ rest. name >>= λ n. ok (line_rri n a b v rest))
MayPrint-rri name a b v = MayPrint-name name (λ n. line_rri n a b v) (λ n. Prints-line_rri n a b v)

MayPrint-alone :
    (name : Result (List ℕ)) → MayPrint (λ rest. name >>= λ n. ok (b'\t' ∷ (n ++ (10 ∷ rest))))
MayPrint-alone name =
    MayPrint-name name (λ n rest. b'\t' ∷ (n ++ (10 ∷ rest)))
      (λ n. Prints-behind (b'\t' ∷ n) (λ t. 10 ∷ t) (λ t. refl))

MayPrint-plain : (f : List ℕ → List ℕ) → Prints f → MayPrint (λ rest. ok (f rest))
MayPrint-plain f pf rest line h = rw (pf rest) (cc)

MayPrint-fatal : (code : ℕ) → MayPrint (λ rest. fatal code)
MayPrint-fatal code rest line h = absurd (cc)

MayPrint-if :
    (b : Bool) {f g : List ℕ → Result (List ℕ)}
    → MayPrint f
    → MayPrint g
    → MayPrint (λ rest. if b then f rest else g rest)
MayPrint-if true pf pg = pf
MayPrint-if false pf pg = pg

dis_op_fi-MayPrint :
    (format_g : ℕ → List ℕ) (widen : ℕ → ℕ) (w : ℕ) → MayPrint (dis_op_fi format_g widen w)
unfolding dis_op_fi
dis_op_fi-MayPrint format_g widen w =
    let plain = λ (name : List ℕ).
      MayPrint-plain (line_rr name (i_rd w) (i_ra w)) (Prints-line_rr name (i_rd w) (i_ra w)) in
    let float = fmt_float format_g (widen (i_imm w)) in
    let immediate = λ (name : List ℕ).
      MayPrint-plain (line_rrf name (i_rd w) (i_ra w) float)
        (Prints-line_rrf name (i_rd w) (i_ra w) float) in
    MayPrint-if (funct w == fn_fsqrt) (plain (codes "fsqrt")) (
      MayPrint-if (funct w == fn_fabs) (plain (codes "fabs")) (
        MayPrint-if (funct w == fn_ftoi) (plain (codes "ftoi")) (
          MayPrint-if (funct w == fn_ftoui) (plain (codes "ftoui")) (
            MayPrint-if (funct w == fn_itof) (plain (codes "itof")) (
              MayPrint-if (funct w == fn_uitof) (plain (codes "uitof")) (
                MayPrint-if (funct w == fn_fsub)
                  (MayPrint-if (flags w % 2 == 1) (plain (codes "fneg"))
                    (immediate (codes "fsubi")))
                  (MayPrint-if (funct w == fn_fadd) (immediate (codes "faddi")) (
                    MayPrint-if (funct w == fn_fmul) (immediate (codes "fmuli")) (
                      MayPrint-if (funct w == fn_fdiv) (immediate (codes "fdivi"))
                        (MayPrint-fatal 0x0606))))))))))

pub dis_word-MayPrint :
    (format_g : ℕ → List ℕ) (widen : ℕ → ℕ) (w : ℕ) → MayPrint (dis_word format_g widen w)
unfolding dis_word dis_op_r dis_op_i dis_op_s dis_op_l dis_op_b dis_op_sys dis_op_fr dis_op_fb
    dis_op_mr dis_op_mi
dis_word-MayPrint format_g widen w =
    let fn = funct w in
    let imm32 = sign_ext32 (i_imm w) in
    let imm36 = sign_ext36 (s_imm w) in
    MayPrint-if (opcode w == op_r)
      (MayPrint-rrr (mnemonic_r fn (flags w)) (i_rd w) (i_ra w) (i_rb w))
      (MayPrint-if (opcode w == op_i)
        (MayPrint-rri (mnemonic_i fn (flags w)) (i_rd w) (i_ra w) imm32)
        (MayPrint-if (opcode w == op_s) (MayPrint-rri (ok (codes "sw")) (i_ra w) (i_rb w) imm36) (
          MayPrint-if (opcode w == op_l)
            (MayPrint-rri (ok (codes "lw")) (i_rd w) (i_ra w) (sign_ext36 (l_imm w)))
            (MayPrint-if (opcode w == op_b)
              (MayPrint-rri (mnemonic_b fn) (i_ra w) (i_rb w) (sign_ext36 (b_imm w)))
              (MayPrint-if (opcode w == op_sys) (MayPrint-alone (mnemonic_sys fn)) (
                MayPrint-if (opcode w == op_fr)
                  (MayPrint-rrr (mnemonic_fr fn) (i_rd w) (i_ra w) (i_rb w))
                  (MayPrint-if (opcode w == op_fi) (dis_op_fi-MayPrint format_g widen w) (
                    MayPrint-if (opcode w == op_fb)
                      (MayPrint-rri (mnemonic_fb fn) (i_ra w) (i_rb w) (sign_ext36 (b_imm w)))
                      (MayPrint-if (opcode w == op_mr)
                        (MayPrint-rrr (mnemonic_mr fn) (i_rd w) (i_ra w) (i_rb w))
                        (MayPrint-if (opcode w == op_mi)
                          (MayPrint-rri (mnemonic_mi fn) (i_rd w) (i_ra w) imm32)
                          (MayPrint-fatal 0x0600)))))))))))
