-- ===== src/Disassembler/Floats.antt =====
-- `fmtFloat` and `disOpFI` of src/disassembler.c. What `%.9g` gives is a parameter; it fits the buffer
-- of 64 bytes, so that nothing is cut.
use cortex_vm.Prelude.{
  ℕ, ◌%◌, ◌==◌, ◌||◌, not, if◌then◌else◌, Bool, false, List, [], ◌∷◌, ◌++◌, codes, Result, ok,
  fatal,
}
use cortex_vm.Isa.{funct, flags, i_ra, i_rd, i_imm}
use cortex_vm.Isa.Codes.{
  fn_fadd, fn_fsub, fn_fmul, fn_fdiv, fn_fsqrt, fn_fabs, fn_ftoi, fn_ftoui, fn_itof, fn_uitof,
}
use cortex_vm.Disassembler.Lines.{two_operands}

-- `strchr(buf, c) != NULL`
unfoldable pub contains : ℕ → List ℕ → Bool
contains c [] = false
contains c (d ∷ ds) = c == d || contains c ds

-- ".0" before the first `c`.
unfoldable pub insert_point : ℕ → List ℕ → List ℕ
insert_point c [] = []
insert_point c (d ∷ ds) = if d == c then b'.' ∷ b'0' ∷ d ∷ ds else d ∷ insert_point c ds

unfoldable pub fmt_float : (format_g : ℕ → List ℕ) → ℕ → List ℕ
unfolding contains insert_point
fmt_float format_g d =
    let buf = format_g d in
    if contains b'.' buf
    then buf
    else if not (contains b'e' buf || contains b'E' buf)
    then buf ++ codes ".0"
    else insert_point (if contains b'e' buf then b'e' else b'E') buf

-- "\t%s r%d, r%d\n"
unfoldable pub line_rr : (name : List ℕ) (first second : ℕ) → List ℕ → List ℕ
unfolding two_operands
line_rr name first second rest = two_operands name first second (10 ∷ rest)

-- "\t%s r%d, r%d, %s\n"
unfoldable pub line_rrf : (name : List ℕ) (first second : ℕ) (float : List ℕ) → List ℕ → List ℕ
unfolding two_operands
line_rrf name first second float rest =
    two_operands name first second (b',' ∷ b' ' ∷ (float ++ (10 ∷ rest)))

-- `widen` is the cast of a `float` to `double`.
unfoldable pub dis_op_fi : (format_g : ℕ → List ℕ) (widen : ℕ → ℕ) → ℕ → List ℕ → Result (List ℕ)
unfolding line_rr line_rrf
dis_op_fi format_g widen w rest =
    let fn = funct w in
    let float = fmt_float format_g (widen (i_imm w)) in
    let plain = λ (name : List ℕ). ok (line_rr name (i_rd w) (i_ra w) rest) in
    let immediate = λ (name : List ℕ). ok (line_rrf name (i_rd w) (i_ra w) float rest) in
    if fn == fn_fsqrt
    then plain (codes "fsqrt")
    else if fn == fn_fabs
    then plain (codes "fabs")
    else if fn == fn_ftoi
    then plain (codes "ftoi")
    else if fn == fn_ftoui
    then plain (codes "ftoui")
    else if fn == fn_itof
    then plain (codes "itof")
    else if fn == fn_uitof
    then plain (codes "uitof")
    else if fn == fn_fsub
    then (if flags w % 2 == 1 then plain (codes "fneg") else immediate (codes "fsubi"))
    else if fn == fn_fadd
    then immediate (codes "faddi")
    else if fn == fn_fmul
    then immediate (codes "fmuli")
    else if fn == fn_fdiv
    then immediate (codes "fdivi")
    else fatal 0x0606
