-- ===== src/Assembler/Names/Extensions.antt =====
-- The cases of `getOpcodeFunct` in src/assembler.c for the instructions of the extensions.
use cortex_vm.Prelude.{ℕ, ◌==◌, ◌||◌, if◌then◌else◌, List, [], ◌∷◌, codes, ok}
use cortex_vm.Isa.Codes.{
  ext_float, ext_m, fn_div, fn_divu, fn_fabs, fn_fadd, fn_fbge, fn_fbgt, fn_fble, fn_fblt, fn_fdiv,
  fn_fmul, fn_fsqrt, fn_fsub, fn_ftoi, fn_ftoui, fn_itof, fn_mul, fn_mulh, fn_mulhu, fn_rem,
  fn_remu, fn_uitof, op_fb, op_fi, op_fr, op_mi, op_mr,
}
use cortex_vm.Assembler.{cmp_chars, skip_chars, skip_sep}
use cortex_vm.Assembler.Names.{
  Code, Named, op_failure, named, is_letter, name_a, name_o, name_x, name_s, name_j, name_l, name_b,
  name_h, name_n,
}

abbrev pub multiply : (op fn : ℕ) → Code
multiply op fn = record { op = op; fn = fn; fl = 0; ext = ext_m }

abbrev pub float : (op fn : ℕ) → Code
float op fn = record { op = op; fn = fn; fl = 0; ext = ext_float }

-- `if(skipSep()){ ... } else goto OP_FAILURE;`: the bare name needs a separator behind it.
unfoldable pub bare : List ℕ → Code → Named
unfolding skip_sep
bare [] code = op_failure
bare (c ∷ head) code =
    if c == b' ' || c == b'\t' || c == b',' then ok (code, skip_sep head) else op_failure

-- Behind `mul`.
unfoldable pub name_m_kind : List ℕ → Named
unfolding named bare
name_m_kind head = named head (codes "hu") (multiply op_mr fn_mulhu) (
    named head (codes "h") (multiply op_mr fn_mulh)
      (named head (codes "i") (multiply op_mi fn_mul) (bare head (multiply op_mr fn_mul))))

unfoldable pub name_m : List ℕ → Named
unfolding name_m_kind cmp_chars
name_m head = if cmp_chars head (codes "ul") then name_m_kind (skip_chars 2 head) else op_failure

-- Behind `div`.
unfoldable pub name_d_kind : List ℕ → Named
unfolding named bare
name_d_kind head = named head (codes "ui") (multiply op_mi fn_divu) (
    named head (codes "u") (multiply op_mr fn_divu)
      (named head (codes "i") (multiply op_mi fn_div) (bare head (multiply op_mr fn_div))))

unfoldable pub name_d : List ℕ → Named
unfolding name_d_kind cmp_chars
name_d head = if cmp_chars head (codes "iv") then name_d_kind (skip_chars 2 head) else op_failure

-- Behind `rem`.
unfoldable pub name_r_kind : List ℕ → Named
unfolding named bare
name_r_kind head = named head (codes "ui") (multiply op_mi fn_remu) (
    named head (codes "u") (multiply op_mr fn_remu)
      (named head (codes "i") (multiply op_mi fn_rem) (bare head (multiply op_mr fn_rem))))

unfoldable pub name_r : List ℕ → Named
unfolding name_r_kind cmp_chars
name_r head = if cmp_chars head (codes "em") then name_r_kind (skip_chars 2 head) else op_failure

unfoldable pub name_f : List ℕ → Named
unfolding named
name_f [] = op_failure
name_f (c ∷ head) =
    if is_letter b'a' c
    then (named head (codes "ddi") (float op_fi fn_fadd) (
        named head (codes "dd") (float op_fr fn_fadd)
          (named head (codes "bs") (float op_fi fn_fabs) op_failure)))
    else if is_letter b's' c
    then (named head (codes "ubi") (float op_fi fn_fsub) (
        named head (codes "ub") (float op_fr fn_fsub)
          (named head (codes "qrt") (float op_fi fn_fsqrt) op_failure)))
    else if is_letter b'n' c
    then (named head (codes "eg") (record (float op_fi fn_fsub) { fl = 1 }) op_failure)
    else if is_letter b'm' c
    then (named head (codes "uli") (float op_fi fn_fmul)
        (named head (codes "ul") (float op_fr fn_fmul) op_failure))
    else if is_letter b'd' c
    then (named head (codes "ivi") (float op_fi fn_fdiv)
        (named head (codes "iv") (float op_fr fn_fdiv) op_failure))
    else if is_letter b't' c
    then (named head (codes "oui") (float op_fi fn_ftoui)
        (named head (codes "oi") (float op_fi fn_ftoi) op_failure))
    else if is_letter b'b' c
    then (named head (codes "lt") (float op_fb fn_fblt) (
        named head (codes "le") (float op_fb fn_fble) (
          named head (codes "gt") (float op_fb fn_fbgt)
            (named head (codes "ge") (float op_fb fn_fbge) op_failure))))
    else op_failure

unfoldable pub name_i : List ℕ → Named
unfolding named
name_i head = named head (codes "tof") (float op_fi fn_itof) op_failure

unfoldable pub name_u : List ℕ → Named
unfolding named
name_u head = named head (codes "itof") (float op_fi fn_uitof) op_failure

-- `switch(*head)`
unfoldable pub get_name : List ℕ → Named
unfolding name_a name_o name_x name_s name_j name_l name_b name_h name_n name_m name_d name_r name_f
    name_i name_u
get_name [] = op_failure
get_name (c ∷ head) =
    if is_letter b'a' c
    then name_a head
    else if is_letter b'o' c
    then name_o head
    else if is_letter b'x' c
    then name_x head
    else if is_letter b's' c
    then name_s head
    else if is_letter b'j' c
    then name_j head
    else if is_letter b'l' c
    then name_l head
    else if is_letter b'b' c
    then name_b head
    else if is_letter b'h' c
    then name_h head
    else if is_letter b'n' c
    then name_n head
    else if is_letter b'm' c
    then name_m head
    else if is_letter b'd' c
    then name_d head
    else if is_letter b'r' c
    then name_r head
    else if is_letter b'f' c
    then name_f head
    else if is_letter b'i' c
    then name_i head
    else if is_letter b'u' c
    then name_u head
    else op_failure
