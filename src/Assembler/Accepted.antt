-- ===== src/Assembler/Accepted.antt =====
-- The header of what `assemble` in src/assembler.c returns, and `headerValidate` of src/header.c.
use cortex_vm.Prelude.{
  ℕ, zero, suc, ◌+◌, ◌≤◌, ◌≡◌, refl, inr, arith, Option, none, some, List, [], ◌∷◌, codes, length,
  get_elem?, get_or, set, Result, ok, fatal, ◌>>=◌, Ensures, Ensures-bind, Ensures-any, Ensures-ok,
}
use cortex_vm.Isa.{opcode}
use cortex_vm.Isa.Codes.{header_len, version}
use cortex_vm.Machine.{Fpu}
use cortex_vm.Header.{header_parse, header_validate}
use cortex_vm.Header.Accepted.{IsBinary, validate-parse}
use cortex_vm.Assembler.Immediate.{FloatText}
use cortex_vm.Assembler.Labels.{Label, label_list_find}
use cortex_vm.Assembler.Program.{Output, empty_output, assemble_loop}
use cortex_vm.Assembler.Assemble.{
  patch_word, list_get, list_set, patch_at, patch_all, entry_point, set_header, assemble,
}
use cortex_vm.Assembler.Invariant.{
  HasHeader, Behind, Sound, assemble_loop-Sound, empty_output-Sound, Ensures-elim,
}

-- A binary as the words at its indices.
abbrev pub word_at : List ℕ → ℕ → ℕ
word_at words i = get_or (get_elem? words i) 0

set_words-HasHeader :
    (a b c d i v : ℕ) (code : List ℕ)
    → HasHeader (set ((0x2e3a_434f_5254_0000 + version) ∷ a ∷ b ∷ c ∷ d ∷ code) (suc i) v)
set_words-HasHeader a b c d zero v code = (v, b, c, d, code, refl)
set_words-HasHeader a b c d (suc zero) v code = (a, v, c, d, code, refl)
set_words-HasHeader a b c d (suc (suc zero)) v code = (a, b, v, d, code, refl)
set_words-HasHeader a b c d (suc (suc (suc zero))) v code = (a, b, c, v, code, refl)
set_words-HasHeader a b c d (suc (suc (suc (suc i)))) v code = (a, b, c, d, set code i v, refl)

set-HasHeader : (words : List ℕ) (i v : ℕ) → HasHeader words → HasHeader (set words (suc i) v)
set-HasHeader words i v (a, b, c, d, code, e) = rw e (set_words-HasHeader a b c d i v code)

-- The first word of the header is no instruction that could be patched.
first_word-no_patch :
    (a b c d target : ℕ) (code words : List ℕ) (k : ℕ → Result (List ℕ))
    → words ≡ (0x2e3a_434f_5254_0000 + version) ∷ a ∷ b ∷ c ∷ d ∷ code
    → (list_get words 0 >>= λ w. patch_word w 0 target >>= k) ≡ fatal 0x030b
unfolding list_get patch_word opcode
first_word-no_patch a b c d target code words k e = rw e refl

patch_at-HasHeader :
    (at : ℕ) (found : Option Label) (words : List ℕ)
    → HasHeader words
    → Ensures HasHeader (patch_at at found words)
unfolding patch_at list_set
patch_at-HasHeader at none words h = tt
patch_at-HasHeader zero (some r) words (a, b, c, d, code, e) =
    rw (first_word-no_patch a b c d r.at code words (λ v. list_set words 0 v) e) tt
patch_at-HasHeader (suc at) (some r) words h =
    Ensures-any HasHeader (list_get words (suc at)) _ λ w.
      Ensures-any HasHeader (patch_word w (suc at) r.at) _ λ v.
        Ensures-elim HasHeader (get_elem? words (suc at)) _ _ tt λ old. set-HasHeader words at v h

patch_all-HasHeader :
    (labels patches : List Label) (words : List ℕ)
    → HasHeader words
    → Ensures HasHeader (patch_all labels patches words)
unfolding patch_all
patch_all-HasHeader labels [] words h = h
patch_all-HasHeader labels (p ∷ ps) words h =
    Ensures-bind HasHeader HasHeader (patch_at p.at (label_list_find labels p.name) words) _
      (patch_at-HasHeader p.at (label_list_find labels p.name) words h)
      (patch_all-HasHeader labels ps)

entry_point-lower :
    (labels : List Label) (name : List ℕ)
    → Behind labels
    → header_len ≤ entry_point (label_list_find labels name)
unfolding entry_point label_list_find
entry_point-lower [] name h = omega arith
entry_point-lower (l ∷ ls) name (here, later) = ground (arith, entry_point-lower ls name later)

-- What is set in the header.
set_header-IsBinary :
    (out : Output) (words : List ℕ)
    → Sound out
    → HasHeader words
    → IsBinary (length (set_header out words)) (word_at (set_header out words))
unfolding set_header
set_header-IsBinary out words s (a, b, c, d, code, e) = rw e (record {
  first = inr refl;
  length_word = refl;
  entry_lower = entry_point-lower out.labels (codes "main") s.labels;
  flags_word = s.extensions;
})

abbrev pub IsImage : List ℕ → Type 0
IsImage words = IsBinary (length words) (word_at words)

pub assemble-IsImage :
    (fpu : Fpu) (text : FloatText) (fuel : ℕ) (source : List ℕ)
    → Ensures IsImage (assemble fpu text fuel source)
unfolding assemble
assemble-IsImage fpu text fuel source =
    Ensures-bind Sound IsImage (assemble_loop fpu text fuel source empty_output) _
      (assemble_loop-Sound fpu text fuel source empty_output empty_output-Sound)
      λ out s.
        Ensures-bind HasHeader IsImage (patch_all out.labels out.patches out.words) _
          (patch_all-HasHeader out.labels out.patches out.words s.header)
          λ words h. set_header-IsBinary out words s h

-- Whatever the source, `headerValidate` accepts every binary that `assemble` returns, for the size
-- that it has: its entry point is no word of the header, it asks for no unknown extension, and the
-- first word and the length are right.
pub header_validate-assemble :
    (fpu : Fpu) (text : FloatText) (fuel : ℕ) (source words : List ℕ)
    → assemble fpu text fuel source ≡ ok words
    → header_validate (length words) (header_parse (word_at words))
      ≡ ok (header_parse (word_at words))
header_validate-assemble fpu text fuel source words h =
    validate-parse (length words) (word_at words) (
      Ensures-ok IsImage (assemble fpu text fuel source) words
        (assemble-IsImage fpu text fuel source) h)
