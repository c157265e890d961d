-- ===== src/Assembler/Data.antt =====
-- `getData` of src/assembler.c.
use cortex_vm.Prelude.{
  ℕ, ◌==◌, if◌then◌else◌, Option, none, some, List, [], ◌∷◌, Result, ok, fatal, ◌>>=◌,
}
use cortex_vm.Machine.{Fpu}
use cortex_vm.Assembler.{is_digit}
use cortex_vm.Assembler.Immediate.{FloatText, escape, char_word, peek, skip_while, get_imm}

-- Words, the label that stands for the last of them, and the source behind.
pub record Data : Type 0 where
  pub values : List ℕ
  pub label : Option (List ℕ)
  pub rest : List ℕ

-- Behind the opening quote; a '\0' is put behind the characters.
unfoldable pub string_data : List ℕ → Result (List ℕ × List ℕ)
unfolding escape char_word
string_data [] = fatal 0x030e
string_data (c ∷ []) =
    if c == b'"' then ok (0 ∷ [], []) else if c == b'\\' then fatal 0x0305 else fatal 0x030e
string_data (c ∷ d ∷ head) =
    let next = string_data (d ∷ head) >>= λ (vs, rest). ok (char_word c ∷ vs, rest) in
    let after_escape = string_data head in
    if c == b'"'
    then ok (0 ∷ [], d ∷ head)
    else if c == b'\\'
    then elim (escape d) [
      | none ↦ fatal 0x0305
      | some v ↦ after_escape >>= λ (vs, rest). ok (v ∷ vs, rest)
    ]
    else next

-- `if(*peek == '-') peek++;`
abbrev pub skip_minus : List ℕ → List ℕ
skip_minus [] = []
skip_minus (c ∷ head) = if c == b'-' then head else c ∷ head

unfoldable pub number_data : Fpu → FloatText → List ℕ → Result Data
unfolding skip_while
number_data fpu text head =
    if peek (skip_while is_digit (skip_minus head)) == b'.'
    then (let (d, rest) = text.strtod head in
        ok (record { values = d ∷ []; label = none; rest = rest }))
    else (get_imm fpu text head >>= λ imm.
        ok (record { values = imm.value ∷ []; label = imm.label; rest = imm.rest }))

unfoldable pub get_data : Fpu → FloatText → List ℕ → Result Data
unfolding string_data number_data
get_data fpu text [] = number_data fpu text []
get_data fpu text (c ∷ head) =
    if c == b'"'
    then (string_data head >>= λ (vs, rest). ok (record { values = vs; label = none; rest = rest }))
    else number_data fpu text (c ∷ head)
