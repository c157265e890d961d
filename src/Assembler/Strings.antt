-- ===== src/Assembler/Strings.antt =====
-- The data section of src/assembler.c, as `disassemble` of src/disassembler.c prints it.
use cortex_vm.Prelude.{
  ℕ, zero, suc, ◌+◌, ◌-◌, ◌/◌, ◌%◌, ◌≤◌, ◌<◌, ◌≡◌, ◌≢◌, ◌==◌, refl, ap, ◌∙◌, sym, arith, Bool,
  Bool-cases, inl, inr, true, false, ltb, leb, lt→ltb, if◌then◌else◌, none, some, List, [], ◌∷◌,
  ◌++◌, append_assoc, codes, length, Result, ok, fatal, ◌>>=◌, bind_inversion,
}
use cortex_vm.Machine.{Fpu}
use cortex_vm.Word.{sign_bit}
use cortex_vm.Assembler.{skip_sep, is_digit}
use cortex_vm.Assembler.Numbers.{
  skip_while-stop, skip_sep-digit, digits-Shape, skip_while-digits, get_imm-signed_decimal,
}
use cortex_vm.Disassembler.Append.{Prints-digits}
use cortex_vm.Disassembler.Lines.{digits, signed_decimal}
use cortex_vm.Assembler.Immediate.{FloatText, escape, char_word, skip_while, is_label_char, get_imm}
use cortex_vm.Assembler.Data.{string_data, get_data, number_data}
use cortex_vm.Assembler.Program.{Output, append_words, data_section}
use cortex_vm.Assembler.Listings.{ok_injective}
use cortex_vm.Disassembler.Program.{escaped, string_body, string_line, number_line}

-- A character below 128 that stands for itself between quotes.
string_data-plain :
    (c : ℕ) (tail vs rest : List ℕ)
    → c < 128
    → c ≢ b'"'
    → c ≢ b'\\'
    → string_data tail ≡ ok (vs, rest)
    → string_data (c ∷ tail) ≡ ok (c ∷ vs, rest)
unfolding string_data char_word
string_data-plain c [] vs rest small no_quote no_escape read = absurd (cc)
string_data-plain c (d ∷ tail) vs rest small no_quote no_escape read = ground (arith, read)

string_data-escape :
    (d v : ℕ) (tail vs rest : List ℕ)
    → escape d ≡ some v
    → string_data tail ≡ ok (vs, rest)
    → string_data (b'\\' ∷ d ∷ tail) ≡ ok (v ∷ vs, rest)
unfolding string_data
string_data-escape d v tail vs rest known read = rw (known, read) refl

string_data-escaped :
    (c : ℕ) (tail vs rest : List ℕ)
    → c < 128
    → c ≢ b'"'
    → string_data tail ≡ ok (vs, rest)
    → string_data (escaped c ++ tail) ≡ ok (c ∷ vs, rest)
unfolding escaped escape
string_data-escaped c tail vs rest small no_quote read = ground (
  arith,
  string_data-escape b'n' 10 tail vs rest refl read,
  string_data-escape b't' 9 tail vs rest refl read,
  string_data-escape b'r' 13 tail vs rest refl read,
  string_data-escape b'\\' b'\\' tail vs rest refl read,
  string_data-plain c tail vs rest small no_quote,
)

-- The `left` words from `k` on.
abbrev pub slice : (buff : ℕ → ℕ) (left k : ℕ) → List ℕ
slice buff zero k = []
slice buff (suc left) k = buff k ∷ slice buff left (suc k)

-- A character that `getData` reads back from between quotes.
abbrev pub Quotable : ℕ → Type 0
Quotable c = (c < 128) × (c ≢ b'"')

pub past_guard :
    {A : Type 0} (b : Bool) (code : ℕ) (r : Result A) (a : A)
    → (if b then fatal code else r) ≡ ok a
    → r ≡ ok a
past_guard true code r a h = absurd (cc)
past_guard false code r a h = h

string_data-string_body :
    (buff : ℕ → ℕ) (left k pos : ℕ) (body rest : List ℕ)
    → ((j : ℕ) → k ≤ j → j < k + left → Quotable (buff j))
    → string_body buff left k pos ≡ ok body
    → string_data (body ++ rest) ≡ ok (slice buff left k ++ (0 ∷ []), 10 ∷ rest)
unfolding string_body string_data
string_data-string_body buff zero k pos body rest quotable made =
    rw (sym (ok_injective (b'"' ∷ 10 ∷ []) body made)) refl
string_data-string_body buff (suc left) k pos body rest quotable made =
    let c = buff k in
    let later = string_body buff left (suc k) (pos + length (escaped c)) in
    let print = λ (tail : List ℕ). ok (escaped c ++ tail) in
    let (tail, printed, joined) =
      bind_inversion later print (past_guard (leb 4092 pos) 0xe021 (later >>= print) body made) in
    let (small, no_quote) = quotable k (omega arith) (omega arith) in
    ap (λ t. string_data (t ++ rest)) (ok_injective body (escaped c ++ tail) (sym joined))
    ∙ ap string_data (append_assoc (escaped c) tail rest)
    ∙ string_data-escaped c (tail ++ rest) (slice buff left (suc k) ++ (0 ∷ [])) (10 ∷ rest) small
        no_quote
        (string_data-string_body buff left (suc k) (pos + length (escaped c)) tail rest
          (λ j lo hi. quotable j (omega arith) (omega arith)) printed)

signed_decimal-positive :
    (v : ℕ) (rest : List ℕ) → v < sign_bit → signed_decimal v rest ≡ digits 20 v rest
unfolding signed_decimal
signed_decimal-positive v rest small = rw (lt→ltb v sign_bit small) refl

skip_sep-tab : (head : List ℕ) → skip_sep (9 ∷ head) ≡ skip_sep head
unfolding skip_sep
skip_sep-tab head = refl

digits-label :
    (fuel n : ℕ) (rest : List ℕ)
    → skip_while is_label_char (digits fuel n rest) ≡ skip_while is_label_char rest
unfolding digits skip_while
digits-label zero n rest = refl
digits-label (suc fuel) n rest =
    let last = b'0' + n % 10 in
    let passes : is_label_char last ≡ true = ground arith in
    let here : skip_while is_label_char (last ∷ rest) ≡ skip_while is_label_char rest =
      rw passes refl in
    elim (Bool-cases (ltb n 10)) [
      | inl one ↦ rw one here
      | inr more ↦ rw more (digits-label fuel (n / 10) (last ∷ rest) ∙ here)
    ]

module _ (fpu : Fpu) (text : FloatText) (buff : ℕ → ℕ) where
  quoted_line :
      (fuel : ℕ) (tail vs rest : List ℕ) (out : Output)
      → string_data tail ≡ ok (vs, 10 ∷ rest)
      → data_section fpu text (suc (suc fuel)) (codes "    \"" ++ tail) out
        ≡ data_section fpu text fuel rest (append_words vs out)
  unfolding data_section skip_sep get_data skip_while
  quoted_line fuel tail vs rest out read = rw read refl

  -- Two rounds of the loop over the data section take the line of a string.
  pub string_line-read :
      (fuel i j : ℕ) (line rest : List ℕ) (out : Output)
      → ((k : ℕ) → i ≤ k → k < j → Quotable (buff k))
      → i ≤ j
      → string_line buff i j ≡ ok line
      → data_section fpu text (suc (suc fuel)) (line ++ rest) out
        ≡ data_section fpu text fuel rest (append_words (slice buff (j - i) i ++ (0 ∷ [])) out)
  unfolding string_line
  string_line-read fuel i j line rest out quotable order made =
      let (body, printed, joined) = bind_inversion (string_body buff (j - i) i 5) _ made in
      ap (λ l. data_section fpu text (suc (suc fuel)) (l ++ rest) out)
        (ok_injective line (codes "    \"" ++ body) (sym joined))
      ∙ quoted_line fuel (body ++ rest) (slice buff (j - i) i ++ (0 ∷ [])) rest out (
          string_data-string_body buff (j - i) i 5 body rest
            (λ k lo hi. quotable k lo (omega arith)) printed)

  get_data-number :
      (d v : ℕ) (head rest : List ℕ)
      → is_digit d ≡ true
      → skip_while is_digit (d ∷ head) ≡ 10 ∷ rest
      → get_imm fpu text (d ∷ head) ≡ ok (record { value = v; label = none; rest = 10 ∷ rest })
      → get_data fpu text (d ∷ head)
        ≡ ok (record { values = v ∷ []; label = none; rest = 10 ∷ rest })
  unfolding get_data number_data
  get_data-number d v head rest digit no_point read =
      let no_quote : (d == b'"') ≡ false = ground arith in
      let no_minus : (d == b'-') ≡ false = ground arith in
      rw (no_quote, no_minus, no_point, read) refl

  -- A number behind a tab.
  number_round :
      (fuel d v : ℕ) (head rest : List ℕ) (out : Output)
      → is_digit d ≡ true
      → skip_while is_label_char (d ∷ head) ≡ 10 ∷ rest
      → skip_while is_digit (d ∷ head) ≡ 10 ∷ rest
      → get_imm fpu text (d ∷ head) ≡ ok (record { value = v; label = none; rest = 10 ∷ rest })
      → data_section fpu text (suc (suc fuel)) (9 ∷ d ∷ head) out
        ≡ data_section fpu text fuel rest (append_words (v ∷ []) out)
  unfolding data_section
  number_round fuel d v head rest out digit no_label no_point read =
      let no_comment : (d == b';') ≡ false = ground arith in
      let here : skip_sep (9 ∷ d ∷ head) ≡ d ∷ head =
        skip_sep-tab (d ∷ head) ∙ skip_sep-digit d head digit in
      rw (here, no_comment, no_label, here, get_data-number d v head rest digit no_point read) refl

  -- So do they the line of a number.
  pub number_line-read :
      (fuel i : ℕ) (rest : List ℕ) (out : Output)
      → buff i < sign_bit
      → data_section fpu text (suc (suc fuel)) (number_line buff i ++ rest) out
        ≡ data_section fpu text fuel rest (append_words (buff i ∷ []) out)
  unfolding number_line
  number_line-read fuel i rest out small =
      let v = buff i in
      let s = digits-Shape 19 v 10 rest in
      let joined : digits 20 v (10 ∷ []) ++ rest ≡ digits 20 v (10 ∷ rest) =
        ap (λ t. t ++ rest) (Prints-digits 20 v (10 ∷ []))
        ∙ append_assoc (digits 20 v []) (10 ∷ []) rest
        ∙ sym (Prints-digits 20 v (10 ∷ rest)) in
      let shape = s.shape in
      rw (joined, shape)
        (number_round fuel s.first v (s.second ∷ s.more) rest out s.digit
          (rw (sym shape)
            (digits-label 20 v (10 ∷ rest) ∙ skip_while-stop is_label_char 10 rest refl))
          (rw (sym shape)
            (skip_while-digits 20 v (10 ∷ rest) ∙ skip_while-stop is_digit 10 rest refl))
          (rw (sym shape, sym (signed_decimal-positive v (10 ∷ rest) small))
            (get_imm-signed_decimal fpu text v rest (omega arith) (omega arith))))
