-- ===== src/Assembler/Immediate.antt =====
-- `getImm` of src/assembler.c. An `int64_t` is given by its 64-bit pattern.
use cortex_vm.Prelude.{
  ℕ, ◌+◌, ◌-◌, ◌*◌, ◌==◌, ◌&&◌, ◌||◌, ltb, leb, if◌then◌else◌, Bool, true, false, Option, none,
  some, List, [], ◌∷◌, Result, ok, fatal, undefined, ◌>>=◌,
}
use cortex_vm.Word.{u64, word_mod, sign_bit}
use cortex_vm.Machine.{Fpu}
use cortex_vm.Assembler.{to_upper, is_digit}

abbrev pub is_alpha : ℕ → Bool
is_alpha c = leb b'A' (to_upper c) && leb (to_upper c) b'Z'

-- `isalnum(c) || c == '_'`: what a label is made of.
abbrev pub is_label_char : ℕ → Bool
is_label_char c = is_alpha c || is_digit c || c == b'_'

abbrev pub is_xdigit : ℕ → Bool
is_xdigit c = is_digit c || (leb b'A' (to_upper c) && leb (to_upper c) b'F')

abbrev pub is_space : ℕ → Bool
is_space c = c == b' ' || (leb 9 c && leb c 13)

-- `*head`, where the end of the source is the '\0'.
abbrev pub peek : List ℕ → ℕ
peek [] = 0
peek (c ∷ head) = c

-- What lies behind the characters that pass a test, and those characters.
unfoldable pub skip_while : (ℕ → Bool) → List ℕ → List ℕ
skip_while test [] = []
skip_while test (c ∷ head) = let rest = skip_while test head in if test c then rest else c ∷ head

unfoldable pub take_while : (ℕ → Bool) → List ℕ → List ℕ
take_while test [] = []
take_while test (c ∷ head) = let more = take_while test head in if test c then c ∷ more else []

-- The escape sequences of `getImm` and `getData`.
unfoldable pub escape : ℕ → Option ℕ
escape c =
    if c == b'n'
    then some 10
    else if c == b't'
    then some 9
    else if c == b'r'
    then some 13
    else if c == b'0'
    then some 0
    else if c == b'\\'
    then some b'\\'
    else if c == b'\''
    then some b'\''
    else none

-- `(uint64_t)*head` of a `char`, which is signed.
unfoldable pub char_word : ℕ → ℕ
char_word c = if ltb c 128 then c else c + word_mod - 256

-- Behind a character literal's character; past the '\0' there is nothing to read.
unfoldable pub close_quote : ℕ → List ℕ → Result (ℕ × List ℕ)
close_quote v [] = fatal 0x0306
close_quote v (c ∷ head) = if c == b'\'' then ok (v, head) else fatal 0x0306

-- Behind the opening quote.
unfoldable pub escaped_char : List ℕ → Result (ℕ × List ℕ)
unfolding escape close_quote
escaped_char [] = fatal 0x0305
escaped_char (c ∷ head) = elim (escape c) [ none ↦ fatal 0x0305 | some v ↦ close_quote v head ]

unfoldable pub char_literal : List ℕ → Result (ℕ × List ℕ)
unfolding escaped_char char_word close_quote
char_literal [] = undefined
char_literal (c ∷ head) = if c == b'\\' then escaped_char head else close_quote (char_word c) head

-- `toupper(*head) - 55` or `*head - 48`.
abbrev pub digit_value : ℕ → ℕ
digit_value c = if is_digit c then c - 48 else to_upper c - 55

-- The loops over the digits of a base, 16, 2 or 8: the value shifted left, and the digit added.
unfoldable pub read_radix : (base : ℕ) (test : ℕ → Bool) (v : ℕ) → List ℕ → ℕ × List ℕ
read_radix base test v [] = (v, [])
read_radix base test v (c ∷ head) =
    let more = read_radix base test (u64 (u64 (v * base) + digit_value c)) head in
    if test c then more else (v, c ∷ head)

-- Behind the 0 of `0x`, `0b` or `0o`.
unfoldable pub radix_literal : List ℕ → Result (ℕ × List ℕ)
unfolding read_radix
radix_literal [] = fatal 0x0304
radix_literal (c ∷ head) =
    if to_upper c == b'X'
    then ok (read_radix 16 is_xdigit 0 head)
    else if to_upper c == b'B'
    then ok (read_radix 2 (λ d. d == b'1' || d == b'0') 0 head)
    else if to_upper c == b'O'
    then ok (read_radix 8 (λ d. leb b'0' d && leb d b'7') 0 head)
    else fatal 0x0304

-- `strtoll` in base 10: the digits as a number, however large.
unfoldable pub read_digits : ℕ → List ℕ → ℕ
read_digits v [] = v
read_digits v (c ∷ head) =
    let more = read_digits (v * 10 + (c - 48)) head in if is_digit c then more else v

-- The value is cut to the range of `long long`.
unfoldable pub saturate : (negative : Bool) → ℕ → ℕ
saturate true v = if ltb sign_bit v then sign_bit else u64 (word_mod - v)
saturate false v = if ltb v sign_bit then v else sign_bit - 1

-- Digits behind the sign, or none: then nothing is read, and `endptr` is where it started.
unfoldable pub strtoll_digits : (negative : Bool) (start head : List ℕ) → ℕ × List ℕ
strtoll_digits negative start head =
    if is_digit (peek head)
    then (saturate negative (read_digits 0 head), skip_while is_digit head)
    else (0, start)

unfoldable pub strtoll_signed : (start head : List ℕ) → ℕ × List ℕ
strtoll_signed start [] = (0, start)
strtoll_signed start (c ∷ head) =
    if c == b'-'
    then strtoll_digits true start head
    else if c == b'+'
    then strtoll_digits false start head
    else strtoll_digits false start (c ∷ head)

unfoldable pub strtoll : List ℕ → ℕ × List ℕ
strtoll head = strtoll_signed head (skip_while is_space head)

-- Doubles as text: `strtod`, the cast to `float`, and `%.9g`. Doubles and floats are bit patterns.
pub record FloatText : Type 0 where
  pub strtod : List ℕ → ℕ × List ℕ
  pub narrow : ℕ → ℕ
  pub format_g : ℕ → List ℕ

-- What `getImm` finds: a value, and the name of a label that it stands for.
pub record Imm : Type 0 where
  pub value : ℕ
  pub label : Option (List ℕ)
  pub rest : List ℕ

-- `neg ? -(int64_t)temp : (int64_t)temp`, where -INT64_MIN has no meaning.
unfoldable pub signed_imm : (neg : Bool) → ℕ × List ℕ → Result Imm
signed_imm false (v, rest) = ok (record { value = v; label = none; rest = rest })
signed_imm true (v, rest) =
    if v == sign_bit
    then undefined
    else ok (record { value = u64 (word_mod - v); label = none; rest = rest })

-- The digits are those of a float if a point follows.
unfoldable pub number_literal : Fpu → FloatText → (neg : Bool) → List ℕ → Result Imm
number_literal fpu text neg head =
    if peek (skip_while is_digit head) == b'.'
    then (let (d, rest) = text.strtod head in
        ok (record {
          value = text.narrow (if neg then fpu.fneg d else d);
          label = none;
          rest = rest;
        }))
    else signed_imm neg (strtoll head)

abbrev pub is_radix : List ℕ → Bool
is_radix [] = false
is_radix (c ∷ head) = to_upper c == b'X' || to_upper c == b'B' || to_upper c == b'O'

-- Behind the minus sign.
unfoldable pub unsigned_imm : Fpu → FloatText → (neg : Bool) → List ℕ → Result Imm
unsigned_imm fpu text neg [] = number_literal fpu text neg []
unsigned_imm fpu text neg (c ∷ head) =
    if c == b'\''
    then (char_literal head >>= signed_imm neg)
    else if c == b'0' && is_radix head
    then (radix_literal head >>= signed_imm neg)
    else if is_alpha c
    then ok (record {
      value = 0;
      label = some (take_while is_label_char (c ∷ head));
      rest = skip_while is_label_char (c ∷ head);
    })
    else number_literal fpu text neg (c ∷ head)

unfoldable pub get_imm : Fpu → FloatText → List ℕ → Result Imm
get_imm fpu text [] = unsigned_imm fpu text false []
get_imm fpu text (c ∷ head) =
    if c == b'-' then unsigned_imm fpu text true head else unsigned_imm fpu text false (c ∷ head)
