-- ===== src/Assembler/Numbers.antt =====
-- `getImm` of the assembler on the decimal numbers that the disassembler prints.
use native.Mathlib.Decide.{dec_lt}
use native.Mathlib.Nat.{pow-suc}
use cortex_vm.Prelude.{
  ℕ, zero, suc, ◌+◌, ◌-◌, ◌*◌, ◌/◌, ◌%◌, ◌^◌, ◌<◌, ◌≡◌, ◌≢◌, ◌⊎◌, inl, inr, refl, ◌∙◌, ltb, ◌==◌,
  ◌&&◌, Bool, true, false, none, List, ◌∷◌, Result, ok, arith, lt→ltb, le→ltb, ne→==, Bool-cases,
}
use cortex_vm.Word.{word_mod, sign_bit, u64}
use cortex_vm.Machine.{Fpu}
use cortex_vm.Assembler.{is_digit, skip_sep}
use cortex_vm.Assembler.Immediate.{
  FloatText, Imm, skip_while, read_digits, saturate, strtoll, strtoll_signed, strtoll_digits,
  signed_imm, number_literal, unsigned_imm, get_imm, is_space, is_radix, is_alpha,
}
use cortex_vm.Disassembler.Lines.{digits, signed_decimal}

-- The digits of a number stand before what follows them, and at least one of them.
pub record Shape (c : ℕ) (text : List ℕ) : Type 0 where
  pub first : ℕ
  pub second : ℕ
  pub more : List ℕ
  pub digit : is_digit first ≡ true
  pub next : (is_digit second ≡ true) ⊎ (second ≡ c)
  pub shape : text ≡ first ∷ second ∷ more

digit_char : (n : ℕ) → is_digit (b'0' + n % 10) ≡ true
digit_char n = ground arith

pub digits-Shape : (fuel n c : ℕ) (rest : List ℕ) → Shape c (digits (suc fuel) n (c ∷ rest))
unfolding digits
digits-Shape zero n c rest = record {
  first = b'0' + n % 10;
  second = c;
  more = rest;
  digit = digit_char n;
  next = inr refl;
  shape = ground arith;
}
digits-Shape (suc fuel) n c rest = elim (dec_lt n 10) [
  | yes last ↦ record {
    first = b'0' + n % 10;
    second = c;
    more = rest;
    digit = digit_char n;
    next = inr refl;
    shape = rw (lt→ltb n 10 last) refl;
  }
  | no longer ↦
      let s = digits-Shape fuel (n / 10) (b'0' + n % 10) (c ∷ rest) in
      record {
        first = s.first;
        second = s.second;
        more = s.more;
        digit = s.digit;
        next = inl (ground (arith, digit_char n, s.next));
        shape = rw (le→ltb n 10 (omega arith)) s.shape;
      }
]

pub skip_while-digits :
    (fuel n : ℕ) (rest : List ℕ)
    → skip_while is_digit (digits fuel n rest) ≡ skip_while is_digit rest
unfolding digits
skip_while-digits zero n rest = refl
skip_while-digits (suc fuel) n rest =
    let last : skip_while is_digit ((b'0' + n % 10) ∷ rest) ≡ skip_while is_digit rest =
      unfold skip_while in rw (digit_char n) refl in
    elim (dec_lt n 10) [
      | yes done ↦ rw (lt→ltb n 10 done) last
      | no longer ↦
          rw (le→ltb n 10 (omega arith))
            (skip_while-digits fuel (n / 10) ((b'0' + n % 10) ∷ rest) ∙ last)
    ]

read_digits-digit :
    (v n : ℕ) (rest : List ℕ)
    → read_digits v ((b'0' + n % 10) ∷ rest) ≡ read_digits (v * 10 + n % 10) rest
unfolding read_digits
read_digits-digit v n rest =
    let value : b'0' + n % 10 - 48 ≡ n % 10 = omega arith in rw (digit_char n, value) refl

read_digits-last :
    (n : ℕ) (rest : List ℕ) → n < 10 → read_digits 0 ((b'0' + n % 10) ∷ rest) ≡ read_digits n rest
read_digits-last n rest h =
    let value : 0 * 10 + n % 10 ≡ n = omega arith in rw (read_digits-digit 0 n rest, value) refl

pub read_digits-digits :
    (fuel n : ℕ) (rest : List ℕ)
    → n < 10 ^ suc fuel
    → read_digits 0 (digits (suc fuel) n rest) ≡ read_digits n rest
unfolding digits
read_digits-digits zero n rest h =
    let small : n < 10 = omega (arith, pow-suc 10 0) in
    rw (lt→ltb n 10 small) (read_digits-last n rest small)
read_digits-digits (suc fuel) n rest h = elim (dec_lt n 10) [
  | yes small ↦ rw (lt→ltb n 10 small) (read_digits-last n rest small)
  | no longer ↦
      let value : n / 10 * 10 + n % 10 ≡ n = omega arith in
      rw (le→ltb n 10 (omega arith)) (
        read_digits-digits fuel (n / 10) ((b'0' + n % 10) ∷ rest)
          (omega (arith, pow-suc 10 (suc fuel)))
        ∙ read_digits-digit (n / 10) n rest
        ∙ rw value refl)
]

pub skip_sep-digit : (d : ℕ) (head : List ℕ) → is_digit d ≡ true → skip_sep (d ∷ head) ≡ d ∷ head
unfolding skip_sep
skip_sep-digit d head h = ground arith

pub skip_while-stop :
    (test : ℕ → Bool) (d : ℕ) (head : List ℕ)
    → test d ≡ false
    → skip_while test (d ∷ head) ≡ d ∷ head
unfolding skip_while
skip_while-stop test d head h = rw h refl

strtoll-number :
    (d n : ℕ) (head rest : List ℕ)
    → is_digit d ≡ true
    → read_digits 0 (d ∷ head) ≡ n
    → skip_while is_digit (d ∷ head) ≡ rest
    → strtoll (d ∷ head) ≡ (saturate false n, rest)
unfolding strtoll strtoll_signed strtoll_digits
strtoll-number d n head rest digit value behind =
    let no_space : is_space d ≡ false = ground arith in
    let no_minus : (d == b'-') ≡ false = ground arith in
    let no_plus : (d == b'+') ≡ false = ground arith in
    rw (skip_while-stop is_space d head no_space, no_minus, no_plus, digit, value, behind) refl

module _ (fpu : Fpu) (text : FloatText) where
  number_literal-number :
      (neg : Bool) (d n : ℕ) (head rest : List ℕ)
      → is_digit d ≡ true
      → read_digits 0 (d ∷ head) ≡ n
      → skip_while is_digit (d ∷ head) ≡ 10 ∷ rest
      → number_literal fpu text neg (d ∷ head) ≡ signed_imm neg (saturate false n, 10 ∷ rest)
  unfolding number_literal
  number_literal-number neg d n head rest digit value behind =
      rw (strtoll-number d n head (10 ∷ rest) digit value behind, behind) refl

  -- A number without a sign, from its first two characters on.
  unsigned_imm-number :
      (neg : Bool) (d e n : ℕ) (more rest : List ℕ)
      → is_digit d ≡ true
      → (is_digit e ≡ true) ⊎ (e ≡ 10)
      → read_digits 0 (d ∷ e ∷ more) ≡ n
      → skip_while is_digit (d ∷ e ∷ more) ≡ 10 ∷ rest
      → unsigned_imm fpu text neg (d ∷ e ∷ more) ≡ signed_imm neg (saturate false n, 10 ∷ rest)
  unfolding unsigned_imm
  unsigned_imm-number neg d e n more rest digit next value behind =
      let no_quote : (d == b'\'') ≡ false = ground arith in
      let no_radix : (d == b'0' && is_radix (e ∷ more)) ≡ false = ground arith in
      let no_letter : is_alpha d ≡ false = ground arith in
      rw (no_quote, no_radix, no_letter)
        (number_literal-number neg d n (e ∷ more) rest digit value behind)

  get_imm-digit :
      (d : ℕ) (head : List ℕ)
      → is_digit d ≡ true
      → get_imm fpu text (d ∷ head) ≡ unsigned_imm fpu text false (d ∷ head)
  unfolding get_imm
  get_imm-digit d head h = let no_minus : (d == b'-') ≡ false = ground arith in rw no_minus refl

  -- The digits of a number below 10 ^ 20, with a newline behind them.
  unsigned_imm-digits :
      (neg : Bool) (n : ℕ) (rest : List ℕ)
      → n < 10 ^ 20
      → unsigned_imm fpu text neg (digits 20 n (10 ∷ rest))
        ≡ signed_imm neg (saturate false n, 10 ∷ rest)
  unfolding read_digits skip_while
  unsigned_imm-digits neg n rest small =
      let s = digits-Shape 19 n 10 rest in
      let value = read_digits-digits 19 n (10 ∷ rest) small in
      let behind = skip_while-digits 20 n (10 ∷ rest) in
      rw s.shape (
        unsigned_imm-number neg s.first s.second n s.more rest s.digit s.next (rw s.shape at value)
          (rw s.shape at behind))

  get_imm-digits :
      (n : ℕ) (rest : List ℕ)
      → get_imm fpu text (digits 20 n (10 ∷ rest))
        ≡ unsigned_imm fpu text false (digits 20 n (10 ∷ rest))
  get_imm-digits n rest =
      let s = digits-Shape 19 n 10 rest in
      rw s.shape (get_imm-digit s.first (s.second ∷ s.more) s.digit)

  abbrev pub number : ℕ → List ℕ → Result Imm
  number v rest = ok (record { value = v; label = none; rest = rest })

  signed_imm-positive :
      (v : ℕ) (rest : List ℕ)
      → v < sign_bit
      → signed_imm false (saturate false v, rest) ≡ number v rest
  unfolding signed_imm saturate
  signed_imm-positive v rest h = rw (lt→ltb v sign_bit h) refl

  signed_imm-negative :
      (v : ℕ) (rest : List ℕ)
      → sign_bit < v
      → v < word_mod
      → signed_imm true (saturate false (word_mod - v), rest) ≡ number v rest
  unfolding signed_imm saturate
  signed_imm-negative v rest lo hi =
      let value : u64 (word_mod - (word_mod - v)) ≡ v = omega arith in
      rw
        (
          lt→ltb (word_mod - v) sign_bit (omega arith),
          ne→== (word_mod - v) sign_bit (omega arith),
          value,
        )
        refl

  get_imm-minus : (head : List ℕ) → get_imm fpu text (b'-' ∷ head) ≡ unsigned_imm fpu text true head
  unfolding get_imm
  get_imm-minus head = refl

  -- `getImm` reads back from a line a 64-bit number other than -2 ^ 63 that was printed by `%lld`.
  pub get_imm-signed_decimal :
      (v : ℕ) (rest : List ℕ)
      → v < word_mod
      → v ≢ sign_bit
      → get_imm fpu text (signed_decimal v (10 ∷ rest)) ≡ number v (10 ∷ rest)
  unfolding signed_decimal
  get_imm-signed_decimal v rest small proper = elim (dec_lt v sign_bit) [
    | yes positive ↦ rw (lt→ltb v sign_bit positive) (
        get_imm-digits v rest
        ∙ unsigned_imm-digits false v rest (omega arith)
        ∙ signed_imm-positive v (10 ∷ rest) positive)
    | no negative ↦ rw (le→ltb v sign_bit (omega arith)) (
        get_imm-minus (digits 20 (word_mod - v) (10 ∷ rest))
        ∙ unsigned_imm-digits true (word_mod - v) rest (omega arith)
        ∙ signed_imm-negative v (10 ∷ rest) (omega arith) small)
  ]

skip_sep-comma : (head : List ℕ) → skip_sep (b',' ∷ b' ' ∷ head) ≡ skip_sep head
unfolding skip_sep
skip_sep-comma head = refl

pub skip_sep-signed_decimal :
    (v : ℕ) (rest : List ℕ)
    → skip_sep (b',' ∷ b' ' ∷ signed_decimal v (10 ∷ rest)) ≡ signed_decimal v (10 ∷ rest)
unfolding signed_decimal
skip_sep-signed_decimal v rest = elim (Bool-cases (ltb v sign_bit)) [
  | inl positive ↦
      let s = digits-Shape 19 v 10 rest in
      rw (positive, s.shape)
        (skip_sep-comma (s.first ∷ s.second ∷ s.more)
          ∙ skip_sep-digit s.first (s.second ∷ s.more) s.digit)
  | inr negative ↦ rw negative (unfold skip_sep in refl)
]
