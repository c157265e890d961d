-- ===== src/Server/Breakpoints.antt =====
-- `parse_breakpoints` and `parse_regs` of src/server.c on lists of numbers in decimal.
use cortex_vm.Prelude.{
  ℕ, zero, suc, ◌<◌, ◌≡◌, refl, ap, ◌∙◌, leb, ◌==◌, true, false, some, List, [], ◌∷◌, ◌++◌, arith,
}
use cortex_vm.Word.{word_mod}
use cortex_vm.Assembler.{is_digit}
use cortex_vm.Assembler.Immediate.{peek, skip_while, is_space, read_digits}
use cortex_vm.Assembler.Numbers.{
  digits-Shape, skip_while-digits, skip_while-stop, read_digits-digits,
}
use cortex_vm.Disassembler.Lines.{digits}
use cortex_vm.Server.Text.{starts_with, find, take}
use cortex_vm.Server.Numbers.{
  wrap, strtoull, strtoull_digits, strtoull_signed, is_gap, is_last, breakpoint_loop,
  breakpoints_key, parse_breakpoints, more_numbers, numbers,
}

-- A digit starts a number.
strtoull-digit :
    (d : ℕ) (head : List ℕ)
    → is_digit d ≡ true
    → strtoull (d ∷ head)
      ≡ some (wrap false (read_digits 0 (d ∷ head)), skip_while is_digit (d ∷ head))
unfolding strtoull strtoull_signed strtoull_digits
strtoull-digit d head digit =
    let no_space : is_space d ≡ false = ground arith in
    let no_minus : (d == b'-') ≡ false = ground arith in
    let no_plus : (d == b'+') ≡ false = ground arith in
    rw (skip_while-stop is_space d head no_space, no_minus, no_plus, digit) refl

read_digits-stop : (v c : ℕ) (rest : List ℕ) → is_digit c ≡ false → read_digits v (c ∷ rest) ≡ v
unfolding read_digits
read_digits-stop v c rest h = rw h refl

-- A word in decimal, with no digit behind it.
pub strtoull-digits :
    (n c : ℕ) (rest : List ℕ)
    → n < word_mod
    → is_digit c ≡ false
    → strtoull (digits 20 n (c ∷ rest)) ≡ some (n, c ∷ rest)
unfolding wrap
strtoull-digits n c rest small stop =
    let s = digits-Shape 19 n c rest in
    let value : read_digits 0 (digits 20 n (c ∷ rest)) ≡ n =
      read_digits-digits 19 n (c ∷ rest) (omega arith) ∙ read_digits-stop n c rest stop in
    let behind : skip_while is_digit (digits 20 n (c ∷ rest)) ≡ c ∷ rest =
      skip_while-digits 20 n (c ∷ rest) ∙ skip_while-stop is_digit c rest stop in
    let fits : leb word_mod n ≡ false = ground arith in
    rw s.shape (
      strtoull-digit s.first (s.second ∷ s.more) s.digit
      ∙ rw (rw s.shape at value, rw s.shape at behind, fits) refl)

-- One breakpoint, where the next thing is a digit.
breakpoint_loop-digits :
    (left n c : ℕ) (rest pos : List ℕ)
    → n < word_mod
    → is_digit c ≡ false
    → is_last (peek pos) ≡ false
    → skip_while is_gap pos ≡ digits 20 n (c ∷ rest)
    → breakpoint_loop (suc left) pos ≡ n ∷ breakpoint_loop left (c ∷ rest)
unfolding breakpoint_loop
breakpoint_loop-digits left n c rest pos small stop open_list gap =
    let s = digits-Shape 19 n c rest in
    let more : is_last (peek (digits 20 n (c ∷ rest))) ≡ false =
      rw s.shape (ground (arith, s.digit)) in
    rw (open_list, gap, more, strtoull-digits n c rest small stop) refl

-- The numbers are words.
abbrev pub AreWords : List ℕ → Type 0
AreWords [] = Unit
AreWords (n ∷ ns) = (n < word_mod) × AreWords ns

-- What stands behind a number of a list: a character that is no digit.
pub data Stops : List ℕ → Type 0 where
  stops : {c : ℕ} {rest : List ℕ} → is_digit c ≡ false → Stops (c ∷ rest)

skip_gap-digits :
    (n : ℕ) (rest : List ℕ) → Stops rest → skip_while is_gap (digits 20 n rest) ≡ digits 20 n rest
skip_gap-digits n rest (stops {c = c} {rest = more} stop) =
    let s = digits-Shape 19 n c more in
    rw s.shape (skip_while-stop is_gap s.first (s.second ∷ s.more) (ground (arith, s.digit)))

skip_gap-comma : (text : List ℕ) → skip_while is_gap (b',' ∷ text) ≡ skip_while is_gap text
unfolding skip_while
skip_gap-comma text = refl

pub more_numbers-Stops : (ns rest : List ℕ) → Stops (more_numbers ns (b']' ∷ rest))
unfolding more_numbers
more_numbers-Stops [] rest = stops refl
more_numbers-Stops (n ∷ ns) rest = stops refl

-- The next number of the list, behind a comma or not.
breakpoint_loop-next :
    (left n : ℕ) (pos rest : List ℕ)
    → n < word_mod
    → is_last (peek pos) ≡ false
    → Stops rest
    → skip_while is_gap pos ≡ digits 20 n rest
    → breakpoint_loop (suc left) pos ≡ n ∷ breakpoint_loop left rest
breakpoint_loop-next left n pos rest small open_list (stops {c = c} {rest = more} stop) gap =
    breakpoint_loop-digits left n c more pos small stop open_list gap

breakpoint_loop-more_numbers :
    (left : ℕ) (ns rest : List ℕ)
    → AreWords ns
    → breakpoint_loop left (more_numbers ns (b']' ∷ rest)) ≡ take left ns
unfolding more_numbers take
breakpoint_loop-more_numbers zero ns rest small = unfold breakpoint_loop in refl
breakpoint_loop-more_numbers (suc left) [] rest small = unfold breakpoint_loop in refl
breakpoint_loop-more_numbers (suc left) (n ∷ ns) rest (first, more) =
    breakpoint_loop-next left n (b',' ∷ digits 20 n (more_numbers ns (b']' ∷ rest)))
      (more_numbers ns (b']' ∷ rest)) first refl (more_numbers-Stops ns rest)
      (skip_gap-comma (digits 20 n (more_numbers ns (b']' ∷ rest)))
        ∙ skip_gap-digits n (more_numbers ns (b']' ∷ rest)) (more_numbers-Stops ns rest))
    ∙ ap (λ bps. n ∷ bps) (breakpoint_loop-more_numbers left ns rest more)

-- A number does not start with the end of the list.
open_list-digits : (n : ℕ) (rest : List ℕ) → Stops rest → is_last (peek (digits 20 n rest)) ≡ false
open_list-digits n rest (stops {c = c} {rest = more} stop) =
    let s = digits-Shape 19 n c more in rw s.shape (ground (arith, s.digit))

breakpoint_loop-numbers :
    (left : ℕ) (ns rest : List ℕ)
    → AreWords ns
    → breakpoint_loop left (numbers ns (b']' ∷ rest)) ≡ take left ns
unfolding numbers take
breakpoint_loop-numbers zero ns rest small = unfold breakpoint_loop in refl
breakpoint_loop-numbers (suc left) [] rest small = unfold breakpoint_loop in refl
breakpoint_loop-numbers (suc left) (n ∷ ns) rest (first, more) =
    let behind = more_numbers ns (b']' ∷ rest) in
    let stop = more_numbers-Stops ns rest in
    breakpoint_loop-next left n (digits 20 n behind) behind first (open_list-digits n behind stop)
      stop (skip_gap-digits n behind stop)
    ∙ ap (λ bps. n ∷ bps) (breakpoint_loop-more_numbers left ns rest more)

-- From the text of an object that has just a list of words under the key breakpoints,
-- `parse_breakpoints` reads these words, in order, up to the number that it has room for.
pub parse_breakpoints-numbers :
    (bps tail : List ℕ) (max_bps : ℕ)
    → AreWords bps
    → parse_breakpoints (b'{' ∷ (breakpoints_key ++ numbers bps (b']' ∷ b'}' ∷ tail))) max_bps
      ≡ take max_bps bps
unfolding parse_breakpoints find starts_with
parse_breakpoints-numbers bps tail max_bps small =
    breakpoint_loop-numbers max_bps bps (b'}' ∷ tail) small
