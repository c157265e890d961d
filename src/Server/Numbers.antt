-- ===== src/Server/Numbers.antt =====
-- The numbers that src/server.c reads: `strtoull`, `parse_breakpoints` and `parse_regs`.
use cortex_vm.Prelude.{
  ℕ, zero, suc, ◌-◌, leb, ◌==◌, ◌||◌, if◌then◌else◌, Bool, true, false, Option, none, some, List,
  [], ◌∷◌, codes,
}
use cortex_vm.Word.{word_mod}
use cortex_vm.Assembler.{is_digit}
use cortex_vm.Assembler.Immediate.{peek, skip_while, is_space, read_digits}
use cortex_vm.Disassembler.Lines.{unsigned_decimal}
use cortex_vm.Server.Text.{starts_with, find}

-- The value that `strtoull` gives: cut at ULLONG_MAX, or negated in `unsigned long long`.
unfoldable pub wrap : (negative : Bool) → ℕ → ℕ
wrap negative v =
    if leb word_mod v
    then word_mod - 1
    else if negative
    then (if v == 0 then 0 else word_mod - v)
    else v

-- Digits behind the sign, or none: then nothing is converted.
unfoldable pub strtoull_digits : (negative : Bool) → List ℕ → Option (ℕ × List ℕ)
strtoull_digits negative head =
    if is_digit (peek head)
    then some (wrap negative (read_digits 0 head), skip_while is_digit head)
    else none

unfoldable pub strtoull_signed : List ℕ → Option (ℕ × List ℕ)
strtoull_signed [] = none
strtoull_signed (c ∷ head) =
    if c == b'-'
    then strtoull_digits true head
    else if c == b'+'
    then strtoull_digits false head
    else strtoull_digits false (c ∷ head)

-- `strtoull(pos, &end, 10)`: the value and what stands at `end`. Where nothing is converted, the
-- value is 0 and `end` is `pos`.
unfoldable pub strtoull : List ℕ → Option (ℕ × List ℕ)
strtoull pos = strtoull_signed (skip_while is_space pos)

-- What separates the breakpoints.
abbrev pub is_gap : ℕ → Bool
is_gap c = c == b' ' || c == b','

abbrev pub is_last : ℕ → Bool
is_last c = c == b']' || c == 0

-- The loop of `parse_breakpoints`, which has room for `left` more.
unfoldable pub breakpoint_loop : (left : ℕ) → List ℕ → List ℕ
breakpoint_loop zero pos = []
breakpoint_loop (suc left) pos =
    if is_last (peek pos)
    then []
    else if is_last (peek (skip_while is_gap pos))
    then []
    else elim (strtoull (skip_while is_gap pos)) [
      | none ↦ 0 ∷ []
      | some (bp, end) ↦ bp ∷ breakpoint_loop left end
    ]

abbrev pub breakpoints_key : List ℕ
breakpoints_key = codes "\"breakpoints\":["

unfoldable pub parse_breakpoints : (body : List ℕ) (max_bps : ℕ) → List ℕ
parse_breakpoints body max_bps = elim (find breakpoints_key body) [
  | none ↦ []
  | some pos ↦ breakpoint_loop max_bps pos
]

abbrev pub regs_marker : List ℕ
regs_marker = codes "{\"regs\":["

-- `if(*p == ',') p++;`
unfoldable pub skip_comma : List ℕ → List ℕ
skip_comma [] = []
skip_comma (c ∷ p) = if c == b',' then p else c ∷ p

-- The loop of `parse_regs`.
unfoldable pub reg_loop : (left : ℕ) → List ℕ → List ℕ
reg_loop zero p = []
reg_loop (suc left) p = elim (strtoull p) [
  | none ↦ 0 ∷ reg_loop left (skip_comma p)
  | some (v, end) ↦ v ∷ reg_loop left (skip_comma end)
]

-- The text in front of the first place where the pattern stands.
unfoldable pub before : (pattern text : List ℕ) → List ℕ
before pattern [] = []
before pattern (c ∷ text) = elim (starts_with pattern (c ∷ text)) [
  | some behind ↦ []
  | none ↦ c ∷ before pattern text
]

-- `while(marker > err && (marker[-1] == '\n' || marker[-1] == ' ')) marker--;`
unfoldable pub trim_end : List ℕ → List ℕ
trim_end [] = []
trim_end (c ∷ text) = elim (trim_end text) [
  | [] ↦ if c == 10 || c == b' ' then [] else c ∷ []
  | d ∷ more ↦ c ∷ d ∷ more
]

-- `parse_regs`: what is left of `err`, and the registers.
unfoldable pub parse_regs : (err : List ℕ) → Option (List ℕ × List ℕ)
parse_regs err = elim (find regs_marker err) [
  | none ↦ none
  | some p ↦ some (trim_end (before regs_marker err), reg_loop 64 p)
]

-- "%llu" for each, with commas between them.
unfoldable pub more_numbers : List ℕ → List ℕ → List ℕ
more_numbers [] rest = rest
more_numbers (n ∷ ns) rest = b',' ∷ unsigned_decimal n (more_numbers ns rest)

unfoldable pub numbers : List ℕ → List ℕ → List ℕ
unfolding more_numbers
numbers [] rest = rest
numbers (n ∷ ns) rest = unsigned_decimal n (more_numbers ns rest)
