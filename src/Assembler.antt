-- ===== src/Assembler.antt =====
-- `skipSep`, `cmpChars`, `parseRegNum` and `getReg` of src/assembler.c, and the case of `assemble`
-- for three registers. The source is the characters from `head` on; its end is the '\0'.
pub mod Registers
pub mod Names
pub mod Immediate
pub mod Labels
pub mod Operands
pub mod Data
pub mod Program
pub mod Assemble
pub mod Reads
pub mod Numbers
pub mod Formats
pub mod Lines
pub mod Canonical
pub mod Reassemble
pub mod Listings
pub mod RoundTrip
pub mod Invariant
pub mod Accepted
pub mod Patches
pub mod Lookup
pub mod Strings
pub mod DataLines
pub mod DataRounds
pub mod WithData
use cortex_vm.Prelude.{
  ℕ, zero, suc, ◌+◌, ◌-◌, ◌*◌, ◌%◌, ◌==◌, ◌&&◌, ◌||◌, ltb, leb, if◌then◌else◌, Bool, true, false,
  List, [], ◌∷◌, Result, ok, fatal, ◌>>=◌,
}
use cortex_vm.Isa.Codes.{zero_reg, pc_reg, sp_reg, ra_reg, s0, a0, t0}
use cortex_vm.Isa.Encode.{encode_r}

unfoldable pub skip_sep : List ℕ → List ℕ
skip_sep [] = []
skip_sep (c ∷ head) =
    let rest = skip_sep head in if c == b' ' || c == b'\t' || c == b',' then rest else c ∷ head

-- `toupper` on ASCII.
abbrev pub to_upper : ℕ → ℕ
to_upper c = if leb b'a' c && leb c b'z' then c - 32 else c

-- `cmpChars(head, cmp, strlen(cmp))`, where `cmp` has no '\0'.
unfoldable pub cmp_chars : (head cmp : List ℕ) → Bool
cmp_chars head [] = true
cmp_chars [] (d ∷ cmp) = false
cmp_chars (c ∷ head) (d ∷ cmp) = to_upper c == to_upper d && cmp_chars head cmp

abbrev pub is_digit : ℕ → Bool
is_digit c = leb b'0' c && leb c b'9'

-- `val` is an `uint8_t`.
unfoldable pub parse_reg_num : (val : ℕ) → List ℕ → ℕ × List ℕ
parse_reg_num val [] = (val, [])
parse_reg_num val (c ∷ head) =
    let more = parse_reg_num ((val * 10 + (c - b'0')) % 256) head in
    if is_digit c then more else (val, c ∷ head)

-- A number below `limit`, counted from the register `base` on.
unfoldable pub numbered_reg : (limit base : ℕ) → List ℕ → Result (ℕ × List ℕ)
unfolding parse_reg_num
numbered_reg limit base head =
    let (reg, rest) = parse_reg_num 0 head in
    if leb limit reg then fatal 0x0303 else ok (reg + base, rest)

-- `head += n`
abbrev pub skip_chars : ℕ → List ℕ → List ℕ
skip_chars zero head = head
skip_chars (suc n) [] = []
skip_chars (suc n) (c ∷ head) = skip_chars n head

unfoldable pub get_reg : List ℕ → Result (ℕ × List ℕ)
unfolding numbered_reg cmp_chars
get_reg [] = fatal 0x0303
get_reg (c ∷ head) =
    if c == b'R' || c == b'r'
    then (if cmp_chars head (b'a' ∷ [])
        then ok (ra_reg, skip_chars 1 head)
        else numbered_reg 64 0 head)
    else if c == b'S' || c == b's'
    then (if cmp_chars head (b'p' ∷ [])
        then ok (sp_reg, skip_chars 1 head)
        else numbered_reg 14 s0 head)
    else if c == b'A' || c == b'a'
    then numbered_reg 14 a0 head
    else if c == b'T' || c == b't'
    then numbered_reg 32 t0 head
    else if c == b'Z' || c == b'z'
    then (if cmp_chars head (b'e' ∷ b'r' ∷ b'o' ∷ [])
        then ok (zero_reg, skip_chars 3 head)
        else fatal 0x0303)
    else if c == b'P' || c == b'p'
    then (if cmp_chars head (b'c' ∷ []) then ok (pc_reg, skip_chars 1 head) else fatal 0x0303)
    else fatal 0x0303

-- The case of OP_R, from behind the name of the instruction on.
unfoldable pub assemble_r : (op fn fl : ℕ) → List ℕ → Result (ℕ × List ℕ)
assemble_r op fn fl head = get_reg (skip_sep head) >>= λ (rd, head1).
    get_reg (skip_sep head1) >>= λ (ra, head2).
    get_reg (skip_sep head2) >>= λ (rb, head3). ok (encode_r op fn ra rd rb fl, head3)
