-- ===== src/Server/RegDump.antt =====
-- `parse_regs` of src/server.c on what main.c prints with `--dump-regs`.
use cortex_vm.Prelude.{
  ℕ, ◌<◌, ◌≡◌, ◌≢◌, refl, ap, ◌==◌, not, ◌&&◌, Bool, none, some, List, [], ◌∷◌, ◌++◌, codes, length,
  arith, ne→==,
}
use cortex_vm.Word.{word_mod}
use cortex_vm.Disassembler.Lines.{digits}
use cortex_vm.Server.Text.{starts_with, find}
use cortex_vm.Server.Keys.{starts_with-miss}
use cortex_vm.Server.Unescape.{All}
use cortex_vm.Server.Numbers.{
  strtoull, regs_marker, skip_comma, reg_loop, before, trim_end, parse_regs, more_numbers, numbers,
}
use cortex_vm.Server.Breakpoints.{AreWords, Stops, stops, strtoull-digits, more_numbers-Stops}

-- What `main` writes to stderr behind the messages of the run.
unfoldable pub dump_regs : (regs : List ℕ) → List ℕ
unfolding numbers
dump_regs regs = regs_marker ++ numbers regs (b']' ∷ b'}' ∷ 10 ∷ [])

-- A message without braces.
abbrev pub no_brace : ℕ → Bool
no_brace c = not (c == b'{') && not (c == 0)

skip_comma-more_numbers :
    (ns rest : List ℕ) → skip_comma (more_numbers ns (b']' ∷ rest)) ≡ numbers ns (b']' ∷ rest)
unfolding skip_comma more_numbers numbers
skip_comma-more_numbers [] rest = refl
skip_comma-more_numbers (n ∷ ns) rest = refl

strtoull-number :
    (n : ℕ) (rest : List ℕ)
    → n < word_mod
    → Stops rest
    → strtoull (digits 20 n rest) ≡ some (n, rest)
strtoull-number n rest small (stops {c = c} {rest = more} stop) =
    strtoull-digits n c more small stop

reg_loop-numbers :
    (ns rest : List ℕ) → AreWords ns → reg_loop (length ns) (numbers ns (b']' ∷ rest)) ≡ ns
unfolding reg_loop numbers
reg_loop-numbers [] rest small = refl
reg_loop-numbers (n ∷ ns) rest (first, more) =
    let behind = more_numbers ns (b']' ∷ rest) in
    rw
      (
        reg_loop,
        strtoull-number n behind first (more_numbers-Stops ns rest),
        skip_comma-more_numbers ns rest,
      )
      (ap (λ regs. n ∷ regs) (reg_loop-numbers ns rest more))

module _ (rest : List ℕ) where
  marker_miss : (c : ℕ) (text : List ℕ) → c ≢ b'{' → starts_with regs_marker (c ∷ text) ≡ none
  marker_miss c text h = starts_with-miss b'{' c (codes "\"regs\":[") text h

  find-message :
      (err : List ℕ)
      → All no_brace err
      → find regs_marker (err ++ (regs_marker ++ rest)) ≡ some rest
  unfolding find
  find-message [] clean = unfold starts_with in refl
  find-message (c ∷ err) (first, clean) =
      rw
        (
          find,
          marker_miss c (err ++ (regs_marker ++ rest)) (ground arith),
          ne→== c 0 (ground arith),
        )
        (find-message err clean)

  before-message :
      (err : List ℕ) → All no_brace err → before regs_marker (err ++ (regs_marker ++ rest)) ≡ err
  unfolding before
  before-message [] clean = unfold starts_with in refl
  before-message (c ∷ err) (first, clean) =
      rw (before, marker_miss c (err ++ (regs_marker ++ rest)) (ground arith))
        (ap (λ text. c ∷ text) (before-message err clean))

-- From a message without braces and without a 0, followed by what `--dump-regs` prints for 64
-- words, `parse_regs` reads these words and leaves the message without the spaces and newlines at
-- its end.
pub parse_regs-dump_regs :
    (err regs : List ℕ)
    → All no_brace err
    → AreWords regs
    → length regs ≡ 64
    → parse_regs (err ++ dump_regs regs) ≡ some (trim_end err, regs)
unfolding dump_regs parse_regs
parse_regs-dump_regs err regs clean small count =
    let behind = numbers regs (b']' ∷ b'}' ∷ 10 ∷ []) in
    let read = reg_loop-numbers regs (b'}' ∷ 10 ∷ []) small in
    rw
      (parse_regs, find-message behind err clean, before-message behind err clean, rw count at read)
      refl
