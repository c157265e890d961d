-- ===== src/Disassembler/Program.antt =====
-- `disassemble` of src/disassembler.c, less the file that it writes. The `LineList` is a list of
-- lines, and a binary the words at its indices.
use cortex_vm.Prelude.{
  ℕ, zero, suc, ◌+◌, ◌-◌, ◌==◌, ◌||◌, ◌&&◌, not, ltb, leb, if◌then◌else◌, Bool, Option, none, some,
  List, [], ◌∷◌, ◌++◌, length, codes, Result, ok, fatal, diverged, ◌>>=◌,
}
use cortex_vm.Isa.Codes.{header_len}
use cortex_vm.Header.{Header, header_parse, header_validate}
use cortex_vm.Disassembler.Lines.{unsigned_decimal}
use cortex_vm.Disassembler.Listing.{dis_word}

-- `lineListJoin`
abbrev pub line_list_join : List (List ℕ) → List ℕ
line_list_join [] = []
line_list_join (line ∷ lines) = line ++ line_list_join lines

-- A character that may stand in a string of the data section.
unfoldable pub is_text : ℕ → Bool
is_text c = not (ltb c 32 && not (c == 9) && not (c == 10) && not (c == 13) || leb 128 c)

-- What stands for a character between quotes.
unfoldable pub escaped : ℕ → List ℕ
escaped c =
    if c == 10
    then codes "\\n"
    else if c == 9
    then codes "\\t"
    else if c == 13
    then codes "\\r"
    else if c == b'\\'
    then codes "\\\\"
    else if c == b'"'
    then codes "\\\""
    else c ∷ []

-- "main:\n" at the entry point.
abbrev pub label_line : (offset i : ℕ) → List (List ℕ) → List (List ℕ)
label_line offset i lines = if i == offset then codes "main:\n" ∷ lines else lines

module _ (buff : ℕ → ℕ) where
  -- The zero that ends a string, among the `left` words from `j` on.
  unfoldable pub string_end : (left j : ℕ) → Option ℕ
  unfolding is_text
  string_end zero j = none
  string_end (suc left) j =
      let later = string_end left (suc j) in
      if buff j == 0 then some j else if is_text (buff j) then later else none

  -- The `left` characters from `k` on, and the closing quote; `pos` bytes of `sline` are in use.
  unfoldable pub string_body : (left k pos : ℕ) → Result (List ℕ)
  unfolding escaped
  string_body zero k pos = ok (b'"' ∷ 10 ∷ [])
  string_body (suc left) k pos =
      let later = string_body left (suc k) (pos + length (escaped (buff k))) in
      if leb 4092 pos then fatal 0xe021 else (later >>= λ rest. ok (escaped (buff k) ++ rest))

  unfoldable pub string_line : (i j : ℕ) → Result (List ℕ)
  unfolding string_body
  string_line i j = string_body (j - i) i 5 >>= λ body. ok (codes "    \"" ++ body)

  -- The string that starts at `i`, by its end.
  unfoldable pub string_at : (file_length i : ℕ) → Option ℕ
  unfolding string_end
  string_at file_length i =
      let word = buff i in
      if ltb 0 word && ltb word 128 then string_end (file_length - i) i else none

  unfoldable pub number_line : (i : ℕ) → List ℕ
  number_line i = b'\t' ∷ unsigned_decimal (buff i) (10 ∷ [])

  -- The lines of the `.data` section from `i` on.
  unfoldable pub data_lines : (fuel file_length i : ℕ) → Result (List (List ℕ))
  unfolding string_at string_line number_line
  data_lines zero file_length i = diverged
  data_lines (suc fuel) file_length i =
      let next : Result (List (List ℕ)) = elim (string_at file_length i) [
        | none ↦ data_lines fuel file_length (suc i) >>= λ lines. ok (number_line i ∷ lines)
        | some j ↦ string_line i j >>= λ line.
            data_lines fuel file_length (suc j) >>= λ lines. ok (line ∷ lines)
      ] in
      if ltb i file_length then next else ok []

  module _ (format_g : ℕ → List ℕ) (widen : ℕ → ℕ) where
    -- The lines of the `left` words of code from `i` on.
    unfoldable pub code_lines : (offset left i : ℕ) → Result (List (List ℕ))
    code_lines offset zero i = ok []
    code_lines offset (suc left) i = dis_word format_g widen (buff i) [] >>= λ line.
        code_lines offset left (suc i) >>= λ lines. ok (label_line offset i (line ∷ lines))

    -- The word where the code ends.
    abbrev pub code_end : Header → ℕ
    code_end h = if ltb 0 h.data_offset then h.data_offset else h.file_length

    unfoldable pub data_part : Header → Result (List (List ℕ))
    unfolding data_lines
    data_part h =
        if ltb 0 h.data_offset
        then (data_lines (suc (h.file_length - h.data_offset)) h.file_length h.data_offset
            >>= λ lines. ok (codes ".data\n" ∷ lines))
        else ok []

    unfoldable pub disassemble : Result (List ℕ)
    unfolding code_lines data_part
    disassemble =
        let h = header_parse buff in
        header_validate h.file_length h >>= λ h.
        code_lines h.offset (code_end h - header_len) header_len >>= λ code.
        data_part h >>= λ rest. ok (line_list_join (code ++ rest))
