-- ===== src/Files.antt =====
-- The files of src/utils.c: texts, and binaries on disk. A file is its bytes.
pub mod RoundTrip
use cortex_vm.Prelude.{
  ℕ, ◌*◌, ◌%◌, ◌^◌, ◌==◌, not, if◌then◌else◌, bit_and, bit_or, Bool, Option, none, some, List, [],
  ◌∷◌, ◌++◌, length, Result, ok, fatal,
}
use cortex_vm.Word.{shr, low_bits}

-- "#!/usr/local/bin/cortex\n", of `SHABANG_LENGTH` bytes.
abbrev pub shabang : List ℕ
shabang =
    b'#' ∷ b'!' ∷ b'/' ∷ b'u' ∷ b's' ∷ b'r' ∷ b'/' ∷ b'l' ∷ b'o' ∷ b'c' ∷ b'a' ∷ b'l' ∷ b'/' ∷ b'b'
    ∷ b'i' ∷ b'n' ∷ b'/' ∷ b'c' ∷ b'o' ∷ b'r' ∷ b't' ∷ b'e' ∷ b'x' ∷ 10 ∷ []

-- The array `bytes` in `writeFileWords`, high byte first, before what follows it.
unfoldable pub word_bytes : ℕ → List ℕ → List ℕ
word_bytes w rest =
    low_bits (shr w 56) 8
    ∷ low_bits (shr w 48) 8
    ∷ low_bits (shr w 40) 8
    ∷ low_bits (shr w 32) 8
    ∷ low_bits (shr w 24) 8
    ∷ low_bits (shr w 16) 8
    ∷ low_bits (shr w 8) 8
    ∷ low_bits w 8
    ∷ rest

-- The loop of `writeFileWords`.
unfoldable pub words_bytes : List ℕ → List ℕ
unfolding word_bytes
words_bytes [] = []
words_bytes (w ∷ ws) = word_bytes w (words_bytes ws)

-- `writeFileWords`: the bytes of the file, when it can be opened and written.
unfoldable pub write_file_words : (opened written : Bool) → List ℕ → Result (List ℕ)
unfolding words_bytes
write_file_words opened written ws =
    if not opened
    then fatal 0x0131
    else if not written
    then fatal 0x0132
    else ok (shabang ++ words_bytes ws)

-- `((uint64_t)b[0] << 56) | ... | (uint64_t)b[7]`
unfoldable pub bytes_word : (b0 b1 b2 b3 b4 b5 b6 b7 : ℕ) → ℕ
bytes_word b0 b1 b2 b3 b4 b5 b6 b7 =
    bit_or
      (bit_or
        (bit_or
          (bit_or (bit_or (bit_or (bit_or (b0 * 2 ^ 56) (b1 * 2 ^ 48)) (b2 * 2 ^ 40)) (b3 * 2 ^ 32))
            (b4 * 2 ^ 24))
          (b5 * 2 ^ 16))
        (b6 * 2 ^ 8))
      b7

-- The loop of `readFileWords` over whole words.
unfoldable pub bytes_words : List ℕ → List ℕ
unfolding bytes_word
bytes_words (b0 ∷ b1 ∷ b2 ∷ b3 ∷ b4 ∷ b5 ∷ b6 ∷ b7 ∷ rest) =
    bytes_word b0 b1 b2 b3 b4 b5 b6 b7 ∷ bytes_words rest
bytes_words rest = []

-- What is left of a file that starts with a line, as `memcmp` tells.
unfoldable pub after_prefix : (line file : List ℕ) → Option (List ℕ)
after_prefix [] file = some file
after_prefix (c ∷ line) [] = none
after_prefix (c ∷ line) (b ∷ file) =
    let rest = after_prefix line file in if c == b then rest else none

-- `malloc` tells whether the buffer can be had.
unfoldable pub read_body : (malloc : Bool) → List ℕ → Result (List ℕ)
unfolding bytes_words
read_body malloc body =
    if not (length body % 8 == 0)
    then fatal 0x0114
    else if not malloc
    then fatal 0x0112
    else ok (bytes_words body)

-- `readFileWords` of a file that is there, if any, and that `fread` reads to its end.
unfoldable pub read_file_words : (malloc : Bool) → Option (List ℕ) → Result (List ℕ)
unfolding after_prefix read_body
read_file_words malloc none = fatal 0x0111
read_file_words malloc (some file) = elim (after_prefix shabang file) [
  | some body ↦ read_body malloc body
  | none ↦ read_body malloc file
]

-- `readFile` of a file that is there, if any, of which `fread` gives `count` bytes.
unfoldable pub read_file : (malloc : Bool) (count : ℕ) → Option (List ℕ) → Result (List ℕ)
read_file malloc count none = fatal 0x0101
read_file malloc count (some file) =
    if not malloc
    then fatal 0x0102
    else if not (count == length file)
    then fatal 0x0103
    else ok file

-- `writeFile`: the bytes of the file, when it can be opened and `fwrite` takes `count` of them.
unfoldable pub write_file : (opened : Bool) (count : ℕ) → List ℕ → Result (List ℕ)
write_file opened count text =
    if not opened
    then fatal 0x0121
    else if not (count == length text)
    then fatal 0x0122
    else ok text

-- The mode that `writeFileWords` gives the file: executable for whom it is readable.
unfoldable pub executable : (mode : ℕ) → ℕ
executable mode =
    let user = if bit_and mode 0x100 == 0 then mode else bit_or mode 0x40 in
    let group = if bit_and user 0x20 == 0 then user else bit_or user 0x8 in
    if bit_and group 0x4 == 0 then group else bit_or group 0x1
