-- ===== src/Server/Text.antt =====
-- The string helpers of src/server.c: `json_escape` and `json_get_string`. A text is the list of its
-- characters without the '\0', and the body of a request is the memory from its first byte on, in
-- which the '\0' is written out. `malloc` and `realloc` are a test: is there so much memory?
use cortex_vm.Prelude.{
  ℕ, zero, suc, ◌+◌, ◌-◌, ◌*◌, ◌/◌, ◌%◌, ltb, leb, ◌==◌, ◌||◌, not, if◌then◌else◌, Bool, true,
  false, Option, none, some, List, [], ◌∷◌, ◌++◌, length, Result, ok, undefined,
}
use cortex_vm.Word.{u64, sub64}
use cortex_vm.Assembler.Immediate.{skip_while, take_while}

-- A digit of `%04x`.
unfoldable pub hex_digit : ℕ → ℕ
hex_digit d = if ltb d 10 then b'0' + d else b'a' + (d - 10)

-- What the switch of `json_escape` writes for a character.
unfoldable pub json_char : ℕ → List ℕ
unfolding hex_digit
json_char c =
    if c == b'"'
    then b'\\' ∷ b'"' ∷ []
    else if c == b'\\'
    then b'\\' ∷ b'\\' ∷ []
    else if c == 10
    then b'\\' ∷ b'n' ∷ []
    else if c == 13
    then b'\\' ∷ b'r' ∷ []
    else if c == 9
    then b'\\' ∷ b't' ∷ []
    else if ltb c 0x20
    then b'\\' ∷ b'u' ∷ b'0' ∷ b'0' ∷ hex_digit (c / 16) ∷ hex_digit (c % 16) ∷ []
    else c ∷ []

-- The bytes that this touches: behind its six characters `sprintf` writes a '\0'.
abbrev pub touched : List ℕ → ℕ
touched text = if length text == 6 then 7 else length text

-- The first `n` elements.
unfoldable pub take : ℕ → List ℕ → List ℕ
take zero text = []
take (suc n) [] = []
take (suc n) (c ∷ text) = c ∷ take n text

-- What stands behind a pattern at the start of a text.
unfoldable pub starts_with : (pattern text : List ℕ) → Option (List ℕ)
starts_with [] text = some text
starts_with (p ∷ ps) [] = none
starts_with (p ∷ ps) (c ∷ text) = elim (c == p) [ true ↦ starts_with ps text | false ↦ none ]

-- `strstr(text, pattern)`, moved behind the pattern; the text ends at its '\0'.
unfoldable pub find : (pattern text : List ℕ) → Option (List ℕ)
unfolding starts_with
find pattern [] = none
find pattern (c ∷ text) = elim (starts_with pattern (c ∷ text)) [
  | some behind ↦ some behind
  | none ↦ elim (c == 0) [ true ↦ none | false ↦ find pattern text ]
]

-- The characters of a buffer up to its first '\0'.
abbrev pub until_nul : List ℕ → List ℕ
until_nul = take_while (λ c. not (c == 0))

-- The switch of `json_get_string` behind a backslash.
unfoldable pub json_unescape : ℕ → List ℕ
json_unescape c =
    if c == b'"'
    then b'"' ∷ []
    else if c == b'\\'
    then b'\\' ∷ []
    else if c == b'n'
    then 10 ∷ []
    else if c == b'r'
    then 13 ∷ []
    else if c == b't'
    then 9 ∷ []
    else if c == b'/'
    then b'/' ∷ []
    else b'\\' ∷ c ∷ []

-- "\"%s\":", which `snprintf` cuts to the 256 bytes of the pattern.
unfoldable pub key_pattern : List ℕ → List ℕ
unfolding take
key_pattern key = take 255 (b'"' ∷ (key ++ (b'"' ∷ b':' ∷ [])))

module _ (alloc : ℕ → Bool) where
  -- The capacity before a write: doubled, if less than `spare` bytes are left.
  unfoldable pub grown : (spare cap len : ℕ) → Option ℕ
  grown spare cap len =
      if leb (sub64 cap spare) len
      then (if alloc (u64 (cap * 2)) then some (u64 (cap * 2)) else none)
      else some cap

  -- `return strdup("")`
  unfoldable pub abandoned : Result (List ℕ)
  abandoned = if alloc 1 then ok [] else undefined

  -- The loop of `json_escape`: `out` holds what has been written.
  unfoldable pub escape_loop : (cap : ℕ) (out : List ℕ) → List ℕ → Result (List ℕ)
  escape_loop cap out [] = if ltb (length out) cap then ok out else undefined
  escape_loop cap out (c ∷ str) = elim (grown 6 cap (length out)) [
    | none ↦ abandoned
    | some cap' ↦ elim (leb (length out + touched (json_char c)) cap') [
      | true ↦ escape_loop cap' (out ++ json_char c) str
      | false ↦ undefined
    ]
  ]

  unfoldable pub json_escape : List ℕ → Result (List ℕ)
  json_escape str =
      let cap = u64 (length str * 2 + 8) in if alloc cap then escape_loop cap [] str else undefined

  -- `out[len] = '\0'`; the callers read the text up to its first '\0'.
  unfoldable pub close_string : (cap : ℕ) (out : List ℕ) → Result (Option (List ℕ))
  close_string cap out = if ltb (length out) cap then ok (some (until_nul out)) else undefined

  -- The loop of `json_get_string`. A backslash takes the next byte with it, whatever it is.
  unfoldable pub string_loop : (cap : ℕ) (out : List ℕ) → List ℕ → Result (Option (List ℕ))
  string_loop cap out [] = undefined
  string_loop cap out (c ∷ []) = if c == 0 || c == b'"' then close_string cap out else undefined
  string_loop cap out (c ∷ d ∷ pos) = elim (c == 0 || c == b'"') [
    | true ↦ close_string cap out
    | false ↦ elim (grown 2 cap (length out)) [
      | none ↦ ok none
      | some cap' ↦ elim (c == b'\\') [
        | true ↦ elim (leb (length out + length (json_unescape d)) cap') [
          | true ↦ string_loop cap' (out ++ json_unescape d) pos
          | false ↦ undefined
        ]
        | false ↦ elim (leb (length out + 1) cap') [
          | true ↦ string_loop cap' (out ++ (c ∷ [])) (d ∷ pos)
          | false ↦ undefined
        ]
      ]
    ]
  ]

  -- Behind the colon.
  unfoldable pub read_string : List ℕ → Result (Option (List ℕ))
  read_string [] = ok none
  read_string (c ∷ pos) =
      if c == b'"' then (if alloc 4096 then string_loop 4096 [] pos else undefined) else ok none

  unfoldable pub json_get_string : (json key : List ℕ) → Result (Option (List ℕ))
  json_get_string json key = elim (find (key_pattern key) json) [
    | none ↦ ok none
    | some pos ↦ read_string (skip_while (λ c. c == b' ' || c == 9) pos)
  ]
