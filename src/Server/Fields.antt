-- ===== src/Server/Fields.antt =====
-- `json_get_string` of src/server.c on the bodies that the page sends: `JSON.stringify` of an
-- object whose values are strings.
use cortex_vm.Prelude.{
  ℕ, ◌^◌, ◌≤◌, ◌<◌, ◌≡◌, inl, inr, refl, sym, ◌∙◌, ◌==◌, ◌&&◌, ◌||◌, if◌then◌else◌, Bool, true,
  false, Option, none, some, List, [], ◌∷◌, ◌++◌, length, length-append, Result, ok, arith,
  Bool-cases,
}
use cortex_vm.Assembler.Immediate.{is_label_char, skip_while}
use cortex_vm.Assembler.Numbers.{skip_while-stop}
use cortex_vm.Server.Cuts.{take-enough}
use cortex_vm.Server.Text.{starts_with, find, key_pattern, read_string, json_get_string}
use cortex_vm.Server.Keys.{
  key_end, Separates, label_char, starts_with-miss, starts_with-hit, value-starts_with, pattern_of,
  find-pass, find-quote, find-value, find-hit, find-end, starts_with-stop, closing, comma,
}
use cortex_vm.Server.Escape.{escape_text}
use cortex_vm.Server.Grow.{Granted}
use cortex_vm.Server.Unescape.{All, is_plain_text, read_string-escape_text}

-- A key with its value, before what follows the closing quote.
unfoldable pub field : (key value : List ℕ) → List ℕ → List ℕ
unfolding escape_text
field key value rest = b'"' ∷ (key ++ (b'"' ∷ b':' ∷ b'"' ∷ (escape_text value ++ (b'"' ∷ rest))))

abbrev pub Fields : Type 0
Fields = List (List ℕ × List ℕ)

unfoldable pub more_fields : Fields → List ℕ → List ℕ
unfolding field
more_fields [] rest = b'}' ∷ rest
more_fields ((key, value) ∷ fields) rest = b',' ∷ field key value (more_fields fields rest)

-- The text of an object.
unfoldable pub object : Fields → List ℕ → List ℕ
unfolding more_fields
object [] rest = b'{' ∷ b'}' ∷ rest
object ((key, value) ∷ fields) rest = b'{' ∷ field key value (more_fields fields rest)

abbrev pub same_text : List ℕ → List ℕ → Bool
same_text [] [] = true
same_text (c ∷ s) (d ∷ t) = c == d && same_text s t
same_text _ _ = false

-- The value under the first such key.
abbrev pub lookup : List ℕ → Fields → Option (List ℕ)
lookup key [] = none
lookup key ((k, value) ∷ fields) = if same_text k key then some value else lookup key fields

-- Keys are words, and values are texts without control characters but tabs and line ends.
abbrev pub IsPlain : Fields → Type 0
IsPlain [] = Unit
IsPlain ((key, value) ∷ fields) =
    All is_label_char key × All is_plain_text value × (length value < 2 ^ 59) × IsPlain fields

-- The key of a field against the key that is looked for.
key-starts_with :
    (key k : List ℕ) (rest : List ℕ)
    → All is_label_char key
    → All is_label_char k
    → starts_with (key_end key) (k ++ (b'"' ∷ b':' ∷ rest))
      ≡ (if same_text k key then some rest else none)
key-starts_with [] [] rest keys ks =
    starts_with-hit b'"' b'"' (b':' ∷ []) (b':' ∷ rest) refl
    ∙ starts_with-hit b':' b':' [] rest refl
    ∙ unfold starts_with in refl
key-starts_with [] (c ∷ k) rest keys (word, ks) =
    starts_with-miss b'"' c (b':' ∷ []) (k ++ (b'"' ∷ b':' ∷ rest)) (label_char c word).0
key-starts_with (p ∷ key) [] rest (word, keys) ks =
    starts_with-miss p b'"' (key_end key) (b':' ∷ rest) (ground (arith, label_char p word))
key-starts_with (p ∷ key) (c ∷ k) rest (word, keys) (letter, ks) = elim (Bool-cases (c == p)) [
  | inl same ↦ rw same (
      starts_with-hit p c (key_end key) (k ++ (b'"' ∷ b':' ∷ rest)) (ground arith)
      ∙ key-starts_with key k rest keys ks)
  | inr other ↦
      rw other (starts_with-miss p c (key_end key) (k ++ (b'"' ∷ b':' ∷ rest)) (ground arith))
]

-- What stands behind a field.
separated :
    (fields : Fields) (rest : List ℕ)
    → (d : ℕ) × (t : List ℕ) × (more_fields fields rest ≡ d ∷ t) × Separates d
unfolding more_fields
separated [] rest = (b'}', rest, refl, closing)
separated ((k, v) ∷ fields) rest = (b',', field k v (more_fields fields rest), refl, comma)

module _ (key : List ℕ) (keys : All is_label_char key) where
  -- Past the rest of a key that is another one, and its value.
  find-key :
      (k rest : List ℕ)
      → All is_label_char k
      → find (pattern_of key keys) (k ++ (b'"' ∷ b':' ∷ rest)) ≡ find (pattern_of key keys) rest
  find-key [] rest ks =
      find-quote key keys (b':' ∷ rest)
        (starts_with-stop key b':' rest keys (ground arith) (ground arith))
      ∙ find-pass key keys b':' rest (ground arith) (ground arith)
  find-key (c ∷ k) rest (letter, ks) =
      let (no_quote, no_slash, no_colon, some_char, no_comma, no_brace) = label_char c letter in
      find-pass key keys c (k ++ (b'"' ∷ b':' ∷ rest)) no_quote some_char ∙ find-key k rest ks

  -- Past a field with another key.
  find-other :
      (k v : List ℕ) (d : ℕ) (tail : List ℕ)
      → All is_label_char k
      → All is_plain_text v
      → same_text k key ≡ false
      → Separates d
      → find (pattern_of key keys) (field k v (d ∷ tail)) ≡ find (pattern_of key keys) (d ∷ tail)
  unfolding field
  find-other k v d tail ks texts other sep =
      let value = escape_text v ++ (b'"' ∷ d ∷ tail) in
      let miss = key-starts_with key k (b'"' ∷ value) keys ks in
      find-quote key keys (k ++ (b'"' ∷ b':' ∷ b'"' ∷ value)) (rw other at miss)
      ∙ find-key k (b'"' ∷ value) ks
      ∙ find-quote key keys value (value-starts_with key v d tail keys texts sep.no_colon)
      ∙ find-value key keys v d tail texts sep

  find-same :
      (k v rest : List ℕ)
      → All is_label_char k
      → same_text k key ≡ true
      → find (pattern_of key keys) (field k v rest) ≡ some (b'"' ∷ (escape_text v ++ (b'"' ∷ rest)))
  unfolding field
  find-same k v rest ks same =
      let value = escape_text v ++ (b'"' ∷ rest) in
      let hit = key-starts_with key k (b'"' ∷ value) keys ks in
      find-hit key keys (b'"' ∷ (k ++ (b'"' ∷ b':' ∷ b'"' ∷ value))) (b'"' ∷ value) (
        starts_with-hit b'"' b'"' (key_end key) (k ++ (b'"' ∷ b':' ∷ b'"' ∷ value)) refl
        ∙ (rw same at hit))

  -- An object is searched as the fields behind a comma are.
  find-object :
      (fields : Fields) (rest : List ℕ)
      → find (pattern_of key keys) (object fields rest)
        ≡ find (pattern_of key keys) (more_fields fields rest)
  unfolding object more_fields
  find-object [] rest = find-pass key keys b'{' (b'}' ∷ rest) (ground arith) (ground arith)
  find-object ((k, v) ∷ fields) rest =
      find-pass key keys b'{' (field k v (more_fields fields rest)) (ground arith) (ground arith)
      ∙ sym (
          find-pass key keys b',' (field k v (more_fields fields rest)) (ground arith)
            (ground arith))

  module _ (alloc : ℕ → Bool) (granted : Granted alloc) where
    -- What `json_get_string` does with what `strstr` found.
    abbrev get : Option (List ℕ) → Result (Option (List ℕ))
    get found = elim found [
      | none ↦ ok none
      | some pos ↦ read_string alloc (skip_while (λ c. c == b' ' || c == 9) pos)
    ]

    get-value :
        (v rest : List ℕ)
        → All is_plain_text v
        → length v < 2 ^ 59
        → get (some (b'"' ∷ (escape_text v ++ (b'"' ∷ rest)))) ≡ ok (some v)
    get-value v rest texts short =
        rw (skip_while-stop (λ c. c == b' ' || c == 9) b'"' (escape_text v ++ (b'"' ∷ rest)) refl)
          (read_string-escape_text alloc v rest granted texts short)

    -- A field in front of others.
    get-field :
        (k v : List ℕ) (d : ℕ) (tail : List ℕ) (found : Option (List ℕ))
        → All is_label_char k
        → All is_plain_text v
        → length v < 2 ^ 59
        → Separates d
        → get (find (pattern_of key keys) (d ∷ tail)) ≡ ok found
        → get (find (pattern_of key keys) (field k v (d ∷ tail)))
          ≡ ok (if same_text k key then some v else found)
    get-field k v d tail found ks texts short sep later = elim (Bool-cases (same_text k key)) [
      | inl same ↦ rw (same, find-same k v (d ∷ tail) ks same) (get-value v (d ∷ tail) texts short)
      | inr other ↦ rw (other, find-other k v d tail ks texts other sep) later
    ]

    get-more_fields :
        (fields : Fields) (tail : List ℕ)
        → IsPlain fields
        → get (find (pattern_of key keys) (more_fields fields (0 ∷ tail))) ≡ ok (lookup key fields)
    unfolding more_fields
    get-more_fields [] tail plain_fields =
        rw
          (find-pass key keys b'}' (0 ∷ tail) (ground arith) (ground arith), find-end key keys tail)
          refl
    get-more_fields ((k, v) ∷ fields) tail (ks, texts, short, more) =
        let (d, t, e, sep) = separated fields (0 ∷ tail) in
        let later = get-more_fields fields tail more in
        rw
          (
            find-pass key keys b',' (field k v (more_fields fields (0 ∷ tail))) (ground arith)
                (ground arith),
            e,
          )
          (get-field k v d t (lookup key fields) ks texts short sep (rw e at later))

key_pattern_lem :
    (key : List ℕ) (keys : All is_label_char key)
    → length key ≤ 252
    → key_pattern key ≡ pattern_of key keys
unfolding key_pattern
key_pattern_lem key keys short =
    take-enough 255 (pattern_of key keys) (rw (length-append key (b'"' ∷ b':' ∷ [])) (omega arith))

-- If memory never runs out, `json_get_string` finds in the text of an object the value under the
-- first such key, unescaped, and NULL if there is none, whatever quotes and backslashes the other
-- values have. Keys are of letters, digits and underscores, the one looked for of at most 252;
-- values are printable or tabs and line ends, and shorter than 2 ^ 59.
pub json_get_string-object :
    (alloc : ℕ → Bool) (key : List ℕ) (fields : Fields) (tail : List ℕ)
    → Granted alloc
    → All is_label_char key
    → length key ≤ 252
    → IsPlain fields
    → json_get_string alloc (object fields (0 ∷ tail)) key ≡ ok (lookup key fields)
unfolding json_get_string
json_get_string-object alloc key fields tail granted keys short proper =
    rw (json_get_string, key_pattern_lem key keys short, find-object key keys fields (0 ∷ tail))
      (get-more_fields key keys alloc granted fields tail proper)
