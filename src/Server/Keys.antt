-- ===== src/Server/Keys.antt =====
-- `strstr` in src/server.c, as it looks for a key in the text of an object.
use cortex_vm.Prelude.{
  ℕ, ◌≡◌, ◌≢◌, inl, inr, refl, ap, sym, ◌∙◌, ◌⊎◌, ◌==◌, true, false, none, some, List, [], ◌∷◌,
  ◌++◌, append_assoc, arith, eq→==, ne→==, Bool-cases,
}
use mathlib.Core.Bool.{false≢true}
use cortex_vm.Assembler.Immediate.{is_label_char}
use cortex_vm.Server.Text.{json_char, starts_with, find}
use cortex_vm.Server.Escape.{escape_text}
use cortex_vm.Server.Unescape.{All, is_plain_text, Reads, behind_slash, verbatim, json_char-Reads}

abbrev pub key_end : List ℕ → List ℕ
key_end key = key ++ (b'"' ∷ b':' ∷ [])

-- What can follow a value.
pub record Separates (d : ℕ) : Type 0 where
  pub no_label : is_label_char d ≡ false
  pub no_quote : d ≢ b'"'
  pub no_colon : d ≢ b':'
  pub no_end : d ≢ 0

pub closing : Separates b'}'
closing = record {
  no_label = refl;
  no_quote = ground arith;
  no_colon = ground arith;
  no_end = ground arith;
}

pub comma : Separates b','
comma = record {
  no_label = refl;
  no_quote = ground arith;
  no_colon = ground arith;
  no_end = ground arith;
}

pub label_char :
    (c : ℕ)
    → is_label_char c ≡ true
    → (c ≢ b'"') × (c ≢ b'\\') × (c ≢ b':') × (c ≢ 0) × (c ≢ b',') × (c ≢ b'}')
label_char c h = ground arith

pub starts_with-miss : (p c : ℕ) (ps text : List ℕ) → c ≢ p → starts_with (p ∷ ps) (c ∷ text) ≡ none
unfolding starts_with
starts_with-miss p c ps text h = rw (starts_with, ne→== c p h) refl

pub starts_with-hit :
    (p c : ℕ) (ps text : List ℕ) → c ≡ p → starts_with (p ∷ ps) (c ∷ text) ≡ starts_with ps text
unfolding starts_with
starts_with-hit p c ps text h = rw (starts_with, eq→== c p h) refl

-- A character of a value.
starts_with-Reads :
    {c : ℕ} {shape : List ℕ} (p : ℕ) (ps rest : List ℕ)
    → Reads c shape
    → p ≢ b'\\'
    → (starts_with ps rest ≡ none) ⊎ (p ≡ b'"')
    → starts_with (p ∷ ps) (shape ++ rest) ≡ none
starts_with-Reads p ps rest (behind_slash d some_char back) no_slash h =
    starts_with-miss p b'\\' ps (d ∷ rest) (λ e. no_slash (sym e))
starts_with-Reads {c = c} p ps rest (verbatim zero_free quote_free slash_free) no_slash h =
    elim (Bool-cases (c == p)) [
      | inl same ↦ elim h [
        | inl later ↦ starts_with-hit p c ps rest (ground arith) ∙ later
        | inr quote ↦ absurd (quote_free (ground arith))
      ]
      | inr other ↦ starts_with-miss p c ps rest (ground arith)
    ]

-- A quote in front of a value does not start the key.
pub value-starts_with :
    (key s : List ℕ) (d : ℕ) (tail : List ℕ)
    → All is_label_char key
    → All is_plain_text s
    → d ≢ b':'
    → starts_with (key_end key) (escape_text s ++ (b'"' ∷ d ∷ tail)) ≡ none
unfolding escape_text
value-starts_with [] [] d tail keys texts no_colon =
    starts_with-hit b'"' b'"' (b':' ∷ []) (d ∷ tail) refl ∙ starts_with-miss b':' d [] tail no_colon
value-starts_with (k ∷ key) [] d tail (word, keys) texts no_colon =
    starts_with-miss k b'"' (key_end key) (d ∷ tail) (ground (arith, label_char k word))
value-starts_with [] (c ∷ s) d tail keys (first, texts) no_colon =
    rw (append_assoc (json_char c) (escape_text s) (b'"' ∷ d ∷ tail)) (
      starts_with-Reads b'"' (b':' ∷ []) (escape_text s ++ (b'"' ∷ d ∷ tail))
        (json_char-Reads c first) (ground arith) (inr refl))
value-starts_with (k ∷ key) (c ∷ s) d tail (word, keys) (first, texts) no_colon =
    rw (append_assoc (json_char c) (escape_text s) (b'"' ∷ d ∷ tail)) (
      starts_with-Reads k (key_end key) (escape_text s ++ (b'"' ∷ d ∷ tail))
        (json_char-Reads c first) (label_char k word).1
        (inl (value-starts_with key s d tail keys texts no_colon)))

pub starts_with-stop :
    (key : List ℕ) (d : ℕ) (text : List ℕ)
    → All is_label_char key
    → is_label_char d ≡ false
    → d ≢ b'"'
    → starts_with (key_end key) (d ∷ text) ≡ none
starts_with-stop [] d text keys no_label no_quote =
    starts_with-miss b'"' d (b':' ∷ []) text no_quote
starts_with-stop (k ∷ key) d text (word, keys) no_label no_quote =
    starts_with-miss k d (key_end key) text
      λ e. false≢true (sym no_label ∙ ap is_label_char e ∙ word)

module _ (key : List ℕ) (keys : All is_label_char key) where
  abbrev pub pattern_of : List ℕ
  pattern_of = b'"' ∷ key_end key

  find-skip :
      (c : ℕ) (text : List ℕ)
      → starts_with pattern_of (c ∷ text) ≡ none
      → c ≢ 0
      → find pattern_of (c ∷ text) ≡ find pattern_of text
  unfolding find
  find-skip c text miss some_char = rw (find, miss, ne→== c 0 some_char) refl

  pub find-pass :
      (c : ℕ) (text : List ℕ) → c ≢ b'"' → c ≢ 0 → find pattern_of (c ∷ text) ≡ find pattern_of text
  find-pass c text no_quote some_char =
      find-skip c text (starts_with-miss b'"' c (key_end key) text no_quote) some_char

  -- A quote that something else than the key follows.
  pub find-quote :
      (text : List ℕ)
      → starts_with (key_end key) text ≡ none
      → find pattern_of (b'"' ∷ text) ≡ find pattern_of text
  find-quote text miss =
      find-skip b'"' text (starts_with-hit b'"' b'"' (key_end key) text refl ∙ miss) (ground arith)

  -- The key does not start with such a character.
  key-miss :
      (d : ℕ) (text : List ℕ)
      → is_label_char d ≡ false
      → d ≢ b'"'
      → starts_with (key_end key) (d ∷ text) ≡ none
  key-miss d text no_label no_quote = starts_with-stop key d text keys no_label no_quote

  find-Reads :
      {c : ℕ} {shape : List ℕ} (rest : List ℕ)
      → Reads c shape
      → starts_with (key_end key) rest ≡ none
      → find pattern_of (shape ++ rest) ≡ find pattern_of rest
  find-Reads rest (behind_slash d some_char back) miss =
      find-pass b'\\' (d ∷ rest) (ground arith) (ground arith) ∙ elim (Bool-cases (d == b'"')) [
        | inl quote ↦ let e : d ≡ b'"' = ground arith in rw e (find-quote rest miss)
        | inr other ↦ find-pass d rest (ground arith) some_char
      ]
  find-Reads {c = c} rest (verbatim zero_free quote_free slash_free) miss =
      find-pass c rest quote_free zero_free

  pub find-value :
      (s : List ℕ) (d : ℕ) (tail : List ℕ)
      → All is_plain_text s
      → Separates d
      → find pattern_of (escape_text s ++ (b'"' ∷ d ∷ tail)) ≡ find pattern_of (d ∷ tail)
  unfolding escape_text
  find-value [] d tail texts sep = find-quote (d ∷ tail) (key-miss d tail sep.no_label sep.no_quote)
  find-value (c ∷ s) d tail (first, texts) sep =
      rw (append_assoc (json_char c) (escape_text s) (b'"' ∷ d ∷ tail)) (
        find-Reads (escape_text s ++ (b'"' ∷ d ∷ tail)) (json_char-Reads c first)
          (value-starts_with key s d tail keys texts sep.no_colon)
        ∙ find-value s d tail texts sep)

  pub find-hit :
      (text behind : List ℕ)
      → starts_with pattern_of text ≡ some behind
      → find pattern_of text ≡ some behind
  unfolding find
  find-hit [] behind h = absurd (cc)
  find-hit (c ∷ text) behind h = rw (find, h) refl

  -- The '\0' of the text.
  pub find-end : (tail : List ℕ) → find pattern_of (0 ∷ tail) ≡ none
  unfolding find
  find-end tail = rw (starts_with-miss b'"' 0 (key_end key) tail (ground arith)) refl
