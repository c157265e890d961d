-- ===== src/Files/RoundTrip.antt =====
-- The functions of src/utils.c on word files, one after the other.
use mathlib.Core.Path.{subst}
use cortex_vm.Prelude.{
  ◌∙◌, ℕ, ◌+◌, ◌*◌, ◌/◌, ◌%◌, ◌^◌, ◌<◌, ◌≡◌, refl, ap, bit_or, true, some, List, [], ◌∷◌, ◌++◌,
  length, Result, ok, arith, eq→==,
}
use cortex_vm.Prelude.Bits.{bit_or_high}
use cortex_vm.Word.{word_mod}
use cortex_vm.Files.{
  shabang, word_bytes, words_bytes, write_file_words, bytes_word, bytes_words, after_prefix,
  read_body, read_file_words,
}

-- A byte joins those above it.
below : (k q a r s : ℕ) → a ≡ q * 2 ^ k → r < 2 ^ k → a + r ≡ s → bit_or a r ≡ s
below k q a r s e h sum = bit_or_high k q a r e h ∙ sum

pub bytes_word-bytes :
    (w : ℕ)
    → w < word_mod
    → bytes_word
        (w / 2 ^ 56 % 256)
        (w / 2 ^ 48 % 256)
        (w / 2 ^ 40 % 256)
        (w / 2 ^ 32 % 256)
        (w / 2 ^ 24 % 256)
        (w / 2 ^ 16 % 256)
        (w / 2 ^ 8 % 256)
        (w % 256)
      ≡ w
unfolding bytes_word
bytes_word-bytes w h =
    let top : w / 2 ^ 56 % 256 * 2 ^ 56 ≡ w / 2 ^ 56 * 2 ^ 56 = omega arith in
    rw
      (
        top,
        below 56 (w / 2 ^ 56) (w / 2 ^ 56 * 2 ^ 56) (w / 2 ^ 48 % 256 * 2 ^ 48)
            (w / 2 ^ 48 * 2 ^ 48) refl (omega arith) (omega arith),
        below 48 (w / 2 ^ 48) (w / 2 ^ 48 * 2 ^ 48) (w / 2 ^ 40 % 256 * 2 ^ 40)
            (w / 2 ^ 40 * 2 ^ 40) refl (omega arith) (omega arith),
        below 40 (w / 2 ^ 40) (w / 2 ^ 40 * 2 ^ 40) (w / 2 ^ 32 % 256 * 2 ^ 32)
            (w / 2 ^ 32 * 2 ^ 32) refl (omega arith) (omega arith),
        below 32 (w / 2 ^ 32) (w / 2 ^ 32 * 2 ^ 32) (w / 2 ^ 24 % 256 * 2 ^ 24)
            (w / 2 ^ 24 * 2 ^ 24) refl (omega arith) (omega arith),
        below 24 (w / 2 ^ 24) (w / 2 ^ 24 * 2 ^ 24) (w / 2 ^ 16 % 256 * 2 ^ 16)
            (w / 2 ^ 16 * 2 ^ 16) refl (omega arith) (omega arith),
        below 16 (w / 2 ^ 16) (w / 2 ^ 16 * 2 ^ 16) (w / 2 ^ 8 % 256 * 2 ^ 8) (w / 2 ^ 8 * 2 ^ 8)
            refl (omega arith) (omega arith),
      )
      (below 8 (w / 2 ^ 8) (w / 2 ^ 8 * 2 ^ 8) (w % 256) w refl (omega arith) (omega arith))

-- All entries are words.
abbrev pub AreWords : List ℕ → Type 0
AreWords [] = Unit
AreWords (w ∷ ws) = (w < word_mod) × AreWords ws

bytes_words-words_bytes : (ws : List ℕ) → AreWords ws → bytes_words (words_bytes ws) ≡ ws
unfolding bytes_words words_bytes word_bytes
bytes_words-words_bytes [] fit = refl
bytes_words-words_bytes (w ∷ ws) (fits, fit) =
    λ i. bytes_word-bytes w fits i ∷ bytes_words-words_bytes ws fit i

length-words_bytes : (ws : List ℕ) → length (words_bytes ws) ≡ 8 * length ws
unfolding words_bytes word_bytes
length-words_bytes [] = omega arith
length-words_bytes (w ∷ ws) = omega (arith, length-words_bytes ws)

after_prefix-append : (line file : List ℕ) → after_prefix line (line ++ file) ≡ some file
unfolding after_prefix
after_prefix-append [] file = refl
after_prefix-append (c ∷ line) file = rw (eq→== c c refl) (after_prefix-append line file)

read_body-words_bytes : (ws : List ℕ) → AreWords ws → read_body true (words_bytes ws) ≡ ok ws
unfolding read_body
read_body-words_bytes ws fit =
    rw (eq→== (length (words_bytes ws) % 8) 0 (omega (arith, length-words_bytes ws)))
      (ap ok (bytes_words-words_bytes ws fit))

read_file_words-shabang :
    (file body : List ℕ)
    → after_prefix shabang file ≡ some body
    → read_file_words true (some file) ≡ read_body true body
unfolding read_file_words
read_file_words-shabang file body e = rw e refl

abbrev contents : Result (List ℕ) → List ℕ
contents (ok file) = file
contents _ = []

-- `readFileWords` reads back from the file what `writeFileWords` has written, if the entries are
-- below 2 ^ 64 and there is memory.
pub read_file_words-write_file_words :
    (ws file : List ℕ)
    → AreWords ws
    → write_file_words true true ws ≡ ok file
    → read_file_words true (some file) ≡ ok ws
unfolding write_file_words
read_file_words-write_file_words ws file fit h =
    subst (λ (f : List ℕ). read_file_words true (some f) ≡ ok ws) (ap contents h)
      (read_file_words-shabang (shabang ++ words_bytes ws) (words_bytes ws)
          (after_prefix-append shabang (words_bytes ws))
        ∙ read_body-words_bytes ws fit)
