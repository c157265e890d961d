-- ===== src/Tests/OnDisk.antt =====
-- A file of one word.
use cortex_vm.Prelude.{◌++◌, ◌∷◌, [], ◌≡◌, refl, List, ℕ, some, true, ok, arith}
use cortex_vm.Files.{shabang, write_file_words, words_bytes, word_bytes, read_file_words}
use cortex_vm.Files.RoundTrip.{AreWords, read_file_words-write_file_words}

abbrev one_word : List ℕ
one_word = 0x0102_0304_0506_0708 ∷ []

abbrev one_word_file : List ℕ
one_word_file = shabang ++ (1 ∷ 2 ∷ 3 ∷ 4 ∷ 5 ∷ 6 ∷ 7 ∷ 8 ∷ [])

one_word_written : write_file_words true true one_word ≡ ok one_word_file
unfolding write_file_words words_bytes word_bytes
one_word_written = refl

one_word-AreWords : AreWords one_word
one_word-AreWords = (omega arith, tt)

read_file_words-write_file_words_example : read_file_words true (some one_word_file) ≡ ok one_word
read_file_words-write_file_words_example =
    read_file_words-write_file_words one_word one_word_file one_word-AreWords one_word_written
