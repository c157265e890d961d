-- ===== src/Assembler/DataLines.antt =====
-- The loop of src/assembler.c over the lines of the data section that src/disassembler.c prints.
use native.Mathlib.Decide.{dec_lt}
use mathlib.Core.Path.{subst}
use cortex_vm.Prelude.{
  ℕ, zero, suc, ◌+◌, ◌-◌, ◌≤◌, ◌<◌, ◌≡◌, ◌≢◌, ◌==◌, refl, ap, ◌∙◌, sym, arith, Bool, Bool-cases,
  inl, inr, true, false, ltb, lt→ltb, le→ltb, if◌then◌else◌, Option, none, some, List, [], ◌∷◌,
  ◌++◌, append_assoc, append-nil, Result, ok, ◌>>=◌, bind_inversion,
}
use cortex_vm.Word.{sign_bit}
use cortex_vm.Machine.{Fpu}
use cortex_vm.Assembler.Immediate.{FloatText}
use cortex_vm.Assembler.Program.{Output, append_words, data_section}
use cortex_vm.Assembler.Listings.{ok_injective}
use cortex_vm.Assembler.Strings.{slice, Quotable, string_line-read, number_line-read}
use cortex_vm.Disassembler.Program.{
  string_end, string_at, string_line, number_line, data_lines, line_list_join,
}

-- Two rounds for each line, and one at the end.
abbrev pub line_rounds : List (List ℕ) → (spare : ℕ) → ℕ
line_rounds [] spare = suc spare
line_rounds (line ∷ lines) spare = suc (suc (line_rounds lines spare))

slice-split :
    (buff : ℕ → ℕ) (a b n i : ℕ)
    → n ≡ a + suc b
    → slice buff n i ≡ slice buff a i ++ (buff (i + a) ∷ slice buff b (suc (i + a)))
slice-split buff a b zero i h = absurd (omega arith)
slice-split buff zero b (suc n) i h =
    let same : n ≡ b = omega arith in let here : i + 0 ≡ i = omega arith in rw (same, here) refl
slice-split buff (suc a) b (suc n) i h =
    let shift : suc i + a ≡ i + suc a = omega arith in
    ap (λ t. buff i ∷ t) (rw (sym shift) (slice-split buff a b n (suc i) (omega arith)))

-- What is known of a string that was found.
pub record Found (buff : ℕ → ℕ) (left i j : ℕ) : Type 0 where
  pub behind : i ≤ j
  inside : j < i + left
  ended : buff j ≡ 0
  small : (k : ℕ) → i ≤ k → k < j → buff k < 128

same : (i k : ℕ) → i ≤ k → ¬ (i < k) → i ≡ k
same i k lo first = omega arith

string_end-Found :
    (buff : ℕ → ℕ) (left i j : ℕ) → string_end buff left i ≡ some j → Found buff left i j
unfolding string_end
string_end-Found buff zero i j h = absurd (cc)
string_end-Found buff (suc left) i j h = elim (Bool-cases (buff i == 0)) [
  | inl zero_here ↦ record {
    behind = ground arith;
    inside = ground arith;
    ended = ground arith;
    small = λ k lo hi. ground arith;
  }
  | inr text_here ↦
      let later : string_end buff left (suc i) ≡ some j = ground arith in
      let here : buff i < 128 = ground arith in
      let found = string_end-Found buff left (suc i) j later in
      record {
        behind = omega (arith, found.behind);
        inside = omega (arith, found.inside);
        ended = found.ended;
        small = λ k lo hi. elim (dec_lt i k) [
          | yes behind ↦ found.small k behind hi
          | no first ↦ ground (arith, ap buff (same i k lo first))
        ];
      }
]

pub string_at-Found :
    (buff : ℕ → ℕ) (file_length i j : ℕ)
    → string_at buff file_length i ≡ some j
    → Found buff (file_length - i) i j
unfolding string_at
string_at-Found buff file_length i j h = string_end-Found buff (file_length - i) i j (ground arith)

-- What the data section of a binary gives back.
abbrev pub Printable : ℕ → Type 0
Printable w = (w < sign_bit) × (w ≢ b'"')

append_words-twice :
    (first second : List ℕ) (out : Output)
    → append_words second (append_words first out) ≡ append_words (first ++ second) out
append_words-twice first second out = rw (append_assoc out.words first second) refl

pub when_true :
    {A : Type 0} (b : Bool) (x y : A) {z : A} → b ≡ true → (if b then x else y) ≡ z → x ≡ z
when_true true x y e h = h
when_true false x y e h = absurd (cc)

pub when_false :
    {A : Type 0} (b : Bool) (x y : A) {z : A} → b ≡ false → (if b then x else y) ≡ z → y ≡ z
when_false true x y e h = absurd (cc)
when_false false x y e h = h

-- A round of the loop in `disassemble`, by the end of the string that was found.
abbrev pub data_next : (buff : ℕ → ℕ) (fuel file_length i : ℕ) → Option ℕ → Result (List (List ℕ))
data_next buff fuel file_length i none =
    data_lines buff fuel file_length (suc i) >>= λ lines. ok (number_line buff i ∷ lines)
data_next buff fuel file_length i (some j) = string_line buff i j >>= λ line.
    data_lines buff fuel file_length (suc j) >>= λ lines. ok (line ∷ lines)

module _ (fpu : Fpu) (text : FloatText) (buff : ℕ → ℕ) (file_length : ℕ) where
  -- The rounds of the lines from `i` on append the words from `i` on.
  abbrev ReadsFrom : (i spare : ℕ) → List (List ℕ) → Type 0
  ReadsFrom i spare lines =
      (out : Output)
      → data_section fpu text (line_rounds lines spare) (line_list_join lines) out
        ≡ ok (append_words (slice buff (file_length - i) i) out)

  ReadsFrom-number :
      (i spare : ℕ) (lines : List (List ℕ))
      → i < file_length
      → buff i < sign_bit
      → ReadsFrom (suc i) spare lines
      → ReadsFrom i spare (number_line buff i ∷ lines)
  ReadsFrom-number i spare lines inside small later out =
      let rest = slice buff (file_length - suc i) (suc i) in
      let count : file_length - i ≡ suc (file_length - suc i) = omega arith in
      number_line-read fpu text buff (line_rounds lines spare) i (line_list_join lines) out small
      ∙ later (append_words (buff i ∷ []) out)
      ∙ ap ok (append_words-twice (buff i ∷ []) rest out)
      ∙ ap (λ n. ok (append_words (slice buff n i) out)) (sym count)

  ReadsFrom-string :
      (i j spare : ℕ) (line : List ℕ) (lines : List (List ℕ))
      → Found buff (file_length - i) i j
      → ((k : ℕ) → i ≤ k → k < file_length → Printable (buff k))
      → string_line buff i j ≡ ok line
      → ReadsFrom (suc j) spare lines
      → ReadsFrom i spare (line ∷ lines)
  ReadsFrom-string i j spare line lines found shown made later out =
      let string = slice buff (j - i) i in
      let rest = slice buff (file_length - suc j) (suc j) in
      let behind = found.behind in
      let inside = found.inside in
      let at : i + (j - i) ≡ j = omega arith in
      let quotable : (k : ℕ) → i ≤ k → k < j → Quotable (buff k) =
        λ k lo hi. (found.small k lo hi, (shown k lo (omega arith)).1) in
      let whole : slice buff (file_length - i) i ≡ string ++ ((0 ∷ []) ++ rest) =
        slice-split buff (j - i) (file_length - suc j) (file_length - i) i (omega arith)
        ∙ rw (at, found.ended) refl in
      string_line-read fpu text buff (line_rounds lines spare) i j line (line_list_join lines) out
        quotable behind made
      ∙ later (append_words (string ++ (0 ∷ [])) out)
      ∙ ap ok (append_words-twice (string ++ (0 ∷ [])) rest out)
      ∙ ap (λ ws. ok (append_words ws out)) (append_assoc string (0 ∷ []) rest ∙ sym whole)

  ReadsFrom-end : (i spare : ℕ) → i ≡ file_length → ReadsFrom i spare []
  unfolding data_section
  ReadsFrom-end i spare done out =
      let none_left : file_length - i ≡ 0 = omega arith in rw (none_left, append-nil out.words) refl

  -- The lines of one word or of one string, and those behind.
  ReadsFrom-next :
      (fuel i spare : ℕ) (lines : List (List ℕ)) (o : Option ℕ)
      → i < file_length
      → ((k : ℕ) → i ≤ k → k < file_length → Printable (buff k))
      → string_at buff file_length i ≡ o
      → ((j : ℕ) (more : List (List ℕ))
          → i ≤ j
          → j < file_length
          → data_lines buff fuel file_length (suc j) ≡ ok more
          → ReadsFrom (suc j) spare more)
      → data_next buff fuel file_length i o ≡ ok lines
      → ReadsFrom i spare lines
  ReadsFrom-next fuel i spare lines none inside shown at later made =
      let (more, made', joined) =
        bind_inversion (data_lines buff fuel file_length (suc i)) _ made in
      subst (ReadsFrom i spare) (ok_injective (number_line buff i ∷ more) lines joined) (
        ReadsFrom-number i spare more inside (shown i (omega arith) inside).0
          (later i more (omega arith) inside made'))
  ReadsFrom-next fuel i spare lines (some j) inside shown at later made =
      let found = string_at-Found buff file_length i j at in
      let order = found.behind in
      let before = found.inside in
      let (line, printed, others) = bind_inversion (string_line buff i j) _ made in
      let (more, made', joined) =
        bind_inversion (data_lines buff fuel file_length (suc j)) _ others in
      subst (ReadsFrom i spare) (ok_injective (line ∷ more) lines joined) (
        ReadsFrom-string i j spare line more found shown printed
          (later j more order (omega arith) made'))

  pub data_lines-read :
      (fuel i spare : ℕ) (lines : List (List ℕ))
      → i ≤ file_length
      → ((k : ℕ) → i ≤ k → k < file_length → Printable (buff k))
      → data_lines buff fuel file_length i ≡ ok lines
      → ReadsFrom i spare lines
  unfolding data_lines
  data_lines-read zero i spare lines order shown made = absurd (cc)
  data_lines-read (suc fuel) i spare lines order shown made = elim (dec_lt i file_length) [
    | yes inside ↦
        ReadsFrom-next fuel i spare lines (string_at buff file_length i) inside shown refl
          (λ j more lo hi.
            data_lines-read fuel (suc j) spare more hi (λ k klo khi. shown k (omega arith) khi))
          (when_true (ltb i file_length) _ _ (lt→ltb i file_length inside) made)
    | no outside ↦
        subst (ReadsFrom i spare)
          (ok_injective [] lines
            (when_false (ltb i file_length) _ _ (le→ltb i file_length (omega arith)) made))
          (ReadsFrom-end i spare (omega arith))
  ]
