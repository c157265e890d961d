-- ===== src/Server/Fits.antt =====
-- The buffers of the replies of src/server.c.
use cortex_vm.Prelude.{
  ℕ, zero, suc, ◌+◌, ◌*◌, ◌/◌, ◌%◌, ◌^◌, ◌≤◌, ◌<◌, ◌≡◌, refl, ltb, Bool, true, false, Option, none,
  some, ◌==◌, leb, List, [], ◌∷◌, ◌++◌, codes, length, length-append, Result, ok, arith, lt→ltb,
  Bool-cases, inl, inr,
}
use cortex_vm.Disassembler.Lines.{digits}
use cortex_vm.Server.Escape.{json_escape-Granted}
use cortex_vm.Server.Grow.{Granted}
use cortex_vm.Isa.Codes.{pc_reg}
use cortex_vm.Machine.{Block}
use cortex_vm.Memory.Laws.{IsSound, BlockHolds}
use cortex_vm.Server.Session.{Session, heap_words, at_most, mem_max_words, memory_json, sp_word}
use cortex_vm.Server.Replies.{
  build, decimal_text, quoted, reg_values, build_regs_json, hex_digits, hex_upper, hex_words,
  words_to_json, running_piece, build_debug_state_json, step_waiting_json, waiting_json, error_json,
}

-- The text was built.
abbrev pub Fits : Result (List ℕ) → Type 0
Fits r = (text : List ℕ) × (r ≡ ok text)

build-Fits : (size : ℕ) (text : List ℕ) → length text < size → build size text ≡ ok text
unfolding build
build-Fits size text h = rw (lt→ltb (length text) size h) refl

digits-length : (fuel n : ℕ) (rest : List ℕ) → length (digits fuel n rest) ≤ fuel + length rest
unfolding digits
digits-length zero n rest = omega arith
digits-length (suc fuel) n rest = elim (Bool-cases (ltb n 10)) [
  | inl last ↦ rw last (omega arith)
  | inr more ↦ rw more (omega (arith, digits-length fuel (n / 10) ((b'0' + n % 10) ∷ rest)))
]

decimal_length : (n : ℕ) → length (decimal_text n) ≤ 20
decimal_length n = omega (arith, digits-length 20 n [])

quoted-length : (regs : List ℕ) → length (quoted regs) ≤ 23 * length regs
unfolding quoted
quoted-length [] = omega arith
quoted-length (r ∷ []) =
    rw (length-append (decimal_text r) (b'"' ∷ [])) (omega (arith, decimal_length r))
quoted-length (r ∷ s ∷ regs) =
    rw (length-append (decimal_text r) (b'"' ∷ b',' ∷ quoted (s ∷ regs)))
      (omega (arith, decimal_length r, quoted-length (s ∷ regs)))

reg_values-length : (left i : ℕ) (regs : ℕ → ℕ) → length (reg_values left i regs) ≡ left
unfolding reg_values
reg_values-length zero i regs = refl
reg_values-length (suc left) i regs = omega (arith, reg_values-length left (suc i) regs)

-- The registers in JSON.
abbrev regs_text : (ℕ → ℕ) → List ℕ
regs_text regs = quoted (reg_values 64 0 regs)

build_regs_json-Fits : (regs : ℕ → ℕ) → build_regs_json regs ≡ ok (regs_text regs)
unfolding build_regs_json
build_regs_json-Fits regs =
    build-Fits (64 * 24) (regs_text regs)
      (omega (arith, quoted-length (reg_values 64 0 regs), reg_values-length 64 0 regs))

running_length : (running : Bool) → length (running_piece running) ≤ 26
running_length true = omega arith
running_length false = omega arith

module _ (alloc : ℕ → Bool) (granted : Granted alloc) where
  build_debug_state_json-Fits :
      (out : List ℕ) (running : Bool) (regs : ℕ → ℕ) (exit_code : ℕ)
      → length out < 2 ^ 57
      → Fits (build_debug_state_json alloc out running regs exit_code)
  unfolding build_debug_state_json
  build_debug_state_json-Fits out running regs exit_code short =
      rw (json_escape-Granted alloc out short granted, build_regs_json-Fits regs)
        (
          _,
          build-Fits _ _ (
              simp length-append (omega (arith, running_length running, decimal_length exit_code))),
        )

  waiting_json-Fits :
      (out : List ℕ) (regs : ℕ → ℕ) → length out < 2 ^ 57 → Fits (waiting_json alloc out regs)
  unfolding waiting_json
  waiting_json-Fits out regs short =
      rw (json_escape-Granted alloc out short granted, build_regs_json-Fits regs)
        (_, build-Fits _ _ (simp length-append (omega arith)))

  error_json-Fits : (err : List ℕ) → length err < 2 ^ 57 → Fits (error_json alloc err)
  unfolding error_json
  error_json-Fits err short =
      rw (json_escape-Granted alloc err short granted)
        (_, build-Fits _ _ (simp length-append (omega arith)))

step_waiting_json-Fits : (regs : ℕ → ℕ) → Fits (step_waiting_json regs)
unfolding step_waiting_json
step_waiting_json-Fits regs =
    rw (build_regs_json-Fits regs) (_, build-Fits _ _ (simp length-append (omega arith)))

hex_digits-length :
    (left n : ℕ) (rest : List ℕ) → length (hex_digits left n rest) ≡ left + length rest
unfolding hex_digits
hex_digits-length zero n rest = omega arith
hex_digits-length (suc left) n rest =
    omega (arith, hex_digits-length left (n / 16) (hex_upper (n % 16) ∷ rest))

hex_words-length : (words : List ℕ) → length (hex_words words) ≤ 19 * length words
unfolding hex_words
hex_words-length [] = omega arith
hex_words-length (w ∷ []) = omega (arith, hex_digits-length 16 w (b'"' ∷ []))
hex_words-length (w ∷ v ∷ words) = omega (
  arith,
  hex_digits-length 16 w (b'"' ∷ b',' ∷ hex_words (v ∷ words)),
  hex_words-length (v ∷ words),
)

pub words_to_json-Fits : (words : List ℕ) → Fits (words_to_json words)
unfolding words_to_json
words_to_json-Fits [] = (codes "[]", refl)
words_to_json-Fits (w ∷ words) = (
  _,
  build-Fits (length (w ∷ words) * 22 + 4) ((b'[' ∷ hex_words (w ∷ words)) ++ (b']' ∷ []))
      (simp length-append (omega (arith, hex_words-length (w ∷ words)))),
)

memory_json-Fits :
    {W : Type 0} (s : Session W)
    → Fits (heap_words s.vm.heap.base (at_most mem_max_words s.vm.heap.used))
    → Fits (memory_json s)
unfolding memory_json
memory_json-Fits s (heap, found) =
    let (code_json, code) =
      words_to_json-Fits (reg_values (at_most mem_max_words s.file_length) 0 s.vm.code) in
    let (stack_json, stack) =
      words_to_json-Fits (reg_values (at_most mem_max_words (sp_word s)) 0 s.vm.stack) in
    let (heap_json, read) = words_to_json-Fits heap in
    rw (code, stack, found, read)
      (
        _,
        build-Fits _ _ (
            simp length-append
              (omega (arith, decimal_length (s.vm.regs pc_reg), decimal_length (sp_word s)))),
      )

heap_words-Fits :
    (base : Option Block) (cap used : ℕ)
    → BlockHolds base cap
    → used ≤ cap
    → Fits (heap_words base (at_most mem_max_words used))
unfolding heap_words
heap_words-Fits none cap used holds few =
    let empty : (at_most mem_max_words used == 0) ≡ true = ground arith in ([], rw empty refl)
heap_words-Fits (some block) cap used holds few =
    let inside : leb (at_most mem_max_words used) block.words ≡ true = ground arith in
    (reg_values (at_most mem_max_words used) 0 block.cells, rw inside refl)

-- If memory never runs out, for a session with a sound heap and a text shorter than 2 ^ 57, the
-- texts of the replies fit the buffers that they are put together in: the state, the two for a
-- machine that waits, the error and the memory; and the heap is read inside its block.
pub replies-Fits :
    {W : Type 0} (alloc : ℕ → Bool) (out : List ℕ) (s : Session W)
    → Granted alloc
    → length out < 2 ^ 57
    → IsSound s.vm.heap
    → Fits (build_debug_state_json alloc out s.running s.vm.regs s.vm.exit_code)
      × Fits (waiting_json alloc out s.vm.regs)
      × Fits (step_waiting_json s.vm.regs)
      × Fits (error_json alloc out)
      × Fits (memory_json s)
replies-Fits alloc out s granted short sound = (
  build_debug_state_json-Fits alloc granted out s.running s.vm.regs s.vm.exit_code short,
  waiting_json-Fits alloc granted out s.vm.regs short,
  step_waiting_json-Fits s.vm.regs,
  error_json-Fits alloc granted out short,
  memory_json-Fits s
      (heap_words-Fits s.vm.heap.base s.vm.heap.cap s.vm.heap.used sound.backed sound.in_use),
)
