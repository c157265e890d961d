-- ===== src/Syscall/Strings.antt =====
-- The loop of `SYS_PRINT_STR` of src/core.c, and what stands behind each region of the memory.
use cortex_vm.Prelude.{
  inl, inr, Bool-cases, ℕ, zero, suc, ◌+◌, ◌-◌, ◌≤◌, ◌<◌, ◌≡◌, ◌≢◌, refl, ltb, ◌==◌, if◌then◌else◌,
  Result, ok, fatal, undefined, diverged, ◌>>=◌, arith, some, none, Option, List, [], ◌∷◌, map,
}
use cortex_vm.Word.{add64, word_mod, low_bits}
use cortex_vm.Isa.Codes.{heap_addr, stack_addr, stack_words, a0}
use cortex_vm.Machine.{Block, Vm, emit, put_char}
use cortex_vm.Memory.{load_word, heap_read, block_read}
use cortex_vm.Syscall.Print.{c_string, string_fuel, print_str}

-- How many words of its region are left from an address on.
abbrev pub words_left : {W : Type 0} → ℕ → ℕ → Vm W → ℕ
words_left a n vm =
    if ltb a heap_addr
    then n - a
    else if ltb a stack_addr
    then vm.heap.used - (a - heap_addr)
    else stack_words - (a - stack_addr)

module _ {W : Type 0} (n : ℕ) (vm : Vm W) where
  heap_read-behind :
      (o : Option Block) (i w : ℕ) → vm.heap.used ≤ i → heap_read vm.heap o i ≡ ok w → w ≡ 0
  unfolding heap_read
  heap_read-behind none i w h e = ground (arith, e)
  heap_read-behind (some b) i w h e = ground (arith, e)

  load_word-behind : (a w : ℕ) → words_left a n vm ≡ 0 → load_word a n vm ≡ ok w → w ≡ 0
  unfolding load_word
  load_word-behind a w h e = ground (arith, heap_read-behind vm.heap.base (a - heap_addr) w)

  heap_read-ne-diverged : (o : Option Block) (i : ℕ) → heap_read vm.heap o i ≢ diverged
  unfolding heap_read block_read
  heap_read-ne-diverged none i e = cc
  heap_read-ne-diverged (some b) i e = ground arith

  load_word-ne-diverged : (a : ℕ) → load_word a n vm ≢ diverged
  unfolding load_word
  load_word-ne-diverged a e = ground (arith, heap_read-ne-diverged vm.heap.base (a - heap_addr))

  bind-ne-diverged :
      {A B : Type 0} (r : Result A) (f : A → B) → r ≢ diverged → (r >>= λ a. ok (f a)) ≢ diverged
  bind-ne-diverged (ok a) f h = λ e. cc
  bind-ne-diverged (fatal c) f h = λ e. cc
  bind-ne-diverged undefined f h = λ e. cc
  bind-ne-diverged diverged f h = absurd (h refl)

  -- One round, given what it read and what the rounds after it give.
  round-ends :
      (read : Result ℕ) (rest : Result (List ℕ))
      → read ≢ diverged
      → ((w : ℕ) → read ≡ ok w → w ≢ 0 → rest ≢ diverged)
      → (read >>= λ w. if low_bits w 8 == 0 then ok [] else (rest >>= λ cs. ok (low_bits w 8 ∷ cs)))
        ≢ diverged
  round-ends (ok w) rest reads ends = elim (Bool-cases (low_bits w 8 == 0)) [
    | inl last ↦ λ e. cc (rw last at e)
    | inr more ↦ (λ e.
        bind-ne-diverged rest (λ cs. low_bits w 8 ∷ cs) (ends w refl λ zero_word. ground arith)
          (rw more at e))
  ]
  round-ends (fatal c) rest reads ends = λ e. cc
  round-ends undefined rest reads ends = λ e. cc
  round-ends diverged rest reads ends = absurd (reads refl)

  module _ (code_fits : n < heap_addr) (heap_fits : heap_addr + vm.heap.used < stack_addr) where
    words_left-add64 :
        (a k : ℕ)
        → a < word_mod
        → words_left a n vm ≢ 0
        → words_left a n vm ≤ k
        → words_left (add64 a 1) n vm < k
    words_left-add64 a k small some_left h = ground arith

    c_string-ends :
        (fuel a : ℕ) → a < word_mod → words_left a n vm < fuel → c_string fuel a n vm ≢ diverged
    unfolding c_string
    c_string-ends zero a small h = λ e. omega arith
    c_string-ends (suc fuel) a small h =
        round-ends (load_word a n vm) (c_string fuel (add64 a 1) n vm) (load_word-ne-diverged a)
          (λ w reads some_word. c_string-ends fuel (add64 a 1) (omega arith) (
            words_left-add64 a fuel small
              (λ none_left. some_word (load_word-behind a w none_left reads)) (omega arith)))

    -- With code that ends below the heap's address, a heap that ends below the stack's and a word
    -- in a0, the loop of `SYS_PRINT_STR` does not outlast its fuel, wherever the string starts.
    pub print_str-ne-diverged : vm.regs a0 < word_mod → print_str n vm ≢ diverged
    unfolding print_str
    print_str-ne-diverged small =
        bind-ne-diverged (c_string (string_fuel n vm) (vm.regs a0) n vm)
          (λ cs. emit (map put_char cs) vm)
          (c_string-ends (string_fuel n vm) (vm.regs a0) small (ground arith))
