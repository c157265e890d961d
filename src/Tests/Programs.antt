-- ===== src/Tests/Programs.antt =====
-- A C library and a floating-point unit for tests, a blank machine and a program of two words.
use cortex_vm.Prelude.{ℕ, ◌+◌, ◌/◌, none, some, [], ltb, leb}
use cortex_vm.Machine.{Host, Fpu, Vm, put}

-- `realloc` keeps what was there, `scanf` converts nothing, `rand` counts.
abbrev pub test_host : Host ℕ
test_host = record {
  realloc = elim [
    | none ↦ λ bytes w. some (record { words = (bytes + 7) / 8; cells = λ _. 0 })
    | some b ↦ λ bytes w. some (record { words = (bytes + 7) / 8; cells = b.cells })
  ];
  scanf = λ sc input. (none, input);
  rand = λ w. (w, w + 1);
  srand = λ seed w. seed;
  time = λ w. (w, w);
  sleep = λ s w. w + s;
  fopen = λ path mode w. (none, w);
  fgetc = λ f w. ([], w);
  fputc = λ c f w. w;
  fclose = λ f w. w;
}

abbrev pub test_fpu : Fpu
test_fpu = record {
  fadd = λ a b. a;
  fsub = λ a b. a;
  fmul = λ a b. a;
  fdiv = λ a b. a;
  fneg = λ a. a;
  fsqrt = λ a. a;
  fabs = λ a. a;
  ftoi = λ a. a;
  ftoui = λ a. a;
  itof = λ a. a;
  uitof = λ a. a;
  widen = λ a. a;
  flt = λ a b. ltb a b;
  fle = λ a b. leb a b;
  unit_ratio = λ r. r;
}

-- A machine with this code, all registers and memory 0.
abbrev pub blank : (ℕ → ℕ) → Vm ℕ
blank code = record {
  regs = λ _. 0;
  stack = λ _. 0;
  code = code;
  heap = record { base = none; cap = 0; used = 0 };
  exit_code = 0;
  fds = λ _. none;
  input = [];
  output = [];
  world = 0;
}

-- addi r4, r0, 7
abbrev pub addi_word : ℕ
addi_word = 0x8201_0040_0000_0007

-- halt
abbrev pub halt_word : ℕ
halt_word = 0x8601_0000_0000_0000

-- addi r4, r0, 7; halt
abbrev pub two_words : ℕ → ℕ
two_words = put (put (λ _. 0) 0 addi_word) 1 halt_word
