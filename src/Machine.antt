-- ===== src/Machine.antt =====
-- The state of a virtual machine: `struct CortexVM` of include/vm_ctx.h with the `HeapState` of
-- include/heap.h, the file table of src/core.c and the streams that the syscalls use. What the C
-- library and the floating-point unit do is a parameter.
use cortex_vm.Prelude.{ℕ, ◌==◌, if◌then◌else◌, Option, List, Bool, ◌++◌}

-- The register file, indexed by the 6-bit numbers of an instruction.
abbrev pub Regs : Type 0
Regs = ℕ → ℕ

-- `a[i] = v`
abbrev pub put {ℓ} : {A : Type ℓ} → (ℕ → A) → ℕ → A → ℕ → A
put a i v j = if j == i then v else a j

-- What `realloc` returned: so many words, with their contents.
pub record Block : Type 0 where
  pub words : ℕ
  pub cells : ℕ → ℕ

-- `base` is NULL at first.
pub record HeapState : Type 0 where
  pub base : Option Block
  pub cap : ℕ
  pub used : ℕ

-- What a syscall writes to stdout: one `printf` conversion or one character.
pub data Event : Type 0 where
  put_i64 put_u64 put_o64 put_x64 put_char : ℕ → Event
  put_float : (precision v : ℕ) → Event

-- A `scanf` conversion.
pub data Scan : Type 0 where
  scn_i64 scn_u64 scn_o64 scn_x64 scn_float : Scan

-- `code` and `stack` are the arrays at `codeBase` and `stackBase`; `fds` is `fdTable`, in which
-- a file is known by a number; `input` is what is left of stdin, `output` what stdout has got.
pub record Vm (W : Type 0) : Type 0 where
  pub regs : Regs
  pub stack : ℕ → ℕ
  pub code : ℕ → ℕ
  pub heap : HeapState
  pub exit_code : ℕ
  pub fds : ℕ → Option ℕ
  pub input : List ℕ
  pub output : List Event
  pub world : W

-- The C library. `realloc` is given a size in bytes; `scanf` gives the converted word, if any,
-- and the rest of stdin; `fgetc` gives the characters that successive calls return before EOF.
pub record Host (W : Type 0) : Type 0 where
  pub realloc : Option Block → ℕ → W → Option Block
  pub scanf : Scan → List ℕ → Option ℕ × List ℕ
  pub rand : W → ℕ × W
  pub srand : ℕ → W → W
  pub time : W → ℕ × W
  pub sleep : ℕ → W → W
  pub fopen : List ℕ → ℕ → W → Option ℕ × W
  pub fgetc : ℕ → W → List ℕ × W
  pub fputc : ℕ → ℕ → W → W
  pub fclose : ℕ → W → W

-- The operations on `double`s, given by their 64-bit patterns; `widen` takes the 32-bit pattern
-- of a `float`. `unit_ratio r` is `(double)r / (double)RAND_MAX`.
pub record Fpu : Type 0 where
  pub fadd : ℕ → ℕ → ℕ
  pub fsub : ℕ → ℕ → ℕ
  pub fmul : ℕ → ℕ → ℕ
  pub fdiv : ℕ → ℕ → ℕ
  pub fneg : ℕ → ℕ
  pub fsqrt : ℕ → ℕ
  pub fabs : ℕ → ℕ
  pub ftoi : ℕ → ℕ
  pub ftoui : ℕ → ℕ
  pub itof : ℕ → ℕ
  pub uitof : ℕ → ℕ
  pub widen : ℕ → ℕ
  pub flt : ℕ → ℕ → Bool
  pub fle : ℕ → ℕ → Bool
  pub unit_ratio : ℕ → ℕ

module _ {W : Type 0} where
  -- `regs[i] = v`
  abbrev pub set_reg : ℕ → ℕ → Vm W → Vm W
  set_reg i v vm = record vm { regs = put vm.regs i v }

  abbrev pub emit : List Event → Vm W → Vm W
  emit es vm = record vm { output = vm.output ++ es }
