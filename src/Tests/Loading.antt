-- ===== src/Tests/Loading.antt =====
-- A binary with the program of two words, loaded and run.
use cortex_vm.Prelude.{
  ℕ, zero, suc, ◌+◌, ◌*◌, ◌^◌, ◌≡◌, ◌<◌, ◌≤◌, ◌↔◌, refl, inl, inr, Bool, true, Result, ok, arith,
}
use cortex_vm.Isa.{opcode, funct, flags, i_ra, i_rd, i_rb, i_imm}
use cortex_vm.Machine.{Vm}
use cortex_vm.Alu.{alu_i}
use cortex_vm.Step.{exec_i, exec_sys, execute, finish_step, step, step_loop}
use cortex_vm.Decoded.{decode_all}
use cortex_vm.Decoded.Cache.{
  Cache, IsRoomy, Refreshed, refresh, run_cache_reset, refresh-run_cache_reset,
}
use cortex_vm.Header.{header_parse, header_validate, magic_number}
use cortex_vm.Header.Accepted.{IsBinary, validate-parse-IsBinary}
use cortex_vm.Run.Bounds.{IsCalm}
use cortex_vm.Loader.{Area, cortex_vm_create, load_vm, load_code, exec_binary}
use cortex_vm.Loader.Outcome.{EndsAs, exec_binary-refines-step_loop}
use cortex_vm.Tests.Programs.{test_host, test_fpu, blank, two_words, halt_word}

-- The header and two words of code, with this entry point.
abbrev pub file : ℕ → ℕ → ℕ
file entry zero = magic_number * 2 ^ 16 + 1
file entry (suc zero) = 7
file entry (suc (suc zero)) = entry
file entry (suc (suc (suc zero))) = 0
file entry (suc (suc (suc (suc zero)))) = 0
file entry (suc (suc (suc (suc (suc i))))) = two_words i

file-IsBinary : (entry : ℕ) → 5 ≤ entry → IsBinary 7 (file entry)
file-IsBinary entry h = record {
  first = inr refl;
  length_word = refl;
  entry_lower = h;
  flags_word = omega arith;
}

validate-parse-IsBinary_example :
    (header_validate 7 (header_parse (file 5)) ≡ ok (header_parse (file 5))) ↔ IsBinary 7 (file 5)
validate-parse-IsBinary_example = validate-parse-IsBinary 7 (file 5)

abbrev pub area : Area
area = record { address = 4096; contents = λ _. 0 }

abbrev pub malloc : ℕ → Bool
malloc n = true

-- Records of other code, from the same address and as many.
abbrev pub stale : Cache
stale = record {
  decoded = decode_all (λ _. halt_word) 2;
  decoded_cap = 3;
  block = 96;
  cached_cb = 4096;
  cached_len = 2;
}

pub stale-IsRoomy : IsRoomy stale
stale-IsRoomy = record { fits = omega arith }

refresh-run_cache_reset_example :
    Refreshed malloc two_words 2 (refresh malloc 4096 2 two_words (run_cache_reset stale))
refresh-run_cache_reset_example =
    refresh-run_cache_reset malloc 4096 2 two_words (omega arith) stale stale-IsRoomy (omega arith)

-- Without `runCacheReset` the old records would be run.
hit_stale : refresh malloc 4096 2 two_words stale ≡ ok stale
unfolding refresh
hit_stale = refl

abbrev pub created : Vm ℕ
created = cortex_vm_create area (blank (λ _. 0))

abbrev loaded : ℕ → Vm ℕ
loaded entry = load_vm (header_parse (file entry)) (file entry) area created

abbrev reached : Result (Vm ℕ) → Vm ℕ
reached (ok vm) = vm
reached _ = created

halted : Vm ℕ
halted = reached (step_loop test_host test_fpu 2 0 2 (loaded 5))

step_loop-loaded : step_loop test_host test_fpu 2 0 2 (loaded 5) ≡ ok halted
unfolding halted load_vm load_code header_parse cortex_vm_create step_loop step execute finish_step
    exec_i exec_sys alu_i opcode funct flags i_ra i_rd i_imm
step_loop-loaded = refl

file-IsCalm : (i : ℕ) → 5 ≤ i → i < 7 → IsCalm (file 5 i)
unfolding opcode i_ra i_rd i_rb
file-IsCalm (suc (suc (suc (suc (suc zero))))) lo hi = (refl, omega arith, inl (omega arith))
file-IsCalm (suc (suc (suc (suc (suc (suc zero)))))) lo hi = (refl, omega arith, inl (omega arith))
file-IsCalm i lo hi = absurd (omega arith)

exec_binary-refines-step_loop_example :
    EndsAs test_host test_fpu malloc area
      (file 5)
      7
      stale
      created
      halted
      (exec_binary test_host test_fpu malloc area 3 (file 5) 7 stale created)
exec_binary-refines-step_loop_example =
    exec_binary-refines-step_loop test_host test_fpu malloc area (file 5) 7 stale created 2 halted
      (λ n. refl) stale-IsRoomy (omega arith) (file-IsBinary 5 (omega arith)) (omega arith)
      (omega arith) file-IsCalm step_loop-loaded
