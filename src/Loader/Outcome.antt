-- ===== src/Loader/Outcome.antt =====
-- What comes of a binary that is loaded and run.
use cortex_vm.Prelude.{
  ℕ, ◌+◌, ◌-◌, ◌^◌, ◌≢◌, Result, ◌≡◌, ◌≤◌, ◌<◌, refl, ap, sym, ◌∙◌, Bool, true, ok, arith, le→ltb,
  suc,
}
use cortex_vm.Word.{sub64, low_bits}
use cortex_vm.Isa.Codes.{pc_reg}
use cortex_vm.Machine.{Vm, Host, Fpu, set_reg}
use cortex_vm.Decoded.Cache.{Cache, IsRoomy, refresh-returns}
use cortex_vm.Decoded.{decode_all}
use cortex_vm.Header.{header_parse}
use cortex_vm.Header.Accepted.{IsBinary, validate-parse}
use cortex_vm.Run.{run, run_from}
use cortex_vm.Run.Agree.{set_reg_twice}
use cortex_vm.Run.Bounds.{IsCalm}
use cortex_vm.Run.Loop.{SameButPc, run_from-refines-step_loop}
use cortex_vm.Step.{step_loop}
use cortex_vm.Loader.{Area, load_code, load_vm, exec_binary}

module _ {W : Type 0} (host : Host W) (fpu : Fpu) (malloc : ℕ → Bool) (area : Area) (binary : ℕ → ℕ)
    (size : ℕ) (cache : Cache) (vm : Vm W) where
  -- The machine that `run` is given.
  abbrev pub loaded : Vm W
  loaded = load_vm (header_parse binary) binary area vm

  -- The code of the loaded machine has so many words.
  abbrev code_words : ℕ
  code_words = sub64 (binary 1) 5

  -- `run` on a loaded binary and its records, when there is memory for them.
  exec_binary-run :
      (fuel : ℕ) (vm' : Vm W)
      → ((n : ℕ) → malloc n ≡ true)
      → IsRoomy cache
      → area.address ≢ 0
      → code_words + 1 < 2 ^ 59
      → IsBinary size binary
      → run host fpu code_words (binary 3) (decode_all (loaded.code) code_words) fuel loaded
        ≡ ok vm'
      → (cache' : Cache) × (exec_binary host fpu malloc area fuel binary size cache vm
          ≡ ok (low_bits vm'.exit_code 32, (cache', vm')))
        × IsRoomy cache'
  unfolding exec_binary header_parse
  exec_binary-run fuel vm' plenty roomy some_area small binary_ok ran =
      let (cache', got, d) =
        refresh-returns malloc area.address code_words (loaded.code) small cache roomy some_area
          plenty in
      (
        cache',
        rw (validate-parse size binary binary_ok) (rw got (rw d.records (rw ran refl))),
        d.roomy,
      )

  loaded-pc : loaded.regs pc_reg ≡ sub64 (binary 2) 5
  unfolding load_vm header_parse
  loaded-pc = refl

  loaded-set_pc : set_reg pc_reg (sub64 (binary 2) 5) loaded ≡ loaded
  unfolding load_vm header_parse
  loaded-set_pc =
      set_reg_twice pc_reg (sub64 (binary 2) 5) (sub64 (binary 2) 5)
        (record vm { code = load_code (binary 1) binary area; exit_code = 0 })

  loaded-code : (i : ℕ) → i + 5 < binary 1 → loaded.code i ≡ binary (5 + i)
  unfolding load_vm load_code header_parse
  loaded-code i h = ground arith

  exec_binary-run_from :
      (n fuel : ℕ) (vm' : Vm W)
      → ((n : ℕ) → malloc n ≡ true)
      → IsRoomy cache
      → area.address ≢ 0
      → n + 1 < 2 ^ 59
      → IsBinary size binary
      → code_words ≡ n
      → sub64 (binary 2) 5 ≤ n
      → run_from host fpu n (binary 3) (decode_all (loaded.code) n) fuel (sub64 (binary 2) 5) loaded
        ≡ ok vm'
      → (cache' : Cache) × (exec_binary host fpu malloc area fuel binary size cache vm
          ≡ ok (low_bits vm'.exit_code 32, (cache', vm')))
        × IsRoomy cache'
  unfolding run
  exec_binary-run_from n fuel vm' plenty roomy some_area small binary_ok e inside ran =
      exec_binary-run fuel vm' plenty roomy some_area (omega (arith, e)) binary_ok
        (rw (e, loaded-pc, le→ltb n (sub64 (binary 2) 5) inside) ran)

  -- What `cortexVMExecBinary` returns, for a machine in which the loop of `step` has ended: the low
  -- 32 bits of the same exit code, and the same machine but for r0 and r1. The cache can be used
  -- again.
  abbrev pub EndsAs : Vm W → Result (ℕ × (Cache × Vm W)) → Type 0
  EndsAs final r =
      (cache' : Cache) × (vm' : Vm W) × (r ≡ ok (low_bits final.exit_code 32, (cache', vm')))
      × SameButPc final vm'
      × IsRoomy cache'

  -- Let the header be accepted for the size, which is below 2 ^ 59, let the entry point lie in the
  -- code, let every word of the code be calm, let the block of the cache hold as many records as it
  -- has room for, let the code not lie at NULL, and let memory never run out. If `while(step(...))`
  -- on the loaded machine ends within a number of rounds, then `cortexVMExecBinary` with one more
  -- round of fuel, whatever the cache has from code that ran before, returns the low 32 bits of the
  -- same exit code, the same machine but for r0 and r1, and a cache whose block holds as many
  -- records as it has room for.
  pub exec_binary-refines-step_loop :
      (fuel : ℕ) (final : Vm W)
      → ((n : ℕ) → malloc n ≡ true)
      → IsRoomy cache
      → area.address ≢ 0
      → IsBinary size binary
      → size < 2 ^ 59
      → binary 2 < size
      → ((i : ℕ) → 5 ≤ i → i < size → IsCalm (binary i))
      → step_loop host fpu (size - 5) (binary 3) fuel loaded ≡ ok final
      → EndsAs final (exec_binary host fpu malloc area (suc fuel) binary size cache vm)
  exec_binary-refines-step_loop fuel final plenty roomy some_area binary_ok small entry calm
        stepped =
      let e : sub64 (binary 1) 5 ≡ size - 5 =
        omega (arith, binary_ok.length_word, binary_ok.entry_lower) in
      let (vm', ran, same) =
        run_from-refines-step_loop host fpu (size - 5) (binary 3) fuel (sub64 (binary 2) 5) loaded
          final (omega arith)
          (λ i below.
            rw (loaded-code i (omega (arith, binary_ok.length_word)))
              (calm (5 + i) (omega arith) (omega arith)))
          (omega (arith, binary_ok.entry_lower)) (rw loaded-set_pc stepped) in
      let (cache', done, roomy') =
        exec_binary-run_from (size - 5) (suc fuel) vm' plenty roomy some_area (omega arith)
          binary_ok e (omega (arith, binary_ok.entry_lower)) ran in
      let e' : final.exit_code ≡ vm'.exit_code = ap (λ (v : Vm W). v.exit_code) same in
      (cache', vm', done ∙ ap (λ (c : ℕ). ok (low_bits c 32, (cache', vm'))) (sym e'), same, roomy')
