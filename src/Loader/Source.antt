-- ===== src/Loader/Source.antt =====
-- `cortexVMExecSource` of src/cortex-vm.c: the assembler and the loader together. The buffer that
-- `assemble` returns is read at its indices.
use cortex_vm.Prelude.{
  Bool, true, ℕ, suc, ◌-◌, ◌^◌, ◌≤◌, ◌<◌, ◌≢◌, ◌≡◌, sym, List, length, Result, ok, ◌>>=◌,
  Ensures-ok, nested_chain,
}
use cortex_vm.Machine.{Host, Fpu, Vm}
use cortex_vm.Header.{header_parse}
use cortex_vm.Header.Accepted.{IsBinary}
use cortex_vm.Decoded.Cache.{Cache, IsRoomy}
use cortex_vm.Run.Bounds.{IsCalm}
use cortex_vm.Step.{step_loop}
use cortex_vm.Loader.Outcome.{EndsAs, exec_binary-refines-step_loop}
use cortex_vm.Loader.{Area, cortex_vm_create, load_vm, exec_binary, exec_alone}
use cortex_vm.Assembler.Immediate.{FloatText}
use cortex_vm.Assembler.Assemble.{assemble}
use cortex_vm.Assembler.Accepted.{word_at, assemble-IsImage}

module _ {W : Type 0} (host : Host W) (fpu : Fpu) (text : FloatText) (malloc : ℕ → Bool)
    (area : Area) where
  unfoldable pub exec_source :
      (assemble_fuel fuel : ℕ) (source : List ℕ) → Cache → Vm W → Result (ℕ × (Cache × Vm W))
  exec_source assemble_fuel fuel source cache vm =
      assemble fpu text assemble_fuel source >>= λ buff.
      exec_binary host fpu malloc area fuel (word_at buff) (word_at buff 1) cache vm

  -- Let a source be assembled to fewer than 2 ^ 59 words that are calm behind the header, with the
  -- entry point in the code, and let the cache and the memory be as `cortexVMExecBinary` needs
  -- them. If `while(step(...))` on the loaded machine ends within a number of rounds, then
  -- `cortexVMExecSource`, with one more round of fuel, never refuses the header and returns the low
  -- 32 bits of the same exit code, the same machine but for r0 and r1, and a cache that is fit for
  -- the next run.
  pub exec_source-refines-step_loop :
      (assemble_fuel fuel : ℕ) (source buff : List ℕ) (cache : Cache) (vm final : Vm W)
      → ((n : ℕ) → malloc n ≡ true)
      → IsRoomy cache
      → area.address ≢ 0
      → assemble fpu text assemble_fuel source ≡ ok buff
      → length buff < 2 ^ 59
      → word_at buff 2 < length buff
      → ((i : ℕ) → 5 ≤ i → i < length buff → IsCalm (word_at buff i))
      → step_loop host fpu
          (length buff - 5)
          (word_at buff 3)
          fuel
          (load_vm (header_parse (word_at buff)) (word_at buff) area vm)
        ≡ ok final
      → EndsAs host fpu malloc area
          (word_at buff)
          (length buff)
          cache
          vm
          final
          (exec_source assemble_fuel (suc fuel) source cache vm)
  unfolding exec_source
  exec_source-refines-step_loop assemble_fuel fuel source buff cache vm final plenty roomy some_area
        assembled small entry calm stepped =
      let image =
        Ensures-ok (λ words. IsBinary (length words) (word_at words))
          (assemble fpu text assemble_fuel source) buff
          (assemble-IsImage fpu text assemble_fuel source) assembled in
      rw (assembled, image.length_word)
        (exec_binary-refines-step_loop host fpu malloc area (word_at buff) (length buff) cache vm
          fuel final plenty roomy some_area image small entry calm stepped)

  -- The old `cortexExecSource`. `assemble` never returns NULL.
  unfoldable pub exec_source_alone :
      (stack : Area) (assemble_fuel fuel : ℕ) (source : List ℕ) → Cache → Vm W → Result ℕ
  exec_source_alone stack assemble_fuel fuel source cache process =
      assemble fpu text assemble_fuel source >>= λ buff.
      exec_alone host fpu malloc stack area fuel (word_at buff) (word_at buff 1) cache process

  -- It is `cortexVMExecSource` on a machine that `cortexVMCreate` has made.
  pub exec_source_alone-exec_source :
      (stack : Area) (assemble_fuel fuel : ℕ) (source : List ℕ) (cache : Cache) (process : Vm W)
      → exec_source_alone stack assemble_fuel fuel source cache process ≡ (
          exec_source assemble_fuel fuel source cache (cortex_vm_create stack process)
          >>= λ (exit_code, _). ok exit_code)
  unfolding exec_source_alone exec_source exec_alone
  exec_source_alone-exec_source stack assemble_fuel fuel source cache process = sym (
      nested_chain
        (λ buff.
          exec_binary host fpu malloc area fuel (word_at buff) (word_at buff 1) cache
            (cortex_vm_create stack process))
        (λ (exit_code, _). ok exit_code) (assemble fpu text assemble_fuel source))
