-- ===== src/Loader.antt =====
-- `cortexVMCreate` and `cortexVMExecBinary` of src/cortex-vm.c. What the arenas of deps/arena give
-- is a parameter.
pub mod Outcome
pub mod Source
use cortex_vm.Prelude.{ℕ, ◌+◌, ltb, if◌then◌else◌, Bool, none, [], Result, ok, ◌>>=◌}
use cortex_vm.Word.{sub64, low_bits}
use cortex_vm.Isa.Codes.{pc_reg, sp_reg, stack_addr, header_len}
use cortex_vm.Machine.{Vm, Host, Fpu, put, set_reg}
use cortex_vm.Memory.{heap_state_create}
use cortex_vm.Decoded.Cache.{Cache, run_cache_reset, refresh}
use cortex_vm.Header.{Header, header_parse, header_validate}
use cortex_vm.Run.{run}

-- What a fresh arena hands out: an address, and what stands there.
pub record Area : Type 0 where
  pub address : ℕ
  pub contents : ℕ → ℕ

-- The words behind the header are moved to the start of the code area.
unfoldable pub load_code : (file_length : ℕ) (binary : ℕ → ℕ) → Area → ℕ → ℕ
load_code file_length binary area i =
    if ltb (header_len + i) file_length then binary (header_len + i) else area.contents i

module _ {W : Type 0} where
  -- `cortexVMCreate`; the stack has what the arena's memory had. The process's streams and file
  -- table are as they are. `malloc`, whose result is not tested, is taken to succeed.
  unfoldable pub cortex_vm_create : (stack : Area) → Vm W → Vm W
  cortex_vm_create area process = record process {
    regs = put (λ _. 0) sp_reg stack_addr;
    stack = area.contents;
    heap = heap_state_create;
  }

  -- The machine on which `run` is called: the entry point is an offset into the file.
  unfoldable pub load_vm : Header → (ℕ → ℕ) → Area → Vm W → Vm W
  unfolding load_code
  load_vm h binary area vm =
      set_reg pc_reg (sub64 h.offset header_len)
        (record vm { code = load_code h.file_length binary area; exit_code = 0 })

  -- `cortexVMExecBinary`, with the cache, whose `decoded` records `run` executes.
  unfoldable pub exec_binary :
      Host W
      → Fpu
      → (malloc : ℕ → Bool) → Area
      → (fuel : ℕ) (binary : ℕ → ℕ) (word_count : ℕ) → Cache
      → Vm W
      → Result (ℕ × (Cache × Vm W))
  unfolding load_vm
  exec_binary host fpu malloc area fuel binary word_count cache vm =
      header_validate word_count (header_parse binary) >>= λ h.
      let size = sub64 h.file_length header_len in
      let loaded = load_vm h binary area vm in
      refresh malloc area.address size loaded.code (run_cache_reset cache) >>= λ cache'.
      run host fpu size h.extensions cache'.decoded fuel loaded >>= λ vm'.
      ok (low_bits vm'.exit_code 32, (cache', vm'))

  -- The old `cortexExecBinary`: a machine of its own, of which the exit code is left.
  unfoldable pub exec_alone :
      Host W
      → Fpu
      → (malloc : ℕ → Bool) → (stack code : Area) → (fuel : ℕ) (binary : ℕ → ℕ) (word_count : ℕ)
      → Cache
      → Vm W
      → Result ℕ
  unfolding cortex_vm_create exec_binary
  exec_alone host fpu malloc stack code fuel binary word_count cache process =
      exec_binary host fpu malloc code fuel binary word_count cache (cortex_vm_create stack process)
      >>= λ (exit_code, _). ok exit_code
