-- ===== src/Memory.antt =====
-- `setWord` and `loadWord` of src/core.c, and `heapStateCreate` of src/heap.c.
pub mod Heap
pub mod Laws
use cortex_vm.Prelude.{
  ℕ, ◌-◌, ltb, leb, if◌then◌else◌, Option, none, some, Result, ok, fatal, undefined, ◌>>=◌,
}
use cortex_vm.Isa.Codes.{heap_addr, stack_addr, stack_words}
use cortex_vm.Machine.{put, Block, HeapState, Vm}

-- `heapStateCreate`
unfoldable pub heap_state_create : HeapState
heap_state_create = record { base = none; cap = 0; used = 0 }

-- `heap->base[i] = v`, which has a meaning inside the block only.
unfoldable pub block_write : Block → ℕ → ℕ → Result Block
block_write b i v = if ltb i b.words then ok (record b { cells = put b.cells i v }) else undefined

unfoldable pub block_read : Block → ℕ → Result ℕ
block_read b i = if ltb i b.words then ok (b.cells i) else undefined

-- The middle branch of `setWord`, at the offset `addr - HEAP_ADDR`.
unfoldable pub heap_write : HeapState → Option Block → ℕ → ℕ → Result HeapState
unfolding block_write
heap_write h none i v = fatal 0x0211
heap_write h (some b) i v =
    if leb h.used i
    then fatal 0x0211
    else (block_write b i v >>= λ b'. ok (record h { base = some b' }))

unfoldable pub heap_read : HeapState → Option Block → ℕ → Result ℕ
unfolding block_read
heap_read h none i = ok 0
heap_read h (some b) i = if leb h.used i then ok 0 else block_read b i

module _ {W : Type 0} where
  -- A write to the code region ends the process, one above the stack is dropped.
  unfoldable pub set_word : ℕ → ℕ → Vm W → Result (Vm W)
  unfolding heap_write
  set_word addr val vm =
      if ltb addr heap_addr
      then fatal 0x0210
      else if ltb addr stack_addr
      then (heap_write vm.heap vm.heap.base (addr - heap_addr) val >>= λ h.
          ok (record vm { heap = h }))
      else if leb stack_words (addr - stack_addr)
      then ok vm
      else ok (record vm { stack = put vm.stack (addr - stack_addr) val })

  -- Reads outside of what is there give 0.
  unfoldable pub load_word : ℕ → ℕ → Vm W → Result ℕ
  unfolding heap_read
  load_word addr code_size vm =
      if ltb addr heap_addr
      then (if leb code_size addr then ok 0 else ok (vm.code addr))
      else if ltb addr stack_addr
      then heap_read vm.heap vm.heap.base (addr - heap_addr)
      else if leb stack_words (addr - stack_addr)
      then ok 0
      else ok (vm.stack (addr - stack_addr))
