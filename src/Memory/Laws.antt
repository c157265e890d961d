-- ===== src/Memory/Laws.antt =====
-- `setWord` and `loadWord` of src/core.c together, and the accesses to the heap's block.
use native.Mathlib.Decide.{dec_lt}
use cortex_vm.Prelude.{
  ℕ, ◌-◌, ◌≤◌, ◌<◌, ◌≡◌, ◌≢◌, ltb, leb, ◌==◌, ◌&&◌, if◌then◌else◌, Option, none, some, ok,
  undefined, ◌>>=◌, arith, Bool, bind_inversion, lt→ltb, le→ltb,
}
use cortex_vm.Isa.Codes.{heap_addr, stack_addr, stack_words}
use cortex_vm.Machine.{Block, HeapState, Vm, put}
use cortex_vm.Memory.{set_word, load_word, heap_write, heap_read}

-- The words in use lie in the block; without a block none is in use.
abbrev pub BlockHolds : Option Block → ℕ → Type 0
BlockHolds none n = n ≡ 0
BlockHolds (some b) n = n ≤ b.words

-- The heap's counters are right about its block.
pub record IsSound (h : HeapState) : Type 0 where
  pub in_use : h.used ≤ h.cap
  pub backed : BlockHolds h.base h.cap

-- An address at which a write is kept.
abbrev pub writable : HeapState → ℕ → Bool
writable h a =
    if ltb a heap_addr
    then Bool.false
    else if ltb a stack_addr
    then ltb (a - heap_addr) h.used
    else ltb (a - stack_addr) stack_words

heap_write_sound :
    (h : HeapState) (b : Option Block) (cap i v : ℕ)
    → h.used ≤ cap
    → BlockHolds b cap
    → heap_write h b i v ≢ undefined
unfolding heap_write
heap_write_sound h none cap i v u k e = cc
heap_write_sound h (some b) cap i v u k e = ground arith

heap_read_sound :
    (h : HeapState) (b : Option Block) (cap i : ℕ)
    → h.used ≤ cap
    → BlockHolds b cap
    → heap_read h b i ≢ undefined
unfolding heap_read
heap_read_sound h none cap i u k e = cc
heap_read_sound h (some b) cap i u k e = ground arith

module _ {W : Type 0} (vm : Vm W) (sound : IsSound vm.heap) where
  -- With a sound heap no write, to whatever address, leaves the heap's block.
  pub set_word-ne-undefined : (a v : ℕ) → set_word a v vm ≢ undefined
  unfolding set_word
  set_word-ne-undefined a v e = ground (
    arith,
    heap_write_sound vm.heap vm.heap.base vm.heap.cap (a - heap_addr) v sound.in_use sound.backed,
  )

  -- With a sound heap no read, from whatever address, leaves the heap's block.
  pub load_word-ne-undefined : (a n : ℕ) → load_word a n vm ≢ undefined
  unfolding load_word
  load_word-ne-undefined a n e = ground (
    arith,
    heap_read_sound vm.heap vm.heap.base vm.heap.cap (a - heap_addr) sound.in_use sound.backed,
  )

-- Where the block is named, so that a proof can split on it.
heap_read-heap_write :
    (h h' : HeapState) (o : Option Block) (i j v : ℕ)
    → heap_write h o i v ≡ ok h'
    → (heap_read h' h'.base j ≡ (if j == i then ok v else heap_read h o j)) × (i < h.used)
unfolding heap_read heap_write
heap_read-heap_write h h' none i j v e = cc
heap_read-heap_write h h' (some b) i j v e = ground arith

module _ {W : Type 0} where
  written_heap :
      (a b n v : ℕ) (vm vm' : Vm W)
      → heap_addr ≤ a
      → a < stack_addr
      → (heap_write vm.heap vm.heap.base (a - heap_addr) v >>= λ h. ok (record vm { heap = h }))
        ≡ ok vm'
      → load_word b n vm' ≡ (if b == a && writable vm.heap a then ok v else load_word b n vm)
  unfolding load_word
  written_heap a b n v vm vm' lo hi e =
      let (h, wrote, done) =
        bind_inversion (heap_write vm.heap vm.heap.base (a - heap_addr) v)
          (λ h. ok (record vm { heap = h })) e in
      ground (
        arith,
        heap_read-heap_write vm.heap h vm.heap.base (a - heap_addr) (b - heap_addr) v wrote,
        done,
      )

  written_stack :
      (a b n v : ℕ) (vm vm' : Vm W)
      → stack_addr ≤ a
      → (if leb stack_words (a - stack_addr)
          then ok vm
          else ok (record vm { stack = put vm.stack (a - stack_addr) v }))
        ≡ ok vm'
      → load_word b n vm' ≡ (if b == a && writable vm.heap a then ok v else load_word b n vm)
  unfolding load_word
  written_stack a b n v vm vm' lo e = ground arith

  -- After a write that returned, the written address reads as the value if it lies in the heap's
  -- used words or in the stack; any other address, and a written one behind the stack, reads as
  -- before.
  pub load_word-set_word :
      (a b n v : ℕ) (vm vm' : Vm W)
      → set_word a v vm ≡ ok vm'
      → load_word b n vm' ≡ (if b == a && writable vm.heap a then ok v else load_word b n vm)
  unfolding set_word
  load_word-set_word a b n v vm vm' e = elim (dec_lt a heap_addr) [
    | yes code ↦ cc (rw (lt→ltb a heap_addr code) at e)
    | no above ↦ elim (dec_lt a stack_addr) [
      | yes below ↦
          written_heap a b n v vm vm' (omega arith) below
            (rw (le→ltb a heap_addr (omega arith), lt→ltb a stack_addr below) at e)
      | no beyond ↦
          written_stack a b n v vm vm' (omega arith)
            (rw (le→ltb a heap_addr (omega arith), le→ltb a stack_addr (omega arith)) at e)
    ]
  ]
