-- ===== src/Memory/Heap/Grow.antt =====
-- `SYS_HEAP_GROW` of src/core.c against what the guest is promised.
use native.Mathlib.Decide.{dec_lt}
use mathlib.Core.Path.{subst, ap}
use cortex_vm.Prelude.{
  lt→ltb, le→ltb, ℕ, ◌+◌, ◌*◌, ◌≤◌, ◌<◌, ◌≡◌, ◌⊎◌, inl, inr, refl, ◌==◌, ◌^◌, Option, none, some,
  Result, ok, arith, Bool-cases,
}
use cortex_vm.Word.{add64, u64}
use cortex_vm.Isa.Codes.{heap_addr, a0}
use cortex_vm.Machine.{Block, HeapState, Vm, Host}
use cortex_vm.Memory.{heap_read}
use cortex_vm.Memory.Laws.{IsSound, BlockHolds}
use cortex_vm.Memory.Heap.{heap_grow, heap_realloced, heap_extend}

-- The words of an old block that have a place in so many bytes are found in a new one.
abbrev pub Keeps : Option Block → (bytes : ℕ) → Block → Type 0
Keeps none bytes b' = Unit
Keeps (some b) bytes b' = (i : ℕ) → i < b.words → (i + 1) * 8 ≤ bytes → b'.cells i ≡ b.cells i

-- `realloc` as documented: room for the bytes, and the old contents as far as both blocks reach.
abbrev pub ReallocGrows : {W : Type 0} → Host W → Type 0
ReallocGrows {W} host =
    (o : Option Block) (bytes : ℕ) (w : W) (b' : Block)
    → host.realloc o bytes w ≡ some b'
    → (bytes ≤ b'.words * 8) × Keeps o bytes b'

-- The heap after a call that allocated: the counters, and the old words.
abbrev pub Grew : ℕ → HeapState → HeapState → Type 0
Grew nwords h h' =
    (h'.used ≡ h.used + nwords)
    × IsSound h'
    × ((j : ℕ) → j < h.used → heap_read h' h'.base j ≡ heap_read h h.base j)

-- More words in use change no read of an old one.
reads_extended :
    (h : HeapState) (o : Option Block) (u j : ℕ)
    → j < h.used
    → j < u
    → heap_read (record h { used = u }) o j ≡ heap_read h o j
unfolding heap_read
reads_extended h none u j old new = refl
reads_extended h (some b) u j old new = ground arith

-- Nor does a larger block with the same contents.
reads_moved :
    (h h' : HeapState) (o : Option Block) (bytes : ℕ) (b : Block) (j : ℕ)
    → Keeps o bytes b
    → BlockHolds o h.cap
    → h.used ≤ h.cap
    → h.cap ≤ b.words
    → j < h.used
    → j < h'.used
    → (j + 1) * 8 ≤ bytes
    → heap_read h' (some b) j ≡ heap_read h o j
unfolding heap_read
reads_moved h h' none bytes b j keeps holds le room old new fits = absurd (omega arith)
reads_moved h h' (some b₀) bytes b j keeps holds le room old new fits =
    ground (arith, keeps j (omega arith) fits)

module _ {W : Type 0} (host : Host W) (vm : Vm W) where
  -- The guest's answer and its heap.
  abbrev pub GrowResult : Vm W → Type 0
  GrowResult vm' =
      ((vm'.regs a0 ≡ 0) × (vm'.heap ≡ vm.heap))
      ⊎ ((vm'.regs a0 ≡ heap_addr + vm.heap.used) × Grew (vm.regs a0) vm.heap vm'.heap)

  abbrev returned : Result (Vm W) → Vm W
  returned (ok a) = a
  returned _ = vm

  GrowResult-ok : {a b : Vm W} → ok a ≡ ok b → GrowResult a → GrowResult b
  GrowResult-ok e r = subst GrowResult (ap returned e) r

  module _ (sound : IsSound vm.heap) (small : vm.heap.used + vm.regs a0 < 2 ^ 61)
      (grows : ReallocGrows host) where
    same_block :
        vm.heap.used + vm.regs a0 ≤ vm.heap.cap → GrowResult (heap_extend (vm.regs a0) vm.heap vm)
    unfolding heap_extend
    same_block fits = inr (
      omega (arith, sound.in_use),
      (
        omega arith,
        record { in_use = omega arith; backed = sound.backed },
        (λ j old.
            reads_extended vm.heap vm.heap.base (u64 (vm.heap.used + vm.regs a0)) j old
              (omega arith)),
      ),
    )

    new_block :
        (o : Option Block)
        → vm.heap.cap < vm.heap.used + vm.regs a0
        → host.realloc vm.heap.base (u64 ((vm.heap.used + vm.regs a0) * 8)) vm.world ≡ o
        → GrowResult (heap_realloced (vm.regs a0) (vm.heap.used + vm.regs a0) o vm)
    unfolding heap_realloced heap_extend
    new_block none more e = inl (ground arith, refl)
    new_block (some b) more e =
        let cap' = vm.heap.used + vm.regs a0 in
        let (room, keeps) = grows vm.heap.base (u64 (cap' * 8)) vm.world b e in
        inr (
          omega arith,
          (
            omega arith,
            record { in_use = omega arith; backed = omega arith },
            (λ j old.
                reads_moved vm.heap (record { base = some b; cap = cap'; used = u64 cap' })
                  vm.heap.base (u64 (cap' * 8)) b j keeps sound.backed sound.in_use (omega arith)
                  old (omega arith) (omega arith)),
          ),
        )

    -- For a sound heap, a request that keeps it below 2 ^ 61 words and a `realloc` as documented,
    -- `SYS_HEAP_GROW` either gives the guest 0 and leaves the heap as it was, or gives it the old
    -- end of the heap; then the heap has so many words more, is sound, and every old word reads as
    -- before.
    pub heap_grow_lem : (vm' : Vm W) → heap_grow host vm ≡ ok vm' → GrowResult vm'
    unfolding heap_grow
    heap_grow_lem vm' h =
        let sum : add64 vm.heap.used (vm.regs a0) ≡ vm.heap.used + vm.regs a0 = omega arith in
        elim (Bool-cases (vm.regs a0 == 0)) [
          | inl zero_words ↦
              let e = rw zero_words at h in inl (ground (arith, e), ground (arith, e))
          | inr some_words ↦ elim (dec_lt vm.heap.cap (vm.heap.used + vm.regs a0)) [
            | yes more ↦
                let e =
                  rw (some_words, sum, lt→ltb vm.heap.cap (vm.heap.used + vm.regs a0) more) at h in
                GrowResult-ok e (
                  new_block
                    (host.realloc vm.heap.base (u64 ((vm.heap.used + vm.regs a0) * 8)) vm.world)
                    (omega arith) refl)
            | no fits ↦
                let e =
                  rw
                    (some_words, le→ltb vm.heap.cap (add64 vm.heap.used (vm.regs a0)) (omega arith))
                    at h in
                GrowResult-ok e (same_block (omega arith))
          ]
        ]
