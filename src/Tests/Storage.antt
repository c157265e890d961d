-- ===== src/Tests/Storage.antt =====
-- Memory and syscalls of src/core.c on small machines.
use cortex_vm.Prelude.{
  ℕ, ◌+◌, ◌≡◌, ◌≢◌, ◌==◌, ◌&&◌, if◌then◌else◌, refl, none, some, Result, ok, undefined, diverged,
  arith,
}
use cortex_vm.Isa.Codes.{a0, a1, heap_addr}
use cortex_vm.Machine.{Vm, HeapState, set_reg}
use cortex_vm.Memory.{set_word, load_word}
use cortex_vm.Memory.Laws.{IsSound, writable, load_word-set_word, set_word-ne-undefined}
use cortex_vm.Memory.Heap.{heap_grow}
use cortex_vm.Memory.Heap.Grow.{ReallocGrows, GrowResult, heap_grow_lem}
use cortex_vm.Word.{int64}
use cortex_vm.Word.Int.{◌≤ℤ◌}
use cortex_vm.Syscall.Random.{rand_r_int}
use cortex_vm.Syscall.Random.Bounds.{rand_r_int-bounded}
use cortex_vm.Syscall.Print.{print_str}
use cortex_vm.Syscall.Strings.{print_str-ne-diverged}
use cortex_vm.Tests.Programs.{test_host, blank, two_words}

-- A heap of one word out of two, and room for two more words asked for.
abbrev one_word_heap : HeapState
one_word_heap = record { base = some (record { words = 2; cells = λ _. 9 }); cap = 2; used = 1 }

abbrev small_machine : Vm ℕ
small_machine = set_reg a0 2 (record (blank two_words) { heap = one_word_heap })

one_word_heap-IsSound : IsSound one_word_heap
one_word_heap-IsSound = record { in_use = omega arith; backed = omega arith }

abbrev reached : Vm ℕ → Result (Vm ℕ) → Vm ℕ
reached d (ok vm) = vm
reached d _ = d

written : Vm ℕ
written = reached small_machine (set_word heap_addr 7 small_machine)

written_word : set_word heap_addr 7 small_machine ≡ ok written
unfolding written set_word
written_word = refl

load_word-set_word_example : load_word heap_addr 2 written ≡ (
    if heap_addr == heap_addr && writable small_machine.heap heap_addr
    then ok 7
    else load_word heap_addr 2 small_machine)
load_word-set_word_example =
    load_word-set_word heap_addr heap_addr 2 7 small_machine written written_word

set_word-ne-undefined_example : set_word (heap_addr + 1) 7 small_machine ≢ undefined
set_word-ne-undefined_example =
    set_word-ne-undefined small_machine one_word_heap-IsSound (heap_addr + 1) 7

grown_vm : Vm ℕ
grown_vm = reached small_machine (heap_grow test_host small_machine)

grown_machine : heap_grow test_host small_machine ≡ ok grown_vm
unfolding grown_vm heap_grow
grown_machine = refl

grown_words : grown_vm.heap.used ≡ 3
unfolding grown_vm heap_grow
grown_words = refl

test_host-ReallocGrows : ReallocGrows test_host
test_host-ReallocGrows none bytes w b' e = (ground (arith, e), tt)
test_host-ReallocGrows (some b) bytes w b' e =
    (ground (arith, e), λ i inside fits. ground (arith, e))

heap_grow_lem_example : GrowResult test_host small_machine grown_vm
heap_grow_lem_example =
    heap_grow_lem test_host small_machine one_word_heap-IsSound (omega arith) test_host-ReallocGrows
      grown_vm grown_machine

print_str-ne-diverged_example : print_str 2 small_machine ≢ diverged
print_str-ne-diverged_example =
    print_str-ne-diverged 2 small_machine (omega arith) (omega arith) (omega arith)

-- From -2 to 3.
abbrev dice : Vm ℕ
dice = set_reg a0 0xffff_ffff_ffff_fffe (set_reg a1 3 (blank two_words))

rand_r_int-bounded_example :
    (vm' : Vm ℕ) × ((rand_r_int test_host dice ≡ ok vm')
      × ((int64 (dice.regs a0) ≤ℤ int64 (vm'.regs a0))
          × (int64 (vm'.regs a0) ≤ℤ int64 (dice.regs a1))))
rand_r_int-bounded_example =
    rand_r_int-bounded test_host dice (omega arith) (omega arith) refl (omega arith)
