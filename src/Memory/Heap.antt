-- ===== src/Memory/Heap.antt =====
-- `SYS_HEAP_TOP` and `SYS_HEAP_GROW` of `handleSyscall`. `vm->heap` is never NULL: it is made by
-- `cortexVMCreate`.
pub mod Grow
use cortex_vm.Prelude.{ℕ, ◌*◌, ltb, ◌==◌, if◌then◌else◌, Option, none, some, Result, ok}
use cortex_vm.Word.{add64, u64}
use cortex_vm.Isa.Codes.{heap_addr, a0}
use cortex_vm.Machine.{Block, HeapState, Vm, Host, set_reg}

module _ {W : Type 0} where
  unfoldable pub heap_top : Vm W → Result (Vm W)
  heap_top vm = ok (set_reg a0 (add64 heap_addr vm.heap.used) vm)

  -- The end of `SYS_HEAP_GROW`, after the capacity has been seen to.
  unfoldable pub heap_extend : ℕ → HeapState → Vm W → Vm W
  heap_extend nwords h vm =
      set_reg a0 (add64 h.used heap_addr)
        (record vm { heap = record h { used = add64 h.used nwords } })

  -- What follows `realloc`: on NULL the guest gets 0.
  unfoldable pub heap_realloced : ℕ → ℕ → Option Block → Vm W → Vm W
  unfolding heap_extend
  heap_realloced nwords new_cap none vm = set_reg a0 0 vm
  heap_realloced nwords new_cap (some b) vm =
      heap_extend nwords (record vm.heap { base = some b; cap = new_cap }) vm

  unfoldable pub heap_grow : Host W → Vm W → Result (Vm W)
  unfolding heap_realloced
  heap_grow host vm =
      let nwords = vm.regs a0 in
      let new_cap = add64 vm.heap.used nwords in
      if nwords == 0
      then ok (set_reg a0 0 vm)
      else if ltb vm.heap.cap new_cap
      then ok (
          heap_realloced nwords new_cap (host.realloc vm.heap.base (u64 (new_cap * 8)) vm.world) vm)
      else ok (heap_extend nwords vm.heap vm)
