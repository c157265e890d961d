-- ===== src/Syscall.antt =====
-- `handleSyscall` of src/core.c: the number is in a13, the arguments are in a0 and a1. The Boolean
-- is its result, false when the machine stops.
pub mod Print
pub mod Strings
pub mod Read
pub mod Random
pub mod File
pub mod Frame
use cortex_vm.Prelude.{ℕ, ◌==◌, if◌then◌else◌, Bool, true, false, Result, ok, fatal, ◌>>=◌}
use cortex_vm.Isa.Codes.{
  a0, a13, sys_exit, sys_print_int, sys_print_uint, sys_print_char, sys_print_float, sys_print_str,
  sys_read_int, sys_read_uint, sys_read_char, sys_read_float, sys_read_str, sys_rand_seed,
  sys_rand_int, sys_rand_r_int, sys_rand_float, sys_file_open, sys_file_read, sys_file_close,
  sys_file_write, sys_time_get, sys_time_sleep, sys_heap_grow, sys_heap_top,
}
use cortex_vm.Machine.{Vm, Host, Fpu}
use cortex_vm.Memory.Heap.{heap_top, heap_grow}
use Print.{print_int, print_uint, print_char, print_float, print_str}
use Read.{read_int, read_uint, read_char, read_float, read_str}
use Random.{rand_seed, rand_int, rand_r_int, rand_float, time_get, time_sleep}
use File.{file_open, file_read, file_close, file_write}

module _ {W : Type 0} (host : Host W) (fpu : Fpu) where
  -- The cases after which the machine goes on.
  unfoldable pub service : (number code_size : ℕ) → Vm W → Result (Vm W)
  service n code_size vm =
      if n == sys_print_int
      then print_int vm
      else if n == sys_print_uint
      then print_uint vm
      else if n == sys_print_char
      then print_char vm
      else if n == sys_print_str
      then print_str code_size vm
      else if n == sys_read_int
      then read_int host vm
      else if n == sys_read_uint
      then read_uint host vm
      else if n == sys_read_char
      then read_char vm
      else if n == sys_read_str
      then read_str vm
      else if n == sys_rand_seed
      then rand_seed host vm
      else if n == sys_rand_int
      then rand_int host vm
      else if n == sys_rand_r_int
      then rand_r_int host vm
      else if n == sys_file_open
      then file_open host code_size vm
      else if n == sys_file_read
      then file_read host vm
      else if n == sys_file_close
      then file_close host vm
      else if n == sys_file_write
      then file_write host code_size vm
      else if n == sys_time_get
      then time_get host vm
      else if n == sys_time_sleep
      then time_sleep host vm
      else if n == sys_print_float
      then print_float vm
      else if n == sys_read_float
      then read_float host vm
      else if n == sys_rand_float
      then rand_float host fpu vm
      else if n == sys_heap_top
      then heap_top vm
      else if n == sys_heap_grow
      then heap_grow host vm
      else fatal 0x020c

  unfoldable pub handle_syscall : ℕ → Vm W → Result (Bool × Vm W)
  handle_syscall code_size vm =
      if vm.regs a13 == sys_exit
      then ok (false, record vm { exit_code = vm.regs a0 })
      else (service (vm.regs a13) code_size vm >>= λ vm'. ok (true, vm'))
