-- ===== src/Syscall/Frame.antt =====
-- What the syscalls of src/core.c leave alone.
use cortex_vm.Prelude.{
  ℕ, ◌+◌, ◌-◌, ltb, ◌==◌, ◌≡◌, ◌≢◌, ◌∙◌, if◌then◌else◌, Bool, true, false, Option, none, some, List,
  [], ◌∷◌, Result, ok, fatal, bind_inversion, arith, Bool-cases, inl, inr,
}
use cortex_vm.Word.{add64}
use cortex_vm.Isa.Codes.{a0, a1, a13, sys_exit}
use cortex_vm.Machine.{Vm, Host, Fpu, set_reg}
use cortex_vm.Memory.{set_word}
use cortex_vm.Memory.Heap.{heap_top, heap_grow}
use cortex_vm.Syscall.{service, handle_syscall}
use cortex_vm.Syscall.Print.{print_int, print_uint, print_char, print_float, print_str}
use cortex_vm.Syscall.Read.{read_int, read_uint, read_char, read_float, read_str, read_chars}
use cortex_vm.Syscall.Random.{rand_seed, rand_int, rand_r_int, rand_float, time_get, time_sleep}
use cortex_vm.Syscall.File.{
  file_open, file_read, file_read_from, file_close, file_write, open_at, open_file, read_path,
  free_fd, write_chars,
}

module _ {W : Type 0} (i : ℕ) where
  -- The code is the same, and so is register `i`.
  abbrev pub Frame : Vm W → Vm W → Type 0
  Frame vm vm' = (vm'.code ≡ vm.code) × (vm'.regs i ≡ vm.regs i)

  pub Frame-set_word : (a v : ℕ) (vm vm' : Vm W) → set_word a v vm ≡ ok vm' → Frame vm vm'
  unfolding set_word
  Frame-set_word a v vm vm' h = ground arith

  Frame-trans : (a b c : Vm W) → Frame a b → Frame b c → Frame a c
  Frame-trans a b c h k = (k.0 ∙ h.0, k.1 ∙ h.1)

  module _ (ne : i ≢ a0) where
    Frame-heap_grow : (host : Host W) (vm vm' : Vm W) → heap_grow host vm ≡ ok vm' → Frame vm vm'
    unfolding heap_grow
    Frame-heap_grow host vm vm' h = ground arith

    Frame-print_int : (vm vm' : Vm W) → print_int vm ≡ ok vm' → Frame vm vm'
    unfolding print_int
    Frame-print_int vm vm' h = ground arith

    Frame-print_uint : (vm vm' : Vm W) → print_uint vm ≡ ok vm' → Frame vm vm'
    unfolding print_uint
    Frame-print_uint vm vm' h = ground arith

    Frame-print_char : (vm vm' : Vm W) → print_char vm ≡ ok vm' → Frame vm vm'
    unfolding print_char
    Frame-print_char vm vm' h = ground arith

    Frame-print_float : (vm vm' : Vm W) → print_float vm ≡ ok vm' → Frame vm vm'
    unfolding print_float
    Frame-print_float vm vm' h = ground arith

    Frame-print_str : (n : ℕ) (vm vm' : Vm W) → print_str n vm ≡ ok vm' → Frame vm vm'
    unfolding print_str
    Frame-print_str n vm vm' h = ground arith

    Frame-read_int : (host : Host W) (vm vm' : Vm W) → read_int host vm ≡ ok vm' → Frame vm vm'
    unfolding read_int
    Frame-read_int host vm vm' h = ground arith

    Frame-read_uint : (host : Host W) (vm vm' : Vm W) → read_uint host vm ≡ ok vm' → Frame vm vm'
    unfolding read_uint
    Frame-read_uint host vm vm' h = ground arith

    Frame-read_float : (host : Host W) (vm vm' : Vm W) → read_float host vm ≡ ok vm' → Frame vm vm'
    unfolding read_float
    Frame-read_float host vm vm' h = ground arith

    Frame-read_char : (vm vm' : Vm W) → read_char vm ≡ ok vm' → Frame vm vm'
    unfolding read_char
    Frame-read_char vm vm' h = ground arith

    Frame-read_chars :
        (limit addr k : ℕ) (cs : List ℕ) (vm vm' : Vm W)
        → read_chars limit addr k cs vm ≡ ok vm'
        → Frame vm vm'
    unfolding read_chars
    Frame-read_chars limit addr k [] vm vm' h =
        Frame-set_word (add64 addr k) 0 (record vm { input = [] }) vm' h
    Frame-read_chars limit addr k (c ∷ rest) vm vm' h = elim (Bool-cases (ltb k limit)) [
      | inl below ↦ elim (Bool-cases (c == b'\n')) [
        | inl newline ↦
            Frame-set_word (add64 addr k) 0 (record vm { input = rest }) vm'
              (rw (below, newline) at h)
        | inr other ↦
            let (mid, stored, again) =
              bind_inversion (set_word (add64 addr k) c vm)
                (λ v. read_chars limit addr (k + 1) rest v) (rw (below, other) at h) in
            Frame-trans vm mid vm' (Frame-set_word (add64 addr k) c vm mid stored)
              (Frame-read_chars limit addr (k + 1) rest mid vm' again)
      ]
      | inr full ↦
          Frame-set_word (add64 addr k) 0 (record vm { input = c ∷ rest }) vm' (rw full at h)
    ]

    Frame-read_str : (vm vm' : Vm W) → read_str vm ≡ ok vm' → Frame vm vm'
    unfolding read_str
    Frame-read_str vm vm' h =
        ground (arith, Frame-read_chars (vm.regs a1 - 1) (vm.regs a0) 0 vm.input vm vm')

    Frame-rand_seed : (host : Host W) (vm vm' : Vm W) → rand_seed host vm ≡ ok vm' → Frame vm vm'
    unfolding rand_seed
    Frame-rand_seed host vm vm' h = ground arith

    Frame-rand_int : (host : Host W) (vm vm' : Vm W) → rand_int host vm ≡ ok vm' → Frame vm vm'
    unfolding rand_int
    Frame-rand_int host vm vm' h = ground arith

    Frame-rand_r_int : (host : Host W) (vm vm' : Vm W) → rand_r_int host vm ≡ ok vm' → Frame vm vm'
    unfolding rand_r_int
    Frame-rand_r_int host vm vm' h = ground arith

    Frame-time_get : (host : Host W) (vm vm' : Vm W) → time_get host vm ≡ ok vm' → Frame vm vm'
    unfolding time_get
    Frame-time_get host vm vm' h = ground arith

    Frame-time_sleep : (host : Host W) (vm vm' : Vm W) → time_sleep host vm ≡ ok vm' → Frame vm vm'
    unfolding time_sleep
    Frame-time_sleep host vm vm' h = ground arith

    Frame-rand_float :
        (host : Host W) (fpu : Fpu) (vm vm' : Vm W) → rand_float host fpu vm ≡ ok vm' → Frame vm vm'
    unfolding rand_float
    Frame-rand_float host fpu vm vm' h = ground arith

    Frame-heap_top : (vm vm' : Vm W) → heap_top vm ≡ ok vm' → Frame vm vm'
    unfolding heap_top
    Frame-heap_top vm vm' h = ground arith

    Frame-write_chars :
        (buf wi : ℕ) (cs : List ℕ) (vm vm' : Vm W)
        → write_chars buf wi cs vm ≡ ok vm'
        → Frame vm vm'
    unfolding write_chars
    Frame-write_chars buf wi [] vm vm' h =
        let (mid, stored, done) =
          bind_inversion (set_word (add64 buf wi) 0 vm) (λ v. ok (set_reg a0 wi v)) h in
        ground (arith, Frame-set_word (add64 buf wi) 0 vm mid stored, done)
    Frame-write_chars buf wi (c ∷ cs) vm vm' h =
        let (mid, stored, again) =
          bind_inversion (set_word (add64 buf wi) c vm) (λ v. write_chars buf (wi + 1) cs v) h in
        Frame-trans vm mid vm' (Frame-set_word (add64 buf wi) c vm mid stored)
          (Frame-write_chars buf (wi + 1) cs mid vm' again)

    Frame-file_read_from :
        (host : Host W) (f : Option ℕ) (vm vm' : Vm W)
        → file_read_from host f vm ≡ ok vm'
        → Frame vm vm'
    unfolding file_read_from
    Frame-file_read_from host none vm vm' h = cc
    Frame-file_read_from host (some f) vm vm' h =
        Frame-write_chars (vm.regs a1) 0 (host.fgetc f vm.world).0
          (record vm { world = (host.fgetc f vm.world).1 }) vm' h

    Frame-file_read : (host : Host W) (vm vm' : Vm W) → file_read host vm ≡ ok vm' → Frame vm vm'
    unfolding file_read
    Frame-file_read host vm vm' h =
        Frame-file_read_from host (open_file vm.fds (vm.regs a0)) vm vm' h

    Frame-open_at :
        (host : Host W) (path : List ℕ) (fd : Option ℕ) (vm vm' : Vm W)
        → open_at host path fd vm ≡ ok vm'
        → Frame vm vm'
    unfolding open_at
    Frame-open_at host path none vm vm' h = cc
    Frame-open_at host path (some fd) vm vm' h = ground arith

    Frame-file_open :
        (host : Host W) (n : ℕ) (vm vm' : Vm W) → file_open host n vm ≡ ok vm' → Frame vm vm'
    unfolding file_open
    Frame-file_open host n vm vm' h =
        let (path, got, opened) =
          bind_inversion (read_path 4095 (vm.regs a0) n vm)
            (λ path.
              if ltb (vm.regs a1) 3
              then open_at host path (free_fd vm.fds 61 3) vm
              else fatal 0x020c)
            h in
        ground (arith, Frame-open_at host path (free_fd vm.fds 61 3) vm vm', opened)

    Frame-file_close : (host : Host W) (vm vm' : Vm W) → file_close host vm ≡ ok vm' → Frame vm vm'
    unfolding file_close
    Frame-file_close host vm vm' h = ground arith

    Frame-file_write :
        (host : Host W) (n : ℕ) (vm vm' : Vm W) → file_write host n vm ≡ ok vm' → Frame vm vm'
    unfolding file_write
    Frame-file_write host n vm vm' h = ground arith

    Frame-service :
        (host : Host W) (fpu : Fpu) (k n : ℕ) (vm vm' : Vm W)
        → service host fpu k n vm ≡ ok vm'
        → Frame vm vm'
    unfolding service
    Frame-service host fpu k n vm vm' h = ground (
      arith,
      Frame-print_int vm vm',
      Frame-print_uint vm vm',
      Frame-print_char vm vm',
      Frame-print_str n vm vm',
      Frame-read_int host vm vm',
      Frame-read_uint host vm vm',
      Frame-read_char vm vm',
      Frame-read_str vm vm',
      Frame-rand_seed host vm vm',
      Frame-rand_int host vm vm',
      Frame-rand_r_int host vm vm',
      Frame-file_open host n vm vm',
      Frame-file_read host vm vm',
      Frame-file_close host vm vm',
      Frame-file_write host n vm vm',
      Frame-time_get host vm vm',
      Frame-time_sleep host vm vm',
      Frame-print_float vm vm',
      Frame-read_float host vm vm',
      Frame-rand_float host fpu vm vm',
      Frame-heap_top vm vm',
      Frame-heap_grow host vm vm',
    )

    -- A syscall that returns leaves the code as it was and every register but a0.
    pub handle_syscall-Frame :
        (host : Host W) (fpu : Fpu) (n : ℕ) (vm vm' : Vm W) (on : Bool)
        → handle_syscall host fpu n vm ≡ ok (on, vm')
        → Frame vm vm'
    unfolding handle_syscall
    handle_syscall-Frame host fpu n vm vm' on h = elim (Bool-cases (vm.regs a13 == sys_exit)) [
      | inl exits ↦
          let e : ◌≡◌ {A = Result (Bool × Vm W)} (ok (false, record vm { exit_code = vm.regs a0 }))
              (ok (on, vm')) =
            rw exits at h in
          ground arith
      | inr goes_on ↦
          let (mid, served, done) =
            bind_inversion (service host fpu (vm.regs a13) n vm) (λ v. ok (true, v))
              (rw goes_on at h) in
          ground (arith, Frame-service host fpu (vm.regs a13) n vm mid served, done)
    ]
