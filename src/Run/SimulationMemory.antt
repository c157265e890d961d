-- ===== src/Run/SimulationMemory.antt =====
-- The labels of `run` for stores, loads, system instructions and extensions, against `step`.
use cortex_vm.Prelude.{
  ℕ, ◌+◌, ◌*◌, ◌<◌, ◌≡◌, ◌≢◌, refl, ◌==◌, ne→==, if◌then◌else◌, Bool, true, false, Option, none,
  some, Result, ok, fatal, undefined, diverged, ◌>>=◌, arith, ◌-◌, ap, sym,
}
use cortex_vm.Isa.Codes.{
  op_s, op_l, op_sys, fn_sw, fn_lw, fn_halt, fn_syscall, fn_nop, fn_break, pc_reg, heap_addr,
}
use cortex_vm.Word.{add64}
use cortex_vm.Machine.{Vm, Host, Fpu, HeapState, set_reg}
use cortex_vm.Memory.{set_word, load_word, heap_write}
use cortex_vm.Syscall.{handle_syscall}
use cortex_vm.Extension.{extension_opcode}
use cortex_vm.Step.{running, drop_char}
use cortex_vm.Decoded.{DecodedInstr, dispatch, do_illegal}
use cortex_vm.Run.{next, stop, run_handler}
use cortex_vm.Run.Dispatch.{by_code, dispatch-Unknown_s, dispatch-Unknown_l, dispatch-Unknown_sys}
use cortex_vm.Run.Agree.{Agree, goes, stops, dies, undefines, diverges, Agree-write, put_get}
use cortex_vm.Run.Simulation.{Agree-illegal}

module _ {W : Type 0} where
  -- The memory does not depend on the registers.
  pub load_word-set_reg :
      (a n i v : ℕ) (vm : Vm W) → load_word a n (set_reg i v vm) ≡ load_word a n vm
  unfolding load_word
  load_word-set_reg a n i v vm = refl

  with_heap_set_reg :
      (r : Result HeapState) (i v : ℕ) (vm : Vm W)
      → (r >>= λ h. ok (record (set_reg i v vm) { heap = h }))
        ≡ ((r >>= λ h. ok (record vm { heap = h })) >>= λ vm'. ok (set_reg i v vm'))
  with_heap_set_reg (ok h) i v vm = refl
  with_heap_set_reg (fatal e) i v vm = refl
  with_heap_set_reg undefined i v vm = refl
  with_heap_set_reg diverged i v vm = refl

  pub set_word-set_reg :
      (a x i v : ℕ) (vm : Vm W)
      → set_word a x (set_reg i v vm) ≡ (set_word a x vm >>= λ vm'. ok (set_reg i v vm'))
  unfolding set_word
  set_word-set_reg a x i v vm =
      ground (arith, with_heap_set_reg (heap_write vm.heap vm.heap.base (a - heap_addr) x) i v vm)

module _ {W : Type 0} (host : Host W) (fpu : Fpu) (code_size ext : ℕ) (d : DecodedInstr) (p : ℕ)
    (vm : Vm W) where
  -- What `exec_s` computes, from the fields.
  abbrev pub s_case : ℕ → Vm W → Result (Vm W)
  s_case fn vm' =
      if fn == fn_sw then set_word (add64 (vm.regs d.ra) d.imm) (vm.regs d.rb) vm' else fatal 0x0204

  Agree-store :
      (r : Result (Vm W))
      → Agree code_size
          (running (r >>= λ vm'. ok (set_reg pc_reg p vm')))
          (r >>= λ vm'. ok (next p vm'))
  Agree-store (ok vm') = goes p refl refl
  Agree-store (fatal e) = dies
  Agree-store undefined = undefines
  Agree-store diverged = diverges

  pub sim_s :
      d.op ≡ op_s
      → (fn : ℕ) → fn < 256
      → Agree code_size
          (running (s_case fn (set_reg pc_reg p vm)))
          (run_handler host fpu code_size ext (dispatch (op_s * 256 + fn)) d p vm)
  unfolding run_handler dispatch
  sim_s e =
      by_code _
        (
          (λ _.
              rw (set_word-set_reg (add64 (vm.regs d.ra) d.imm) (vm.regs d.rb) pc_reg p vm)
                (Agree-store (set_word (add64 (vm.regs d.ra) d.imm) (vm.regs d.rb) vm))),
          (λ _.
              Agree-illegal host fpu code_size ext d p 0x0204 (op_s * 256 + 2) vm (omega arith) refl
                refl),
          (λ _.
              Agree-illegal host fpu code_size ext d p 0x0204 (op_s * 256 + 3) vm (omega arith) refl
                refl),
          (λ _.
              Agree-illegal host fpu code_size ext d p 0x0204 (op_s * 256 + 4) vm (omega arith) refl
                refl),
          (λ _.
              Agree-illegal host fpu code_size ext d p 0x0204 (op_s * 256 + 5) vm (omega arith) refl
                refl),
          (λ _.
              Agree-illegal host fpu code_size ext d p 0x0204 (op_s * 256 + 6) vm (omega arith) refl
                refl),
          (λ _.
              Agree-illegal host fpu code_size ext d p 0x0204 (op_s * 256 + 7) vm (omega arith) refl
                refl),
          (λ _.
              Agree-illegal host fpu code_size ext d p 0x0204 (op_s * 256 + 8) vm (omega arith) refl
                refl),
          (λ _.
              Agree-illegal host fpu code_size ext d p 0x0204 (op_s * 256 + 9) vm (omega arith) refl
                refl),
          (λ _.
              Agree-illegal host fpu code_size ext d p 0x0204 (op_s * 256 + 10) vm (omega arith)
                refl refl),
        )
        (λ fn u hfn.
          Agree-illegal host fpu code_size ext d p 0x0204 (op_s * 256 + fn) vm (omega arith)
            (rw (ne→== fn fn_sw (u.0))) (dispatch-Unknown_s fn hfn u))

  -- What `exec_l` computes, from the fields.
  abbrev pub l_case : ℕ → Vm W → Result (Vm W)
  l_case fn vm' =
      if fn == fn_lw
      then (load_word (add64 (vm.regs d.ra) d.imm) code_size vm' >>= λ v. ok (set_reg d.rd v vm'))
      else fatal 0x0205

  pub sim_l :
      d.op ≡ op_l
      → d.rd ≢ pc_reg
      → (fn : ℕ) → fn < 256
      → Agree code_size
          (running (l_case fn (set_reg pc_reg p vm)))
          (run_handler host fpu code_size ext (dispatch (op_l * 256 + fn)) d p vm)
  unfolding run_handler dispatch
  sim_l e h =
      by_code _
        (
          (λ _. rw (load_word-set_reg (add64 (vm.regs d.ra) d.imm) code_size pc_reg p vm) (
              Agree-write code_size (load_word (add64 (vm.regs d.ra) d.imm) code_size vm) d.rd p vm
                h)),
          (λ _.
              Agree-illegal host fpu code_size ext d p 0x0205 (op_l * 256 + 2) vm (omega arith) refl
                refl),
          (λ _.
              Agree-illegal host fpu code_size ext d p 0x0205 (op_l * 256 + 3) vm (omega arith) refl
                refl),
          (λ _.
              Agree-illegal host fpu code_size ext d p 0x0205 (op_l * 256 + 4) vm (omega arith) refl
                refl),
          (λ _.
              Agree-illegal host fpu code_size ext d p 0x0205 (op_l * 256 + 5) vm (omega arith) refl
                refl),
          (λ _.
              Agree-illegal host fpu code_size ext d p 0x0205 (op_l * 256 + 6) vm (omega arith) refl
                refl),
          (λ _.
              Agree-illegal host fpu code_size ext d p 0x0205 (op_l * 256 + 7) vm (omega arith) refl
                refl),
          (λ _.
              Agree-illegal host fpu code_size ext d p 0x0205 (op_l * 256 + 8) vm (omega arith) refl
                refl),
          (λ _.
              Agree-illegal host fpu code_size ext d p 0x0205 (op_l * 256 + 9) vm (omega arith) refl
                refl),
          (λ _.
              Agree-illegal host fpu code_size ext d p 0x0205 (op_l * 256 + 10) vm (omega arith)
                refl refl),
        )
        (λ fn u hfn.
          Agree-illegal host fpu code_size ext d p 0x0205 (op_l * 256 + fn) vm (omega arith)
            (rw (ne→== fn fn_lw (u.0))) (dispatch-Unknown_l fn hfn u))

  -- What `exec_sys` computes, from the function code.
  abbrev pub sys_case : ℕ → Vm W → Result (Bool × Vm W)
  sys_case fn vm' =
      if fn == fn_halt
      then ok (false, vm')
      else if fn == fn_syscall
      then handle_syscall host fpu code_size vm'
      else if fn == fn_nop
      then ok (true, vm')
      else if fn == fn_break
      then ok (true, record vm' { input = drop_char vm'.input })
      else fatal 0x0207

  Agree-reloaded :
      (r : Result (Bool × Vm W))
      → Agree code_size r
          (r >>= λ (on, vm'). ok (if on then next (vm'.regs pc_reg) vm' else stop vm'))
  Agree-reloaded (ok (true, vm')) =
      goes (vm'.regs pc_reg) (ap (λ r. record vm' { regs = r }) (sym (put_get vm'.regs pc_reg)))
        refl
  Agree-reloaded (ok (false, vm')) = stops
  Agree-reloaded (fatal e) = dies
  Agree-reloaded undefined = undefines
  Agree-reloaded diverged = diverges

  pub sim_sys :
      d.op ≡ op_sys
      → (fn : ℕ) → fn < 256
      → Agree code_size
          (sys_case fn (set_reg pc_reg p vm))
          (run_handler host fpu code_size ext (dispatch (op_sys * 256 + fn)) d p vm)
  unfolding run_handler dispatch
  sim_sys e =
      by_code _
        (
          (λ _. stops),
          (λ _. Agree-reloaded (handle_syscall host fpu code_size (set_reg pc_reg p vm))),
          (λ _. goes p refl refl),
          (λ _. goes p refl refl),
          (λ _.
              Agree-illegal host fpu code_size ext d p 0x0207 (op_sys * 256 + 5) vm (omega arith)
                refl refl),
          (λ _.
              Agree-illegal host fpu code_size ext d p 0x0207 (op_sys * 256 + 6) vm (omega arith)
                refl refl),
          (λ _.
              Agree-illegal host fpu code_size ext d p 0x0207 (op_sys * 256 + 7) vm (omega arith)
                refl refl),
          (λ _.
              Agree-illegal host fpu code_size ext d p 0x0207 (op_sys * 256 + 8) vm (omega arith)
                refl refl),
          (λ _.
              Agree-illegal host fpu code_size ext d p 0x0207 (op_sys * 256 + 9) vm (omega arith)
                refl refl),
          (λ _.
              Agree-illegal host fpu code_size ext d p 0x0207 (op_sys * 256 + 10) vm (omega arith)
                refl refl),
        )
        (λ fn u hfn.
          Agree-illegal host fpu code_size ext d p 0x0207 (op_sys * 256 + fn) vm (omega arith)
            (ground arith) (dispatch-Unknown_sys fn hfn u))

  -- What `exec_other` computes: here `run` uses the PC in its register too.
  abbrev pub other_case : Vm W → Result (Bool × Vm W)
  other_case vm' =
      extension_opcode fpu d.op ext d.raw vm'
      >>= elim [ none ↦ fatal 0x0201 | some vm'' ↦ ok (true, vm'') ]

  Agree-other :
      (r : Result (Option (Vm W)))
      → Agree code_size
          (r >>= elim [ none ↦ fatal 0x0201 | some vm'' ↦ ok (true, vm'') ])
          (r >>= elim [ none ↦ fatal 0x0201 | some vm' ↦ ok (next (vm'.regs pc_reg) vm') ])
  Agree-other (ok none) = dies
  Agree-other (ok (some vm')) =
      goes (vm'.regs pc_reg) (ap (λ r. record vm' { regs = r }) (sym (put_get vm'.regs pc_reg)))
        refl
  Agree-other (fatal e) = dies
  Agree-other undefined = undefines
  Agree-other diverged = diverges

  pub sim_other :
      Agree code_size
        (other_case (set_reg pc_reg p vm))
        (run_handler host fpu code_size ext do_illegal d p vm)
  unfolding run_handler
  sim_other = Agree-other (extension_opcode fpu d.op ext d.raw (set_reg pc_reg p vm))
