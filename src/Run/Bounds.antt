-- ===== src/Run/Bounds.antt =====
-- Where `run` goes next, for the words that cannot set the PC freely.
use cortex_vm.Prelude.{
  ℕ, ◌≤◌, ◌≡◌, ◌≢◌, ◌⊎◌, inl, inr, false, Option, none, some, Result, ok, fatal, bind_inversion,
  if◌then◌else◌, arith,
}
use cortex_vm.Isa.{opcode, i_rd}
use cortex_vm.Isa.Codes.{pc_reg, op_fb}
use cortex_vm.Machine.{Vm, Host, Fpu, set_reg}
use cortex_vm.Extension.{extension_opcode}
use cortex_vm.Syscall.{handle_syscall}
use cortex_vm.Syscall.Frame.{handle_syscall-Frame}
use cortex_vm.Step.Frame.{extension_opcode-pc}
use cortex_vm.Decoded.{Handler, sys_syscall, do_illegal, decode}
use cortex_vm.Run.{Flow, next, stop, run_handler, run_syscall, run_illegal}
use cortex_vm.Run.Dispatch.{IsBase}
use cortex_vm.Run.Simulation.{run_illegal-base}
use cortex_vm.Run.Refinement.{uses_pc}

-- A word that names no r1 and, if it is an extension's, neither branches nor has r1 as destination.
abbrev pub IsCalm : ℕ → Type 0
IsCalm w = (uses_pc w ≡ false) × (opcode w ≢ op_fb) × (IsBase (opcode w) ⊎ (i_rd w ≢ pc_reg))

module _ {W : Type 0} (host : Host W) (fpu : Fpu) (n ext : ℕ) where
  run_syscall-bounded :
      (p p' : ℕ) (vm vm' : Vm W)
      → p ≤ n
      → run_syscall host fpu n ext p vm ≡ ok (next p' vm')
      → p' ≤ n
  unfolding run_syscall
  run_syscall-bounded p p' vm vm' hp h =
      let (r, served, done) =
        bind_inversion (handle_syscall host fpu n (set_reg pc_reg p vm))
          (λ (on, v). ok (if on then next (v.regs pc_reg) v else stop v)) h in
      ground (
        arith,
        handle_syscall-Frame pc_reg (omega arith) host fpu n (set_reg pc_reg p vm) r.1 r.0 served,
        done,
      )

  run_illegal-bounded :
      (w p p' : ℕ) (vm vm' : Vm W)
      → IsCalm w
      → p ≤ n
      → run_illegal host fpu n ext (decode w) p vm ≡ ok (next p' vm')
      → p' ≤ n
  unfolding run_illegal decode
  run_illegal-bounded w p p' vm vm' (quiet, no_branch, inl base) hp h =
      cc (run_illegal-base host fpu n ext (decode w) p vm base)
  run_illegal-bounded w p p' vm vm' (quiet, no_branch, inr spared) hp h =
      let (r, done, e) =
        bind_inversion (extension_opcode fpu (opcode w) ext w (set_reg pc_reg p vm))
          (elim [ none ↦ fatal 0x0201 | some v ↦ ok (next (v.regs pc_reg) v) ]) h in
      reloaded r done e
    where
      reloaded :
          (r : Option (Vm W))
          → extension_opcode fpu (opcode w) ext w (set_reg pc_reg p vm) ≡ ok r
          → (elim r as (λ _. Result (Flow W)) [
            | none ↦ fatal 0x0201
            | some v ↦ ok (next (v.regs pc_reg) v)
          ])
            ≡ ok (next p' vm')
          → p' ≤ n
      reloaded none done e = cc
      reloaded (some v) done e = ground (
        arith,
        extension_opcode-pc fpu ext (opcode w) w (set_reg pc_reg p vm) v no_branch spared done,
      )

  -- From a PC inside the code or at its end, a handler of `run` that goes on for a calm word goes
  -- on at a PC inside the code or at its end, so that the next read of `decoded` lies inside the
  -- array.
  pub run_handler-bounded :
      (l : Handler) (w p p' : ℕ) (vm vm' : Vm W)
      → IsCalm w
      → p ≤ n
      → run_handler host fpu n ext l (decode w) p vm ≡ ok (next p' vm')
      → p' ≤ n
  unfolding run_handler
  run_handler-bounded sys_syscall w p p' vm vm' calm hp h = run_syscall-bounded p p' vm vm' hp h
  run_handler-bounded do_illegal w p p' vm vm' calm hp h =
      run_illegal-bounded w p p' vm vm' calm hp h
  run_handler-bounded _ w p p' vm vm' calm hp h = ground arith
