-- ===== src/Step/Frame.antt =====
-- The code under the instructions of `step` in src/core.c.
use cortex_vm.Prelude.{ℕ, ◌≡◌, ◌≢◌, Bool, some, ok, arith}
use cortex_vm.Word.{add64, sign_ext36}
use cortex_vm.Isa.{opcode, i_ra, i_rd, i_rb, s_imm}
use cortex_vm.Isa.Codes.{pc_reg, op_fb}
use cortex_vm.Machine.{Vm, Host, Fpu}
use cortex_vm.Extension.{extension_opcode, exec_fr, exec_fi, exec_fb, exec_mr, exec_mi}
use cortex_vm.Syscall.Frame.{Frame-set_word, handle_syscall-Frame}
use cortex_vm.Step.{exec_r, exec_i, exec_s, exec_l, exec_b, exec_sys, exec_other, execute}

module _ {W : Type 0} (fpu : Fpu) (ext op w : ℕ) (vm vm' : Vm W) where
  -- An extension's instruction changes its destination at most, or the PC by a branch.
  pub extension_opcode-code : extension_opcode fpu op ext w vm ≡ ok (some vm') → vm'.code ≡ vm.code
  unfolding extension_opcode exec_fr exec_fi exec_fb exec_mr exec_mi
  extension_opcode-code h = ground arith

  pub extension_opcode-pc :
      op ≢ op_fb
      → i_rd w ≢ pc_reg
      → extension_opcode fpu op ext w vm ≡ ok (some vm')
      → vm'.regs pc_reg ≡ vm.regs pc_reg
  unfolding extension_opcode exec_fr exec_fi exec_mr exec_mi
  extension_opcode-pc hb hr h = ground arith

module _ {W : Type 0} where
  exec_r-code : (w : ℕ) (vm vm' : Vm W) → exec_r w vm ≡ ok vm' → vm'.code ≡ vm.code
  unfolding exec_r
  exec_r-code w vm vm' h = ground arith

  exec_i-code : (w : ℕ) (vm vm' : Vm W) → exec_i w vm ≡ ok vm' → vm'.code ≡ vm.code
  unfolding exec_i
  exec_i-code w vm vm' h = ground arith

  exec_s-code : (w : ℕ) (vm vm' : Vm W) → exec_s w vm ≡ ok vm' → vm'.code ≡ vm.code
  unfolding exec_s
  exec_s-code w vm vm' h = ground (
    arith,
    Frame-set_word 0 (add64 (vm.regs (i_ra w)) (sign_ext36 (s_imm w))) (vm.regs (i_rb w)) vm vm',
  )

  exec_l-code : (n w : ℕ) (vm vm' : Vm W) → exec_l n w vm ≡ ok vm' → vm'.code ≡ vm.code
  unfolding exec_l
  exec_l-code n w vm vm' h = ground arith

  exec_b-code : (w : ℕ) (vm vm' : Vm W) → exec_b w vm ≡ ok vm' → vm'.code ≡ vm.code
  unfolding exec_b
  exec_b-code w vm vm' h = ground arith

  module _ (host : Host W) (fpu : Fpu) (n ext : ℕ) where
    exec_sys-code :
        (w : ℕ) (vm vm' : Vm W) (on : Bool)
        → exec_sys host fpu n ext w vm ≡ ok (on, vm')
        → vm'.code ≡ vm.code
    unfolding exec_sys
    exec_sys-code w vm vm' on h =
        ground (arith, handle_syscall-Frame 0 (omega arith) host fpu n vm vm' on)

    exec_other-code :
        (w : ℕ) (vm vm' : Vm W) (on : Bool)
        → exec_other host fpu n ext w vm ≡ ok (on, vm')
        → vm'.code ≡ vm.code
    unfolding exec_other
    exec_other-code w vm vm' on h =
        ground (arith, extension_opcode-code fpu ext (opcode w) w vm vm')

    -- No instruction changes the code, whatever the word and the state are.
    pub execute-code :
        (w : ℕ) (vm vm' : Vm W) (on : Bool)
        → execute host fpu n ext w vm ≡ ok (on, vm')
        → vm'.code ≡ vm.code
    unfolding execute
    execute-code w vm vm' on h = ground (
      arith,
      exec_r-code w vm vm',
      exec_i-code w vm vm',
      exec_s-code w vm vm',
      exec_l-code n w vm vm',
      exec_b-code w vm vm',
      exec_sys-code w vm vm' on,
      exec_other-code w vm vm' on,
    )
