-- ===== src/Run/Simulation.antt =====
-- The labels of `run` against the cases of `step`, opcode by opcode.
use cortex_vm.Prelude.{
  ℕ, ◌+◌, ◌*◌, ◌<◌, ◌≡◌, ◌≢◌, refl, sym, ap, ◌∙◌, ltb, leb, ◌==◌, not, ne→==, if◌then◌else◌, Bool,
  true, false, none, Result, ok, fatal, ◌>>=◌, arith,
}
use cortex_vm.Isa.Codes.{op_r, op_i, op_b, pc_reg, fn_jmp}
use cortex_vm.Machine.{Vm, Host, Fpu, set_reg}
use cortex_vm.Alu.{alu_r, alu_i}
use cortex_vm.Alu.Branch.{branch_taken}
use cortex_vm.Word.{add64, sub64, lt_signed}
use cortex_vm.Extension.{extension_opcode, branch_to}
use cortex_vm.Step.{running}
use cortex_vm.Decoded.{DecodedInstr, dispatch, do_illegal, i_jmp}
use cortex_vm.Run.{branch, run_handler, run_illegal}
use cortex_vm.Run.Dispatch.{
  by_code, Unknown, dispatch-Unknown_r, dispatch-Unknown_i, dispatch-Unknown_b, IsBase,
}
use cortex_vm.Run.Agree.{Agree, goes, dies, Agree-write, set_reg_comm, set_reg_twice, clamp_twice}

alu_r-Unknown : (fn fl a b : ℕ) → Unknown fn → alu_r fn fl a b ≡ fatal 0x0202
unfolding alu_r
alu_r-Unknown fn fl a b u = ground arith

alu_i-Unknown : (fn fl a imm : ℕ) → Unknown fn → alu_i fn fl a imm ≡ fatal 0x0203
unfolding alu_i
alu_i-Unknown fn fl a imm u = ground arith

branch_taken-Unknown : (fn a b : ℕ) → Unknown fn → branch_taken fn a b ≡ fatal 0x0206
unfolding branch_taken
branch_taken-Unknown fn a b u = ground arith

module _ {W : Type 0} (host : Host W) (fpu : Fpu) (code_size ext : ℕ) where
  extension_opcode-base :
      (op w : ℕ) (vm : Vm W) → IsBase op → extension_opcode fpu op ext w vm ≡ ok none
  unfolding extension_opcode
  extension_opcode-base op w vm h = ground arith

  -- An opcode of the base set that falls through to the fallback is illegal.
  pub run_illegal-base :
      (d : DecodedInstr) (p : ℕ) (vm : Vm W)
      → IsBase d.op
      → run_illegal host fpu code_size ext d p vm ≡ fatal 0x0201
  unfolding run_illegal
  run_illegal-base d p vm h = rw (extension_opcode-base d.op d.raw (set_reg pc_reg p vm) h)

  pub Agree-illegal :
      {r : Result (Bool × Vm W)} (d : DecodedInstr) (p e k : ℕ) (vm : Vm W)
      → IsBase d.op
      → r ≡ fatal e
      → dispatch k ≡ do_illegal
      → Agree code_size r (run_handler host fpu code_size ext (dispatch k) d p vm)
  unfolding run_handler
  Agree-illegal d p e k vm h er ek = rw (er, ek, run_illegal-base d p vm h) dies

  module _ (d : DecodedInstr) (p : ℕ) (vm : Vm W) where
    pub sim_r :
        d.op ≡ op_r
        → d.rd ≢ pc_reg
        → (fn : ℕ) → fn < 256
        → Agree code_size
            (running (
              alu_r fn d.fl (vm.regs d.ra) (vm.regs d.rb) >>= λ v.
              ok (set_reg d.rd v (set_reg pc_reg p vm))))
            (run_handler host fpu code_size ext (dispatch (op_r * 256 + fn)) d p vm)
    unfolding alu_r run_handler dispatch
    sim_r e h =
        by_code _
          (
            (λ _. Agree-write code_size (alu_r 1 d.fl (vm.regs d.ra) (vm.regs d.rb)) d.rd p vm h),
            (λ _. Agree-write code_size (alu_r 2 d.fl (vm.regs d.ra) (vm.regs d.rb)) d.rd p vm h),
            (λ _. Agree-write code_size (alu_r 3 d.fl (vm.regs d.ra) (vm.regs d.rb)) d.rd p vm h),
            (λ _. Agree-write code_size (alu_r 4 d.fl (vm.regs d.ra) (vm.regs d.rb)) d.rd p vm h),
            (λ _. Agree-write code_size (alu_r 5 d.fl (vm.regs d.ra) (vm.regs d.rb)) d.rd p vm h),
            (λ _. Agree-write code_size (alu_r 6 d.fl (vm.regs d.ra) (vm.regs d.rb)) d.rd p vm h),
            (λ _. Agree-illegal d p 0x0202 (op_r * 256 + 7) vm (omega arith) refl refl),
            (λ _. Agree-write code_size (alu_r 8 d.fl (vm.regs d.ra) (vm.regs d.rb)) d.rd p vm h),
            (λ _. Agree-write code_size (alu_r 9 d.fl (vm.regs d.ra) (vm.regs d.rb)) d.rd p vm h),
            (λ _. Agree-write code_size (alu_r 10 d.fl (vm.regs d.ra) (vm.regs d.rb)) d.rd p vm h),
          )
          (λ fn u hfn.
            Agree-illegal d p 0x0202 (op_r * 256 + fn) vm (omega arith)
              (rw (alu_r-Unknown fn d.fl (vm.regs d.ra) (vm.regs d.rb) u))
              (dispatch-Unknown_r fn hfn u))

    -- What `exec_i` computes, from the fields.
    abbrev pub i_case : ℕ → Vm W → Result (Vm W)
    i_case fn vm' =
        if fn == fn_jmp
        then ok (set_reg d.rd (vm'.regs pc_reg) (set_reg pc_reg (add64 (vm.regs d.ra) d.imm) vm'))
        else (alu_i fn d.fl (vm.regs d.ra) d.imm >>= λ v. ok (set_reg d.rd v vm'))

    sim_jmp :
        d.rd ≢ pc_reg
        → Agree code_size
            (running (i_case fn_jmp (set_reg pc_reg p vm)))
            (run_handler host fpu code_size ext i_jmp d p vm)
    unfolding run_handler
    sim_jmp h =
        goes (add64 (vm.regs d.ra) d.imm)
          (ap (set_reg d.rd p) (set_reg_twice pc_reg p (add64 (vm.regs d.ra) d.imm) vm)
            ∙ set_reg_comm pc_reg d.rd (add64 (vm.regs d.ra) d.imm) p vm (λ e. h (sym e)))
          (clamp_twice code_size (add64 (vm.regs d.ra) d.imm))

    i_case-Unknown :
        (fn : ℕ) → Unknown fn → running (i_case fn (set_reg pc_reg p vm)) ≡ fatal 0x0203
    i_case-Unknown fn u = rw ((ne→== fn fn_jmp (u.6)), alu_i-Unknown fn d.fl (vm.regs d.ra) d.imm u)

    pub sim_i :
        d.op ≡ op_i
        → d.rd ≢ pc_reg
        → (fn : ℕ) → fn < 256
        → Agree code_size
            (running (i_case fn (set_reg pc_reg p vm)))
            (run_handler host fpu code_size ext (dispatch (op_i * 256 + fn)) d p vm)
    unfolding alu_i run_handler dispatch
    sim_i e h =
        by_code _
          (
            (λ _. Agree-write code_size (alu_i 1 d.fl (vm.regs d.ra) d.imm) d.rd p vm h),
            (λ _. Agree-write code_size (alu_i 2 d.fl (vm.regs d.ra) d.imm) d.rd p vm h),
            (λ _. Agree-write code_size (alu_i 3 d.fl (vm.regs d.ra) d.imm) d.rd p vm h),
            (λ _. Agree-write code_size (alu_i 4 d.fl (vm.regs d.ra) d.imm) d.rd p vm h),
            (λ _. Agree-write code_size (alu_i 5 d.fl (vm.regs d.ra) d.imm) d.rd p vm h),
            (λ _. Agree-write code_size (alu_i 6 d.fl (vm.regs d.ra) d.imm) d.rd p vm h),
            (λ _. sim_jmp h),
            (λ _. Agree-illegal d p 0x0203 (op_i * 256 + 8) vm (omega arith) refl refl),
            (λ _. Agree-illegal d p 0x0203 (op_i * 256 + 9) vm (omega arith) refl refl),
            (λ _. Agree-illegal d p 0x0203 (op_i * 256 + 10) vm (omega arith) refl refl),
          )
          (λ fn u hfn.
            Agree-illegal d p 0x0203 (op_i * 256 + fn) vm (omega arith) (i_case-Unknown fn u)
              (dispatch-Unknown_i fn hfn u))

    -- What `exec_b` computes, from the fields.
    abbrev pub b_case : ℕ → Vm W → Result (Vm W)
    b_case fn vm' = branch_taken fn (vm.regs d.ra) (vm.regs d.rb) >>= λ taken.
        ok (if taken then branch_to d.imm vm' else vm')

    Agree-branch :
        (taken : Bool)
        → Agree code_size
            (running
              (ok (if taken then branch_to d.imm (set_reg pc_reg p vm) else set_reg pc_reg p vm)))
            (ok (branch host fpu code_size ext d taken p vm))
    unfolding branch_to
    Agree-branch true =
        goes (add64 (sub64 p 1) d.imm) (set_reg_twice pc_reg p (add64 (sub64 p 1) d.imm) vm)
          (clamp_twice code_size (add64 (sub64 p 1) d.imm))
    Agree-branch false = goes p refl refl

    pub sim_b :
        d.op ≡ op_b
        → (fn : ℕ) → fn < 256
        → Agree code_size
            (running (b_case fn (set_reg pc_reg p vm)))
            (run_handler host fpu code_size ext (dispatch (op_b * 256 + fn)) d p vm)
    unfolding branch_taken run_handler dispatch
    sim_b e =
        by_code _
          (
            (λ _. Agree-branch ((vm.regs d.ra) == (vm.regs d.rb))),
            (λ _. Agree-branch (not ((vm.regs d.ra) == (vm.regs d.rb)))),
            (λ _. Agree-branch (lt_signed (vm.regs d.ra) (vm.regs d.rb))),
            (λ _. Agree-branch (ltb (vm.regs d.ra) (vm.regs d.rb))),
            (λ _. Agree-branch (not (lt_signed (vm.regs d.ra) (vm.regs d.rb)))),
            (λ _. Agree-branch (lt_signed (vm.regs d.rb) (vm.regs d.ra))),
            (λ _. Agree-branch (ltb (vm.regs d.rb) (vm.regs d.ra))),
            (λ _. Agree-branch (not (lt_signed (vm.regs d.rb) (vm.regs d.ra)))),
            (λ _. Agree-branch (leb (vm.regs d.ra) (vm.regs d.rb))),
            (λ _. Agree-branch (leb (vm.regs d.rb) (vm.regs d.ra))),
          )
          (λ fn u hfn.
            Agree-illegal d p 0x0206 (op_b * 256 + fn) vm (omega arith)
              (rw (branch_taken-Unknown fn (vm.regs d.ra) (vm.regs d.rb) u))
              (dispatch-Unknown_b fn hfn u))
