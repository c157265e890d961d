-- ===== src/Run/Refinement.antt =====
-- One instruction: the handler that `run` picks for a predecoded word, against the `switch` of
-- `step` on the word.
use mathlib.Core.Path.{subst₂}
use native.Mathlib.Decide.{ℕ_discrete}
use cortex_vm.Prelude.{
  ℕ, ◌+◌, ◌*◌, ◌<◌, ◌≡◌, ◌≢◌, refl, sym, ap, ◌∙◌, ◌==◌, ◌||◌, ne→==, if◌then◌else◌, Bool, false,
  Result, ok, fatal, ◌>>=◌, arith,
}
use cortex_vm.Isa.{opcode, funct, flags, i_ra, i_rd, i_rb, i_imm, s_imm, l_imm, b_imm}
use cortex_vm.Isa.Codes.{op_r, op_i, op_s, op_l, op_b, op_sys, fn_jmp, fn_sw, fn_lw, pc_reg}
use cortex_vm.Word.{add64, sign_ext32, sign_ext36}
use cortex_vm.Machine.{Vm, Host, Fpu, set_reg}
use cortex_vm.Memory.{set_word, load_word}
use cortex_vm.Alu.{alu_r, alu_i}
use cortex_vm.Alu.Branch.{branch_taken}
use cortex_vm.Extension.{branch_to}
use cortex_vm.Step.{running, exec_r, exec_i, exec_s, exec_l, exec_b, exec_sys, exec_other, execute}
use cortex_vm.Decoded.{decode, decode_imm, dispatch}
use cortex_vm.Run.{run_handler}
use cortex_vm.Run.Dispatch.{IsBase, dispatch-other}
use cortex_vm.Run.Agree.{Agree, put_other}
use cortex_vm.Run.Simulation.{sim_r, sim_i, sim_b, i_case, b_case}
use cortex_vm.Run.SimulationMemory.{
  sim_s, sim_l, sim_sys, sim_other, s_case, l_case, sys_case, other_case,
}

-- The word names r1, the PC, in a register field that its format has.
abbrev pub uses_pc : ℕ → Bool
uses_pc w =
    if opcode w == op_r
    then i_ra w == pc_reg || i_rb w == pc_reg || i_rd w == pc_reg
    else if opcode w == op_i || opcode w == op_l
    then i_ra w == pc_reg || i_rd w == pc_reg
    else if opcode w == op_s || opcode w == op_b
    then i_ra w == pc_reg || i_rb w == pc_reg
    else false

funct-lt : (w : ℕ) → funct w < 256
unfolding funct
funct-lt w = omega arith

module _ (w : ℕ) (quiet : uses_pc w ≡ false) where
  r_regs : opcode w ≡ op_r → (i_ra w ≢ pc_reg) × (i_rb w ≢ pc_reg) × (i_rd w ≢ pc_reg)
  r_regs e = ground arith

  i_regs : opcode w ≡ op_i → (i_ra w ≢ pc_reg) × (i_rd w ≢ pc_reg)
  i_regs e = ground arith

  l_regs : opcode w ≡ op_l → (i_ra w ≢ pc_reg) × (i_rd w ≢ pc_reg)
  l_regs e = ground arith

  s_regs : opcode w ≡ op_s → (i_ra w ≢ pc_reg) × (i_rb w ≢ pc_reg)
  s_regs e = ground arith

  b_regs : opcode w ≡ op_b → (i_ra w ≢ pc_reg) × (i_rb w ≢ pc_reg)
  b_regs e = ground arith

-- The immediate that the decoder keeps is the one that the case of `step` takes out of the word.
imm_i : (w : ℕ) → opcode w ≡ op_i → sign_ext32 (i_imm w) ≡ decode_imm (opcode w) w
unfolding decode_imm
imm_i w e = rw e

imm_s : (w : ℕ) → opcode w ≡ op_s → sign_ext36 (s_imm w) ≡ decode_imm (opcode w) w
unfolding decode_imm
imm_s w e = rw e

imm_l : (w : ℕ) → opcode w ≡ op_l → sign_ext36 (l_imm w) ≡ decode_imm (opcode w) w
unfolding decode_imm
imm_l w e = rw e

imm_b : (w : ℕ) → opcode w ≡ op_b → sign_ext36 (b_imm w) ≡ decode_imm (opcode w) w
unfolding decode_imm b_imm
imm_b w e = rw e

module _ {W : Type 0} (host : Host W) (fpu : Fpu) (code_size ext w p : ℕ) (vm : Vm W)
    (quiet : uses_pc w ≡ false) where
  abbrev synced : Vm W
  synced = set_reg pc_reg p vm

  exec_r_sync :
      opcode w ≡ op_r
      → exec_r w synced ≡ (
          alu_r (funct w) (flags w) (vm.regs (i_ra w)) (vm.regs (i_rb w)) >>= λ v.
          ok (set_reg (i_rd w) v synced))
  unfolding exec_r
  exec_r_sync e = λ i.
      alu_r (funct w) (flags w) (put_other vm.regs pc_reg (i_ra w) p (r_regs w quiet e).0 i)
        (put_other vm.regs pc_reg (i_rb w) p (r_regs w quiet e).1 i)
      >>= λ v. ok (set_reg (i_rd w) v synced)

  exec_i_sync :
      opcode w ≡ op_i
      → exec_i w synced ≡ i_case host fpu code_size ext (decode w) p vm (funct w) synced
  unfolding exec_i decode
  exec_i_sync e = λ i.
      if funct w == fn_jmp
      then ok (
          set_reg (i_rd w) p (
            set_reg pc_reg
              (add64 (put_other vm.regs pc_reg (i_ra w) p (i_regs w quiet e).0 i) (imm_i w e i))
              synced))
      else (alu_i (funct w) (flags w) (put_other vm.regs pc_reg (i_ra w) p (i_regs w quiet e).0 i)
            (imm_i w e i)
          >>= λ v. ok (set_reg (i_rd w) v synced))

  exec_s_sync :
      opcode w ≡ op_s
      → exec_s w synced ≡ s_case host fpu code_size ext (decode w) p vm (funct w) synced
  unfolding exec_s decode
  exec_s_sync e = λ i.
      if funct w == fn_sw
      then set_word
          (add64 (put_other vm.regs pc_reg (i_ra w) p (s_regs w quiet e).0 i) (imm_s w e i))
          (put_other vm.regs pc_reg (i_rb w) p (s_regs w quiet e).1 i) synced
      else fatal 0x0204

  exec_l_sync :
      opcode w ≡ op_l
      → exec_l code_size w synced ≡ l_case host fpu code_size ext (decode w) p vm (funct w) synced
  unfolding exec_l decode
  exec_l_sync e = λ i.
      if funct w == fn_lw
      then (load_word
            (add64 (put_other vm.regs pc_reg (i_ra w) p (l_regs w quiet e).0 i) (imm_l w e i))
            code_size synced
          >>= λ v. ok (set_reg (i_rd w) v synced))
      else fatal 0x0205

  exec_b_sync :
      opcode w ≡ op_b
      → exec_b w synced ≡ b_case host fpu code_size ext (decode w) p vm (funct w) synced
  unfolding exec_b decode
  exec_b_sync e = λ i.
      branch_taken (funct w) (put_other vm.regs pc_reg (i_ra w) p (b_regs w quiet e).0 i)
        (put_other vm.regs pc_reg (i_rb w) p (b_regs w quiet e).1 i)
      >>= λ taken. ok (if taken then branch_to (imm_b w e i) synced else synced)

  -- The label for the word's opcode, once that is known.
  abbrev AgreesAt : ℕ → Result (Bool × Vm W) → Type 0
  AgreesAt o r =
      Agree code_size r
        (run_handler host fpu code_size ext (dispatch (o * 256 + funct w)) (decode w) p vm)

  at_opcode :
      {o : ℕ} {r r' : Result (Bool × Vm W)}
      → opcode w ≡ o
      → r ≡ r'
      → AgreesAt o r'
      → AgreesAt (opcode w) r
  at_opcode e q a = subst₂ AgreesAt (sym e) (sym q) a

  execute_r : opcode w ≡ op_r → execute host fpu code_size ext w synced ≡ running (exec_r w synced)
  unfolding execute
  execute_r e = rw e

  execute_i : opcode w ≡ op_i → execute host fpu code_size ext w synced ≡ running (exec_i w synced)
  unfolding execute
  execute_i e = rw e

  execute_s : opcode w ≡ op_s → execute host fpu code_size ext w synced ≡ running (exec_s w synced)
  unfolding execute
  execute_s e = rw e

  execute_l :
      opcode w ≡ op_l
      → execute host fpu code_size ext w synced ≡ running (exec_l code_size w synced)
  unfolding execute
  execute_l e = rw e

  execute_b : opcode w ≡ op_b → execute host fpu code_size ext w synced ≡ running (exec_b w synced)
  unfolding execute
  execute_b e = rw e

  execute_sys :
      opcode w ≡ op_sys
      → execute host fpu code_size ext w synced ≡ exec_sys host fpu code_size ext w synced
  unfolding execute
  execute_sys e = rw e

  execute_other :
      ¬ IsBase (opcode w)
      → execute host fpu code_size ext w synced
        ≡ other_case host fpu code_size ext (decode w) p vm synced
  unfolding execute exec_other decode
  execute_other h = rw (
    ne→== (opcode w) op_r (λ e. h (omega arith)),
    ne→== (opcode w) op_i (λ e. h (omega arith)),
    ne→== (opcode w) op_s (λ e. h (omega arith)),
    ne→== (opcode w) op_l (λ e. h (omega arith)),
    ne→== (opcode w) op_b (λ e. h (omega arith)),
    ne→== (opcode w) op_sys (λ e. h (omega arith)),
  )

  sys_sync :
      exec_sys host fpu code_size ext w synced
      ≡ sys_case host fpu code_size ext (decode w) p vm (funct w) synced
  unfolding exec_sys
  sys_sync = refl

  Agree-default :
      ¬ IsBase (opcode w)
      → Agree code_size
          (execute host fpu code_size ext w synced)
          (run_handler host fpu code_size ext (decode w).handler (decode w) p vm)
  unfolding decode
  Agree-default h =
      subst₂ (λ l r. Agree code_size r (run_handler host fpu code_size ext l (decode w) p vm))
        (sym (dispatch-other (opcode w) (funct w) (funct-lt w) h)) (sym (execute_other h))
        (sim_other host fpu code_size ext (decode w) p vm)

  -- For every word that does not name r1 in a register field that its format has, the handler that
  -- the dispatch table holds for the decoded word agrees with the `switch` of `step` on the word:
  -- both go on with the same machine, up to where the PC is kept and to the clamping of targets
  -- behind the code, or both stop, or both end the process, or both have no meaning.
  pub execute-Agree :
      Agree code_size
        (execute host fpu code_size ext w synced)
        (run_handler host fpu code_size ext (decode w).handler (decode w) p vm)
  unfolding decode
  execute-Agree = elim (ℕ_discrete (opcode w) op_r) [
    | yes e ↦
        at_opcode e (execute_r e ∙ ap running (exec_r_sync e)) (
          sim_r host fpu code_size ext (decode w) p vm e (r_regs w quiet e).2 (funct w)
            (funct-lt w))
    | no n1 ↦ elim (ℕ_discrete (opcode w) op_i) [
      | yes e ↦ at_opcode e (execute_i e ∙ ap running (exec_i_sync e)) (
          sim_i host fpu code_size ext (decode w) p vm e (i_regs w quiet e).1 (funct w)
            (funct-lt w))
      | no n2 ↦ elim (ℕ_discrete (opcode w) op_s) [
        | yes e ↦
            at_opcode e (execute_s e ∙ ap running (exec_s_sync e))
              (sim_s host fpu code_size ext (decode w) p vm e (funct w) (funct-lt w))
        | no n3 ↦ elim (ℕ_discrete (opcode w) op_l) [
          | yes e ↦ at_opcode e (execute_l e ∙ ap running (exec_l_sync e)) (
              sim_l host fpu code_size ext (decode w) p vm e (l_regs w quiet e).1 (funct w)
                (funct-lt w))
          | no n4 ↦ elim (ℕ_discrete (opcode w) op_b) [
            | yes e ↦
                at_opcode e (execute_b e ∙ ap running (exec_b_sync e))
                  (sim_b host fpu code_size ext (decode w) p vm e (funct w) (funct-lt w))
            | no n5 ↦ elim (ℕ_discrete (opcode w) op_sys) [
              | yes e ↦
                  at_opcode e (execute_sys e ∙ sys_sync)
                    (sim_sys host fpu code_size ext (decode w) p vm e (funct w) (funct-lt w))
              | no n6 ↦ Agree-default (λ b. omega arith)
            ]
          ]
        ]
      ]
    ]
  ]
