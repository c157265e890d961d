-- ===== src/Run/Agree.antt =====
-- When the threaded interpreter's handler and the portable `step` have done the same.
use cortex_vm.Prelude.{
  ℕ, ◌≡◌, ◌≢◌, refl, sym, ap, fun_ext, Bool, true, false, Result, ok, fatal, undefined, diverged,
  ◌>>=◌, arith,
}
use cortex_vm.Isa.Codes.{pc_reg}
use cortex_vm.Machine.{Regs, put, Vm, set_reg}
use cortex_vm.Step.{running}
use cortex_vm.Run.{Flow, next, stop, clamp}

-- On the left the outcome of `execute`, on the right that of a handler. `step` keeps the PC in its
-- register, `run` in a variable that may have been moved to the sentinel; both may end the process
-- with different error codes.
pub data Agree {W : Type 0} (code_size : ℕ) : Result (Bool × Vm W) → Result (Flow W) → Type 0 where
  goes :
      {p : ℕ} {vm vm' : Vm W} (q : ℕ)
      → vm' ≡ set_reg pc_reg q vm
      → clamp code_size p ≡ clamp code_size q
      → Agree code_size (ok (true, vm')) (ok (next p vm))
  stops : {vm : Vm W} → Agree code_size (ok (false, vm)) (ok (stop vm))
  dies : {e e' : ℕ} → Agree code_size (fatal e) (fatal e')
  undefines : Agree code_size undefined undefined
  diverges : Agree code_size diverged diverged

pub clamp_twice : (n t : ℕ) → clamp n (clamp n t) ≡ clamp n t
clamp_twice n t = ground arith

put-put_ne : (r : Regs) (i j v w : ℕ) → i ≢ j → put (put r i v) j w ≡ put (put r j w) i v
put-put_ne r i j v w h = fun_ext λ k. ground arith

pub put-put_self : (r : Regs) (i v w : ℕ) → put (put r i v) i w ≡ put r i w
put-put_self r i v w = fun_ext λ k. ground arith

pub put_get : (r : Regs) (i : ℕ) → put r i (r i) ≡ r
put_get r i = fun_ext λ k. ground arith

pub put_other : (r : Regs) (i j v : ℕ) → j ≢ i → put r i v j ≡ r j
put_other r i j v h = ground arith

module _ {W : Type 0} where
  pub set_reg_comm :
      (i j v w : ℕ) (vm : Vm W)
      → i ≢ j
      → set_reg j w (set_reg i v vm) ≡ set_reg i v (set_reg j w vm)
  set_reg_comm i j v w vm h = ap (λ r. record vm { regs = r }) (put-put_ne vm.regs i j v w h)

  pub set_reg_twice : (i v w : ℕ) (vm : Vm W) → set_reg i w (set_reg i v vm) ≡ set_reg i w vm
  set_reg_twice i v w vm = ap (λ r. record vm { regs = r }) (put-put_self vm.regs i v w)

  module _ (code_size : ℕ) where
    -- A handler that writes `rd` and goes on.
    pub Agree-write :
        (r : Result ℕ) (rd p : ℕ) (vm : Vm W)
        → rd ≢ pc_reg
        → Agree code_size
            (running (r >>= λ v. ok (set_reg rd v (set_reg pc_reg p vm))))
            (r >>= λ v. ok (next p (set_reg rd v vm)))
    Agree-write (ok v) rd p vm h = goes p (set_reg_comm pc_reg rd p v vm (λ e. h (sym e))) refl
    Agree-write (fatal e) rd p vm h = dies
    Agree-write undefined rd p vm h = undefines
    Agree-write diverged rd p vm h = diverges
