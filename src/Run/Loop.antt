-- ===== src/Run/Loop.antt =====
-- Whole runs: the threaded loop against `while(step(...))`.
use mathlib.Core.Path.{subst}
use cortex_vm.Prelude.{
  ℕ, zero, suc, ◌+◌, ◌<◌, ◌≤◌, ◌≡◌, inl, inr, refl, sym, ap, ◌∙◌, fun_ext, ltb, leb, lt→ltb, Bool,
  true, false, Result, ok, ◌>>=◌, Bool-cases, arith,
}
use cortex_vm.Word.{word_mod, add64}
use cortex_vm.Isa.Codes.{pc_reg, sp_reg, zero_reg, stack_size, stack_addr}
use cortex_vm.Machine.{Vm, Host, Fpu, set_reg}
use cortex_vm.Step.{execute, finish_step, step, step_loop}
use cortex_vm.Step.Frame.{execute-code}
use cortex_vm.Decoded.{decode, decode_all}
use cortex_vm.Run.{Flow, next, stop, clamp, run_handler, run_from}
use cortex_vm.Run.Agree.{Agree, goes, stops, dies, undefines, diverges, set_reg_comm, set_reg_twice}
use cortex_vm.Run.Refinement.{execute-Agree}
use cortex_vm.Run.Bounds.{IsCalm, run_handler-bounded}

module _ {W : Type 0} where
  -- Equal but for r1, which holds the PC, and r0, which reads as 0 in any case.
  abbrev pub SameButPc : Vm W → Vm W → Type 0
  SameButPc a b = set_reg zero_reg 0 (set_reg pc_reg 0 a) ≡ set_reg zero_reg 0 (set_reg pc_reg 0 b)

  same_zeroed : (v : Vm W) → SameButPc (set_reg zero_reg 0 v) v
  same_zeroed v = ap (λ r. record v { regs = r }) (fun_ext λ j. ground arith)

  same_moved :
      (v : Vm W) (q p : ℕ)
      → SameButPc
          (set_reg zero_reg 0 (set_reg pc_reg q v))
          (set_reg pc_reg p (set_reg zero_reg 0 v))
  same_moved v q p = ap (λ r. record v { regs = r }) (fun_ext λ j. ground arith)

  module _ (host : Host W) (fpu : Fpu) (n ext : ℕ) (code : ℕ → ℕ) where
    -- What `run` does with a handler's outcome.
    abbrev after_handler : ℕ → Flow W → Result (Vm W)
    after_handler fuel (next p v) =
        run_from host fpu n ext (decode_all code n) fuel p (set_reg zero_reg 0 v)
    after_handler fuel (stop v) = ok v

    abbrev after_step : ℕ → Bool × Vm W → Result (Vm W)
    after_step fuel r = elim (r.0) [ true ↦ step_loop host fpu n ext fuel r.1 | false ↦ ok r.1 ]

    run_from-inside :
        (fuel p : ℕ) (vm : Vm W)
        → p < n
        → run_from host fpu n ext (decode_all code n) (suc fuel) p vm ≡ (
            run_handler host fpu n ext (decode (code p)).handler (decode (code p)) (add64 p 1) vm
            >>= after_handler fuel)
    unfolding run_from decode_all
    run_from-inside fuel p vm h = ground arith

    -- Running off the end halts at the sentinel.
    run_from-end :
        (fuel : ℕ) (vm : Vm W)
        → run_from host fpu n ext (decode_all code n) (suc fuel) n vm
          ≡ ok (set_reg pc_reg (add64 n 1) vm)
    unfolding run_from decode_all run_handler
    run_from-end fuel vm = ground arith

    step_loop-inside :
        (fuel p : ℕ) (vm : Vm W)
        → vm.code ≡ code
        → p < n
        → step_loop host fpu n ext (suc fuel) (set_reg pc_reg p vm) ≡ (
            (execute host fpu n ext (code p) (set_reg pc_reg (add64 p 1) vm)
              >>= finish_step host fpu n ext)
            >>= after_step fuel)
    unfolding step_loop step
    step_loop-inside fuel p vm same h =
        subst
          (λ (c : ℕ → ℕ). step_loop host fpu n ext (suc fuel) (set_reg pc_reg p vm) ≡ (
            (execute host fpu n ext (c p) (set_reg pc_reg (add64 p 1) vm)
              >>= finish_step host fpu n ext)
            >>= after_step fuel))
          same (rw (lt→ltb p n h, set_reg_twice pc_reg p (add64 p 1) vm))

    -- A run of `run` that ends like `s`.
    abbrev pub EndsLike : Vm W → Result (Vm W) → Type 0
    EndsLike s r = (s' : Vm W) × (r ≡ ok s') × SameButPc s s'

    finish_step_on :
        (v s : Vm W) (fuel q : ℕ)
        → (finish_step host fpu n ext (true, set_reg pc_reg q v) >>= after_step fuel) ≡ ok s
        → after_step fuel (ltb q n, set_reg zero_reg 0 (set_reg pc_reg q v)) ≡ ok s
    unfolding finish_step
    finish_step_on v s fuel q h =
        elim (Bool-cases (leb (stack_size + stack_addr) (v.regs sp_reg))) [
          | inl over ↦ cc (rw over at h)
          | inr fits ↦ rw fits at h
        ]

    finish_step_off :
        (v s : Vm W) (fuel : ℕ)
        → (finish_step host fpu n ext (false, v) >>= after_step fuel) ≡ ok s
        → set_reg zero_reg 0 v ≡ s
    unfolding finish_step
    finish_step_off v s fuel h = elim (Bool-cases (leb (stack_size + stack_addr) (v.regs sp_reg))) [
      | inl over ↦ cc (rw over at h)
      | inr fits ↦ cc (rw fits at h)
    ]

    -- What is known of the rest of the run.
    abbrev Rest : ℕ → Vm W → Vm W → Type 0
    Rest fuel vm s =
        (p : ℕ) (v : Vm W)
        → v.code ≡ vm.code
        → p < n
        → step_loop host fpu n ext fuel (set_reg pc_reg p v) ≡ ok s
        → EndsLike s (run_from host fpu n ext (decode_all code n) (suc fuel) p v)

    -- The next instruction lies inside the code: both loops go on.
    loop_inside :
        (fuel : ℕ) (vm s v : Vm W) (q p : ℕ)
        → v.code ≡ vm.code
        → ltb q n ≡ true
        → p ≤ n
        → clamp n p ≡ clamp n q
        → Rest fuel vm s
        → after_step fuel (ltb q n, set_reg zero_reg 0 (set_reg pc_reg q v)) ≡ ok s
        → EndsLike s
            (run_from host fpu n ext (decode_all code n) (suc fuel) p (set_reg zero_reg 0 v))
    loop_inside fuel vm s v q p same_code inside at_most c ih done =
        let pe : q ≡ p = ground arith in
        let moved : set_reg zero_reg 0 (set_reg pc_reg q v)
            ≡ set_reg pc_reg p (set_reg zero_reg 0 v) =
          ap (λ t. set_reg zero_reg 0 (set_reg pc_reg t v)) pe
          ∙ set_reg_comm pc_reg zero_reg p 0 v (omega arith) in
        ih p (set_reg zero_reg 0 v) same_code (ground arith)
          (subst (λ t. step_loop host fpu n ext fuel t ≡ ok s) moved (rw inside at done))

    -- It lies behind the code: `step` has stopped, and `run` is about to, at the sentinel.
    loop_outside :
        (fuel : ℕ) (s v : Vm W) (q p : ℕ)
        → ltb q n ≡ false
        → p ≤ n
        → clamp n p ≡ clamp n q
        → after_step fuel (ltb q n, set_reg zero_reg 0 (set_reg pc_reg q v)) ≡ ok s
        → EndsLike s
            (run_from host fpu n ext (decode_all code n) (suc fuel) p (set_reg zero_reg 0 v))
    loop_outside fuel s v q p outside at_most c done =
        let pe : p ≡ n = ground arith in
        let ended : set_reg zero_reg 0 (set_reg pc_reg q v) ≡ s = cc (rw outside at done) in
        (
          set_reg pc_reg (add64 n 1) (set_reg zero_reg 0 v),
          rw pe (run_from-end fuel (set_reg zero_reg 0 v)),
          subst (λ t. SameButPc t (set_reg pc_reg (add64 n 1) (set_reg zero_reg 0 v))) ended
              (same_moved v q (add64 n 1)),
        )

    -- One instruction, when the rest of the run is known.
    loop_step :
        {E : Result (Bool × Vm W)} {H : Result (Flow W)} (fuel : ℕ) (vm s : Vm W)
        → Agree n E H
        → ((on : Bool) (v : Vm W) → E ≡ ok (on, v) → v.code ≡ vm.code)
        → ((p : ℕ) (v : Vm W) → H ≡ ok (next p v) → p ≤ n)
        → Rest fuel vm s
        → ((E >>= finish_step host fpu n ext) >>= after_step fuel) ≡ ok s
        → EndsLike s (H >>= after_handler (suc fuel))
    loop_step fuel vm s (goes {p} {vm = v} {vm' = v'} q e c) code bound ih h =
        let at_most : p ≤ n = bound p v refl in
        let same_code : v.code ≡ vm.code = ap (λ (t : Vm W). t.code) (sym e) ∙ code true v' refl in
        let done =
          finish_step_on v s fuel q
            (subst (λ t. (finish_step host fpu n ext (true, t) >>= after_step fuel) ≡ ok s) e h) in
        elim (Bool-cases (ltb q n)) [
          | inl inside ↦ loop_inside fuel vm s v q p same_code inside at_most c ih done
          | inr outside ↦ loop_outside fuel s v q p outside at_most c done
        ]
    loop_step fuel vm s (stops {vm = v}) code bound ih h =
        (v, refl, subst (λ t. SameButPc t v) (finish_step_off v s fuel h) (same_zeroed v))
    loop_step fuel vm s dies code bound ih h = cc
    loop_step fuel vm s undefines code bound ih h = cc
    loop_step fuel vm s diverges code bound ih h = cc

    records-refine-step_loop :
        (fuel p : ℕ) (vm s : Vm W)
        → vm.code ≡ code
        → n < word_mod
        → ((i : ℕ) → i < n → IsCalm (code i))
        → p < n
        → step_loop host fpu n ext fuel (set_reg pc_reg p vm) ≡ ok s
        → EndsLike s (run_from host fpu n ext (decode_all code n) (suc fuel) p vm)
    unfolding step_loop
    records-refine-step_loop zero p vm s same small calm inside h = cc
    records-refine-step_loop (suc fuel) p vm s same small calm inside h =
        rw (run_from-inside (suc fuel) p vm inside) (
          loop_step fuel vm s
            (execute-Agree host fpu n ext (code p) (add64 p 1) vm (calm p inside).0)
            (λ on v. execute-code host fpu n ext (code p) (set_reg pc_reg (add64 p 1) vm) v on)
            (λ q v.
              run_handler-bounded host fpu n ext (decode (code p)).handler (code p) (add64 p 1) q vm
                v (calm p inside) (omega arith))
            (λ q v unchanged below ran.
              records-refine-step_loop fuel q v s (unchanged ∙ same) small calm below ran)
            (sym (step_loop-inside fuel p vm same inside) ∙ h))

  module _ (host : Host W) (fpu : Fpu) (n ext : ℕ) where
    -- Let the code have fewer than 2 ^ 64 words, all of them calm (no word names r1, the PC, and an
    -- extension's word neither branches nor writes r1), and let the PC lie inside the code. If
    -- `while(step(...))` ends in some state within a number of rounds, then the threaded loop of
    -- `run` ends with one more round of fuel, in a state that is the same but for r0 and r1.
    pub run_from-refines-step_loop :
        (fuel p : ℕ) (vm s : Vm W)
        → n < word_mod
        → ((i : ℕ) → i < n → IsCalm (vm.code i))
        → p < n
        → step_loop host fpu n ext fuel (set_reg pc_reg p vm) ≡ ok s
        → (s' : Vm W) × (run_from host fpu n ext (decode_all vm.code n) (suc fuel) p vm ≡ ok s')
          × SameButPc s s'
    run_from-refines-step_loop fuel p vm s small calm inside h =
        records-refine-step_loop host fpu n ext vm.code fuel p vm s refl small calm inside h
