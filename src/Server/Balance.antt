-- ===== src/Server/Balance.antt =====
-- What each request under /debug of src/server.c does to the pointers and descriptors.
use cortex_vm.Prelude.{
  ℕ, zero, suc, ap, arith, Option, [], ◌≡◌, refl, ◌∙◌, Bool, true, false, if◌then◌else◌, not, List,
  codes, Result, ok, undefined, ◌>>=◌, Ensures, Ensures-any, Ensures-bind,
}
use cortex_vm.Isa.Codes.{pc_reg}
use cortex_vm.Machine.{Vm, Host, Fpu, Event}
use cortex_vm.Step.{step}
use cortex_vm.Assembler.Invariant.{Ensures-if}
use cortex_vm.Server.Text.{json_get_string}
use cortex_vm.Server.Numbers.{parse_breakpoints}
use cortex_vm.Server.Replies.{send_ok}
use cortex_vm.Server.Session.{
  Session, Stop, halted, at_breakpoint, waiting, among, is_waiting_for_input, session_step,
  continue_loop, max_continue_steps, handle_debug_step, handle_debug_continue, handle_debug_input,
  handle_debug_memory, send_line, answered, Outcome, answer,
}
use cortex_vm.Server.Continue.{Ensures-weaken}
use cortex_vm.Server.Handles.{Action, Capture, captured}
use cortex_vm.Server.Actions.{Level, captured-Level}
use cortex_vm.Server.Requests.{count, held, IsSound, IsBalanced}

-- Both branches, each with what its condition says.
pub Ensures-when :
    {A : Type 0} (P : A → Type 0) (b : Bool) (x y : Result A)
    → (b ≡ true → Ensures P x)
    → (b ≡ false → Ensures P y)
    → Ensures P (if b then x else y)
Ensures-when P true x y px py = px refl
Ensures-when P false x y px py = py refl

pub not-false : {b : Bool} → not b ≡ false → b ≡ true
not-false {b = true} h = refl
not-false {b = false} h = cc

module _ {W : Type 0} where
  -- The same pointers and descriptors.
  abbrev Same : Session W → Session W → Type 0
  Same s t = (t.active ≡ s.active) × (t.loaded ≡ s.loaded) × (held t ≡ held s)

  abbrev SameStop : Session W → Session W × Stop → Type 0
  SameStop s (t, why) = Same s t

  -- What a handler without actions ensures.
  abbrev pub Quiet : Session W → List ℕ × Session W → Type 0
  Quiet s (reply, t) = IsSound t × (held t ≡ held s)

  abbrev pub Kept : Session W → Outcome W → Type 0
  Kept s (acts, (reply, t)) = IsSound t × IsBalanced s acts t

  moved : (s t : Session W) → IsSound s → s.active ≡ true → Same s t → IsSound t × (held t ≡ held s)
  moved s t sound on (active, loaded, same) = (
    record { has_session = λ _. active ∙ on; has_arrays = λ _. loaded ∙ sound.has_arrays on },
    same,
  )

  module _ (host : Host W) (fpu : Fpu) (select_empty : Vm W → Bool) where
    session_step-Same : (s : Session W) → Ensures (Same s) (session_step host fpu select_empty s)
    unfolding session_step
    session_step-Same s =
        Ensures-if (Same s) (s.loaded)
          (step host fpu s.file_length s.extensions s.vm >>= λ (still_running, vm).
            ok (record s { vm = vm; running = still_running }))
          undefined
          (Ensures-any (Same s) (step host fpu s.file_length s.extensions s.vm)
            (λ (still_running, vm). ok (record s { vm = vm; running = still_running }))
            λ result. (refl, refl, refl))
          tt

    Same-trans : (s t u : Session W) → Same s t → Same t u → Same s u
    Same-trans s t u (a, b, c) (d, e, f) = (d ∙ a, e ∙ b, f ∙ c)

    -- One step of the loop, for any outcome of its tests.
    loop_step-Same :
        (bps : List ℕ) (left : ℕ) (s : Session W) (running waits : Bool)
        → ((t : Session W) → Ensures (SameStop t) (continue_loop host fpu select_empty bps left t))
        → Ensures (SameStop s) (elim running [
          | false ↦ ok (s, halted)
          | true ↦ elim waits [
            | true ↦ ok (s, waiting)
            | false ↦ session_step host fpu select_empty s >>= λ t. elim (t.running) [
              | false ↦ ok (t, halted)
              | true ↦ elim (among (t.vm.regs pc_reg) bps) [
                | true ↦ ok (t, at_breakpoint)
                | false ↦ continue_loop host fpu select_empty bps left t
              ]
            ]
          ]
        ])
    loop_step-Same bps left s false waits later = (refl, refl, refl)
    loop_step-Same bps left s true true later = (refl, refl, refl)
    loop_step-Same bps left s true false later =
        Ensures-bind (Same s) (SameStop s) (session_step host fpu select_empty s)
          (λ t. elim (t.running) [
            | false ↦ ok (t, halted)
            | true ↦ elim (among (t.vm.regs pc_reg) bps) [
              | true ↦ ok (t, at_breakpoint)
              | false ↦ continue_loop host fpu select_empty bps left t
            ]
          ])
          (session_step-Same s) λ t h. stepped t (t.running) (among (t.vm.regs pc_reg) bps) h
      where
        stepped :
            (t : Session W) (on hit : Bool)
            → Same s t
            → Ensures (SameStop s) (elim on [
              | false ↦ ok (t, halted)
              | true ↦ elim hit [
                | true ↦ ok (t, at_breakpoint)
                | false ↦ continue_loop host fpu select_empty bps left t
              ]
            ])
        stepped t false hit h = h
        stepped t true true h = h
        stepped t true false h =
            Ensures-weaken (SameStop t) (SameStop s)
              (continue_loop host fpu select_empty bps left t) (later t)
              λ (u, why) more. Same-trans s t u h more

    continue_loop-Same :
        (bps : List ℕ) (left : ℕ) (s : Session W)
        → Ensures (SameStop s) (continue_loop host fpu select_empty bps left s)
    unfolding continue_loop
    continue_loop-Same bps zero s = (refl, refl, refl)
    continue_loop-Same bps (suc left) s =
        loop_step-Same bps left s (s.running) (is_waiting_for_input host fpu select_empty s)
          (continue_loop-Same bps left)

    module _ (alloc : ℕ → Bool) (render : List Event → List ℕ) where
      answered-Quiet :
          (s t : Session W) (reply : Result (List ℕ))
          → IsSound t × (held t ≡ held s)
          → Ensures (Quiet s) (answered t reply)
      answered-Quiet s t reply h = Ensures-any (Quiet s) reply (λ sent. ok (sent, t)) λ sent. h

      answer-Kept :
          (acts : List Action) (s t : Session W) (reply : Result (List ℕ))
          → Level acts
          → IsSound t × (held t ≡ held s)
          → Ensures (Kept s) (answer acts t reply)
      answer-Kept acts s t reply level (sound, same) =
          Ensures-any (Kept s) reply (λ sent. ok (acts, (sent, t)))
            λ sent. (sound, λ fd. omega (arith, level fd, ap (count fd) same))

      no_actions-Kept :
          (s : Session W) (reply : Result (List ℕ))
          → IsSound s
          → Ensures (Kept s) (answer [] s reply)
      no_actions-Kept s reply sound = answer-Kept [] s s reply (λ fd. refl) (sound, refl)

      pub handle_debug_step-Kept :
          (c : Option Capture) (s : Session W)
          → IsSound s
          → Ensures (Kept s) (handle_debug_step host fpu select_empty alloc render c s)
      unfolding handle_debug_step
      handle_debug_step-Kept c s sound =
          Ensures-when (Kept s) (not s.active) _ _ (λ _. no_actions-Kept s _ sound)
            λ on.
              Ensures-when (Kept s) (not s.running) _ _ (λ _. no_actions-Kept s _ sound)
                λ _.
                  Ensures-when (Kept s) (is_waiting_for_input host fpu select_empty s) _ _
                    (λ _. no_actions-Kept s _ sound)
                    λ _. Ensures-bind Level (Kept s) (captured c) _ (captured-Level c) λ acts level.
                      Ensures-bind (Same s) (Kept s) (session_step host fpu select_empty s) _
                        (session_step-Same s)
                        λ t h. answer-Kept acts s t _ level (moved s t sound (not-false on) h)

      pub handle_debug_continue-Kept :
          (c : Option Capture) (body : List ℕ) (s : Session W)
          → IsSound s
          → Ensures (Kept s) (handle_debug_continue host fpu select_empty alloc render c body s)
      unfolding handle_debug_continue
      handle_debug_continue-Kept c body s sound =
          Ensures-when (Kept s) (not s.active) _ _ (λ _. no_actions-Kept s _ sound)
            λ on.
              Ensures-when (Kept s) (not s.running) _ _ (λ _. no_actions-Kept s _ sound)
                λ _. Ensures-bind Level (Kept s) (captured c) _ (captured-Level c) λ acts level.
                  Ensures-bind (SameStop s) (Kept s)
                    (continue_loop host fpu select_empty (parse_breakpoints body 256)
                      max_continue_steps s)
                    _ (continue_loop-Same (parse_breakpoints body 256) max_continue_steps s)
                    λ (t, why) h. answer-Kept acts s t _ level (moved s t sound (not-false on) h)

      pub handle_debug_input-Quiet :
          (body : List ℕ) (s : Session W)
          → IsSound s
          → Ensures (Quiet s) (handle_debug_input host fpu select_empty alloc render body s)
      unfolding handle_debug_input
      handle_debug_input-Quiet body s sound =
          Ensures-when (Quiet s) (not s.active) _ _ (λ _. answered-Quiet s s _ (sound, refl))
            λ _. Ensures-any (Quiet s) (json_get_string alloc body (codes "line")) _ λ line.
              answered-Quiet s
                (record s { vm = record s.vm { input = send_line line s.stdin_wr s.vm.input } })
                send_ok
                (record { has_session = sound.has_session; has_arrays = sound.has_arrays }, refl)

      pub handle_debug_memory-Quiet :
          (s : Session W)
          → IsSound s
          → Ensures (Quiet s) (handle_debug_memory host fpu select_empty alloc render s)
      unfolding handle_debug_memory
      handle_debug_memory-Quiet s sound =
          Ensures-when (Quiet s) (not s.active) _ _ (λ _. answered-Quiet s s _ (sound, refl))
            λ _.
              Ensures-when (Quiet s) (not s.loaded) _ _ (λ _. tt)
                λ _. answered-Quiet s s _ (sound, refl)
