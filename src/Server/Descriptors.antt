-- ===== src/Server/Descriptors.antt =====
-- The descriptors of the debug session of src/server.c over whole sequences of requests.
use cortex_vm.Prelude.{
  ℕ, ◌+◌, ◌≡◌, refl, sym, ap, ◌==◌, ltb, Bool, true, not, Option, none, some, get_or, List, [], ◌∷◌,
  ◌++◌, codes, length, Result, ok, Ensures, Ensures-any, Ensures-bind, arith,
}
use mathlib.Core.Bool.{false≢true}
use cortex_vm.Isa.Codes.{header_len}
use cortex_vm.Machine.{Vm, Host, Fpu, Event}
use cortex_vm.Assembler.Invariant.{Ensures-if, Ensures-elim}
use cortex_vm.Header.{header_parse, header_validate}
use cortex_vm.Assembler.Accepted.{word_at}
use cortex_vm.Server.Text.{json_get_string}
use cortex_vm.Server.Replies.{send_ok, missing_source, pipe_failed}
use cortex_vm.Server.Handles.{Action, opened, opened_dup, assembling}
use cortex_vm.Server.Session.{Session, answer, state_reply}
use cortex_vm.Server.Start.{
  Answers, handle_debug_start, handle_debug_stop, initial_session, debug_teardown,
  debug_load_binary, start_pipe, start_session, connect,
}
use cortex_vm.Server.Requests.{
  Request, start, step_once, stop, memory, continue, input, count, all_opened, all_closed, held,
  IsSound, IsBalanced, serve, serve_all, quiet,
}
use cortex_vm.Server.Balance.{
  Quiet, Kept, handle_debug_step-Kept, handle_debug_continue-Kept, handle_debug_input-Quiet,
  handle_debug_memory-Quiet,
}
use cortex_vm.Server.Actions.{
  Level, assembling-Level, opened-append, closed-append, pipe_opened, pipe_closed,
}
use cortex_vm.Server.Teardown.{Emptied-Cleared, Cleared, held-on, debug_teardown-Emptied}
use cortex_vm.Server.Continue.{Ensures-weaken}

module _ {W : Type 0} where
  -- The outcome of a handler for which a session is `r`'s.
  answer-Kept :
      (r : Session W) (acts : List Action) (t : Session W) (reply : Result (List ℕ))
      → IsSound t × IsBalanced r acts t
      → Ensures (Kept r) (answer acts t reply)
  answer-Kept r acts t reply h = Ensures-any (Kept r) reply (λ sent. ok (acts, (sent, t))) λ sent. h

  Cleared-IsBalanced :
      (r : Session W) (acts : List Action) (s : Session W)
      → Cleared r acts s
      → IsSound s × IsBalanced r acts s
  Cleared-IsBalanced r acts s e = (
    e.sound,
    λ fd.
        let none_left : count fd (held s) ≡ 0 = ap (count fd) e.nothing in
        omega (arith, e.even fd, none_left),
  )

  -- A session that has just been loaded.
  abbrev Fresh : Option (Session W) → Type 0
  Fresh none = Unit
  Fresh (some t) = IsSound t × (t.active ≡ true) × (held t ≡ [])

  debug_load_binary-Fresh : (a : Answers) (s : Session W) → Ensures Fresh (debug_load_binary a s)
  unfolding debug_load_binary
  debug_load_binary-Fresh a s = Ensures-any Fresh a.binary _ λ binary.
      Ensures-if Fresh (ltb (length binary) header_len) _ _ tt (
        Ensures-any Fresh (header_validate (length binary) (header_parse (word_at binary))) _
          λ h. (record { has_session = λ on. refl; has_arrays = λ on. refl }, refl, refl))

  connected :
      (a : Answers) (rd wr : ℕ) (text : List ℕ) (r s t : Session W) (acts : List Action)
      → Cleared r acts s
      → IsSound t
      → t.active ≡ true
      → let acts' = acts ++ (opened rd ∷ opened wr ∷ opened_dup a.dup) in
        IsSound (connect a rd wr text t) × IsBalanced r acts' (connect a rd wr text t)
  unfolding connect
  connected a rd wr text r s t acts e sound on = (
    record { has_session = λ runs. on; has_arrays = sound.has_arrays },
    λ fd.
        let opens = opened-append fd acts (opened rd ∷ opened wr ∷ opened_dup a.dup) in
        let closes = closed-append fd acts (opened rd ∷ opened wr ∷ opened_dup a.dup) in
        let has = ap (count fd) (held-on (connect a rd wr text t) on) in
        omega (
          arith,
          opens,
          closes,
          has,
          e.even fd,
          pipe_opened fd rd wr a.dup,
          pipe_closed fd rd wr a.dup,
        ),
  )

  loaded-IsBalanced :
      (r s t : Session W) (acts : List Action)
      → Cleared r acts s
      → IsSound t
      → held t ≡ []
      → IsSound t × IsBalanced r acts t
  loaded-IsBalanced r s t acts e sound nothing = (
    sound,
    λ fd.
        let none_left : count fd (held t) ≡ 0 = ap (count fd) nothing in
        omega (arith, e.even fd, none_left),
  )

  handle_debug_stop-Kept : (s : Session W) → IsSound s → Ensures (Kept s) (handle_debug_stop s)
  unfolding handle_debug_stop
  handle_debug_stop-Kept s sound = answer-Kept s (debug_teardown s).0 (debug_teardown s).1 send_ok (
      Cleared-IsBalanced s (debug_teardown s).0 (debug_teardown s).1 (record {
        sound = (debug_teardown-Emptied s sound).sound;
        nothing = (debug_teardown-Emptied s sound).nothing;
        even = λ fd. omega (
          arith,
          (debug_teardown-Emptied s sound).no_opened fd,
          (debug_teardown-Emptied s sound).all_closed_held fd,
        );
      }))

  module _ (alloc : ℕ → Bool) (render : List Event → List ℕ) where
    start_pipe-Kept :
        (a : Answers) (text : List ℕ) (r s t : Session W) (acts : List Action)
        → Cleared r acts s
        → IsSound t
        → t.active ≡ true
        → held t ≡ []
        → Ensures (Kept r) (start_pipe alloc render a text acts t)
    unfolding start_pipe
    start_pipe-Kept a text r s t acts e sound on nothing =
        Ensures-elim (Kept r) a.pipe (answer acts t pipe_failed) _
          (answer-Kept r acts t pipe_failed (loaded-IsBalanced r s t acts e sound nothing))
          λ (rd, wr).
            answer-Kept r (acts ++ (opened rd ∷ opened wr ∷ opened_dup a.dup))
              (connect a rd wr text t) (state_reply alloc render [] (connect a rd wr text t))
              (connected a rd wr text r s t acts e sound on)

    start_session-Kept :
        (a : Answers) (text : List ℕ) (r s : Session W) (acts : List Action)
        → Cleared r acts s
        → Ensures (Kept r) (start_session alloc render a text (acts, s))
    unfolding start_session
    start_session-Kept a text r s acts e =
        Ensures-if (Kept r) (not (a.asm_exit == 0)) _ _
          (answer-Kept r acts s _ (Cleared-IsBalanced r acts s e))
          (Ensures-bind Fresh (Kept r) (debug_load_binary a s) _ (debug_load_binary-Fresh a s)
            (elim [
              | none ↦ λ h. answer-Kept r acts s _ (Cleared-IsBalanced r acts s e)
              | some t ↦
                  λ (sound, on, nothing). start_pipe-Kept a text r s t acts e sound on nothing
            ]))

    handle_debug_start-Kept :
        (a : Answers) (body : List ℕ) (s : Session W)
        → IsSound s
        → Ensures (Kept s) (handle_debug_start alloc render a body s)
    unfolding handle_debug_start
    handle_debug_start-Kept a body s sound =
        Ensures-any (Kept s) (json_get_string alloc body (codes "source")) _ (elim [
          | none ↦ answer-Kept s [] s missing_source (sound, λ fd. refl)
          | some source ↦
              Ensures-any (Kept s) (json_get_string alloc body (codes "stdin")) _ λ stdin_str.
                Ensures-bind Level (Kept s) (assembling a.files) _ (assembling-Level a.files)
                  λ more level.
                    start_session-Kept a (get_or stdin_str []) s (debug_teardown s).1
                      ((debug_teardown s).0 ++ more)
                      (Emptied-Cleared s (debug_teardown s).1 (debug_teardown s).0 more
                        (debug_teardown-Emptied s sound) level)
        ])

    module _ (host : Host W) (fpu : Fpu) (select_empty : Vm W → Bool) where
      quiet-Kept :
          (s : Session W) (r : Result (List ℕ × Session W))
          → Ensures (Quiet s) r
          → Ensures (Kept s) (quiet r)
      quiet-Kept s r h =
          Ensures-bind (Quiet s) (Kept s) r _ h
            λ (reply, t) (sound, same). (sound, λ fd. ap (λ xs. 0 + count fd xs) (sym same))

      serve-Kept :
          (q : Request) (s : Session W)
          → IsSound s
          → Ensures (Kept s) (serve host fpu select_empty alloc render q s)
      unfolding serve
      serve-Kept (start a body) s sound = handle_debug_start-Kept a body s sound
      serve-Kept (step_once c) s sound =
          handle_debug_step-Kept host fpu select_empty alloc render c s sound
      serve-Kept stop s sound = handle_debug_stop-Kept s sound
      serve-Kept memory s sound =
          quiet-Kept s _ (handle_debug_memory-Quiet host fpu select_empty alloc render s sound)
      serve-Kept (continue c body) s sound =
          handle_debug_continue-Kept host fpu select_empty alloc render c body s sound
      serve-Kept (input body) s sound =
          quiet-Kept s _ (handle_debug_input-Quiet host fpu select_empty alloc render body s sound)

      abbrev AllKept : Session W → List Action × Session W → Type 0
      AllKept s (acts, t) = IsSound t × IsBalanced s acts t

      serve_all-Kept :
          (requests : List Request) (s : Session W)
          → IsSound s
          → Ensures (AllKept s) (serve_all host fpu select_empty alloc render requests s)
      unfolding serve_all
      serve_all-Kept [] s sound = (sound, λ fd. refl)
      serve_all-Kept (q ∷ requests) s sound =
          Ensures-bind (Kept s) (AllKept s) (serve host fpu select_empty alloc render q s) _
            (serve-Kept q s sound)
            λ (acts, (reply, t)) (next, first).
              Ensures-bind (AllKept t) (AllKept s)
                (serve_all host fpu select_empty alloc render requests t) _
                (serve_all-Kept requests t next)
                λ (more, u) (last, second). (
                  last,
                  λ fd. omega (
                    arith,
                    opened-append fd acts more,
                    closed-append fd acts more,
                    first fd,
                    second fd,
                  ),
                )

      -- From the start of the server on, after any requests under /debug that were all answered: a
      -- machine runs only in an active session, an active session has its arrays, and every
      -- descriptor that the handlers open themselves (the pipe of a session and its copy of stdin,
      -- the file and the copy of stdout of a capture, the temporary files, and the pipes of
      -- `run_vm_argv` and /dev/null) was opened as often as it has been closed and is held. A start
      -- whose assembler gets no pipes and a capture without a file are undefined and count as not
      -- answered, and both pipes of the assembler are taken to be read to their end.
      pub serve_all-IsBalanced :
          (requests : List Request) (process : Vm W)
          → Ensures
              (λ (acts, t).
                IsSound t
                × ((fd : ℕ)
                    → count fd (all_opened acts) ≡ count fd (all_closed acts) + count fd (held t)))
              (serve_all host fpu select_empty alloc render requests (initial_session process))
      unfolding initial_session
      serve_all-IsBalanced requests process =
          Ensures-weaken (AllKept (initial_session process)) _
            (serve_all host fpu select_empty alloc render requests (initial_session process))
            (serve_all-Kept requests (initial_session process)
              (record { has_session = λ h. h; has_arrays = λ h. absurd (false≢true h) }))
            λ (acts, t) (sound, balance). (sound, λ fd. omega (arith, balance fd))
