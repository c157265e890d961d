-- ===== src/Server/Teardown.antt =====
-- `debug_teardown` of src/server.c.
use cortex_vm.Prelude.{
  ℕ, ◌+◌, arith, ◌≡◌, refl, sym, ap, ◌∙◌, Bool, true, false, if◌then◌else◌, not, List, [], ◌++◌,
}
use mathlib.Core.Bool.{false≢true}
use cortex_vm.Server.Session.{Session}
use cortex_vm.Server.Handles.{Action}
use cortex_vm.Server.Start.{debug_teardown, torn_down}
use cortex_vm.Server.Requests.{count, all_opened, all_closed, maybe, held, IsSound}
use cortex_vm.Server.Balance.{not-false}
use cortex_vm.Server.Actions.{
  Level, opened-append, closed-append, if-idle, if-on, count_three, no_three,
}

module _ {W : Type 0} where
  pub held-idle : (s : Session W) → not s.active ≡ true → held s ≡ []
  held-idle s e =
      if-idle (s.active) (maybe s.stdin_wr ++ maybe s.saved_stdin ++ maybe s.stdin_pipe_rd) e

  pub held-on :
      (s : Session W)
      → s.active ≡ true
      → held s ≡ maybe s.stdin_wr ++ maybe s.saved_stdin ++ maybe s.stdin_pipe_rd
  held-on s e =
      if-on (s.active) (maybe s.stdin_wr ++ maybe s.saved_stdin ++ maybe s.stdin_pipe_rd) e

  -- A session that holds nothing, and the actions that led to it from `s`.
  pub record Emptied (s : Session W) (acts : List Action) (t : Session W) : Type 0 where
    pub sound : IsSound t
    pub nothing : held t ≡ []
    pub no_opened : (fd : ℕ) → count fd (all_opened acts) ≡ 0
    pub all_closed_held : (fd : ℕ) → count fd (all_closed acts) ≡ count fd (held s)

  torn_down-Emptied : (s : Session W) → s.active ≡ true → Emptied s (torn_down s).0 (torn_down s).1
  unfolding torn_down
  torn_down-Emptied s on = record {
    sound = record { has_session = λ h. h; has_arrays = λ h. absurd (false≢true h) };
    nothing = refl;
    no_opened = λ fd. no_three fd s.stdin_wr s.saved_stdin s.stdin_pipe_rd;
    all_closed_held = λ fd.
        count_three fd s.stdin_wr s.saved_stdin s.stdin_pipe_rd
        ∙ sym (ap (count fd) (held-on s on));
  }

  by_active :
      (s : Session W) (idle : Bool)
      → IsSound s
      → not s.active ≡ idle
      → let (acts, t) = (if idle then ([], s) else torn_down s) in Emptied s acts t
  by_active s true sound e = record {
    sound = sound;
    nothing = held-idle s e;
    no_opened = λ fd. refl;
    all_closed_held = λ fd. sym (ap (count fd) (held-idle s e));
  }
  by_active s false sound e = torn_down-Emptied s (not-false e)

  pub debug_teardown-Emptied :
      (s : Session W) → IsSound s → Emptied s (debug_teardown s).0 (debug_teardown s).1
  unfolding debug_teardown
  debug_teardown-Emptied s sound = by_active s (not s.active) sound refl

  -- The same, with actions that close what they open behind it.
  pub record Cleared (s : Session W) (acts : List Action) (t : Session W) : Type 0 where
    pub sound : IsSound t
    pub nothing : held t ≡ []
    pub even :
        (fd : ℕ) → count fd (all_opened acts) + count fd (held s) ≡ count fd (all_closed acts)

  pub Emptied-Cleared :
      (s t : Session W) (acts more : List Action)
      → Emptied s acts t
      → Level more
      → Cleared s (acts ++ more) t
  Emptied-Cleared s t acts more e level = record {
    sound = e.sound;
    nothing = e.nothing;
    even = λ fd. omega (
      arith,
      opened-append fd acts more,
      closed-append fd acts more,
      level fd,
      e.no_opened fd,
      e.all_closed_held fd,
    );
  }
