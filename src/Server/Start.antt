-- ===== src/Server/Start.antt =====
-- `debug_teardown`, `debug_load_binary`, `handle_debug_start` and `handle_debug_stop` of
-- src/server.c, with the descriptors that they open and close.
use cortex_vm.Prelude.{
  ℕ, ◌+◌, ltb, ◌==◌, not, if◌then◌else◌, Bool, true, false, Option, none, some, get_or, List, [],
  ◌∷◌, ◌++◌, codes, length, Result, ok, ◌>>=◌,
}
use cortex_vm.Word.{sub64}
use cortex_vm.Isa.Codes.{pc_reg, sp_reg, stack_addr, header_len}
use cortex_vm.Machine.{Vm, Event, put}
use cortex_vm.Memory.{heap_state_create}
use cortex_vm.Header.{header_parse, header_validate}
use cortex_vm.Loader.{Area, load_code}
use cortex_vm.Assembler.Accepted.{word_at}
use cortex_vm.Server.Text.{json_get_string}
use cortex_vm.Server.Replies.{build, send_json, send_ok, missing_source, pipe_failed, error_json}
use cortex_vm.Server.Handles.{Action, opened, close, opened_dup, Assembling, assembling}
use cortex_vm.Server.Session.{Session, Outcome, answer, state_reply}

-- What the system answers while a session is started: the temporary files and the assembler's run, `readFileWords` on what
-- it wrote, the arenas' memory, `pipe`, `dup`, and what stdio still has of the old stdin.
pub record Answers : Type 0 where
  pub files : Assembling
  pub asm_exit : ℕ
  pub err : List ℕ
  pub binary : Result (List ℕ)
  pub code_area : Area
  pub stack_area : Area
  pub pipe : Option (ℕ × ℕ)
  pub dup : Option ℕ
  pub buffered : List ℕ

module _ {W : Type 0} where
  -- `g_debug`, which is all zeros at first.
  unfoldable pub initial_session : Vm W → Session W
  initial_session process = record {
    vm = record process { regs = λ _. 0; heap = heap_state_create; exit_code = 0 };
    loaded = false;
    file_length = 0;
    extensions = 0;
    running = false;
    active = false;
    stdin_wr = some 0;
    stdin_pipe_rd = some 0;
    saved_stdin = some 0;
  }

  -- The memory is given back, and `saved_stdin` is put back as stdin before it is closed.
  unfoldable pub torn_down : Session W → List Action × Session W
  torn_down s = (
    close s.stdin_wr ++ close s.saved_stdin ++ close s.stdin_pipe_rd,
    record s {
      vm = record s.vm { heap = heap_state_create };
      loaded = false;
      running = false;
      active = false;
      stdin_wr = none;
      stdin_pipe_rd = none;
      saved_stdin = none;
    },
  )

  -- `debug_teardown`
  unfoldable pub debug_teardown : Session W → List Action × Session W
  unfolding torn_down
  debug_teardown s = if not s.active then ([], s) else torn_down s

  -- `debug_load_binary`: no session for a file that is too short. `headerValidate` ends the server.
  unfoldable pub debug_load_binary : Answers → Session W → Result (Option (Session W))
  debug_load_binary a s = a.binary >>= λ binary.
      if ltb (length binary) header_len
      then ok none
      else (header_validate (length binary) (header_parse (word_at binary)) >>= λ h. ok (
          some (record s {
            vm = record s.vm {
              code = load_code h.file_length (word_at binary) a.code_area;
              stack = a.stack_area.contents;
              heap = heap_state_create;
              regs = put (put (λ _. 0) pc_reg (sub64 h.offset header_len)) sp_reg stack_addr;
              exit_code = 0;
            };
            loaded = true;
            file_length = sub64 h.file_length header_len;
            extensions = h.extensions;
            running = true;
            active = true;
            stdin_wr = none;
            stdin_pipe_rd = none;
            saved_stdin = none;
          })))

  -- The pipe that becomes stdin, with the text that was sent in it.
  unfoldable pub connect : Answers → (rd wr : ℕ) (text : List ℕ) → Session W → Session W
  connect a rd wr text s = record s {
    vm = record s.vm { input = a.buffered ++ text };
    stdin_wr = some wr;
    saved_stdin = a.dup;
    stdin_pipe_rd = some rd;
  }

  module _ (alloc : ℕ → Bool) (render : List Event → List ℕ) where
    -- From a session that has been loaded on.
    unfoldable pub start_pipe :
        Answers → (text : List ℕ) → List Action → Session W → Result (Outcome W)
    start_pipe a text acts s = elim a.pipe [
      | none ↦ answer acts s pipe_failed
      | some (rd, wr) ↦
          let t = connect a rd wr text s in
          answer (acts ++ (opened rd ∷ opened wr ∷ opened_dup a.dup)) t
            (state_reply alloc render [] t)
    ]

    -- From the session that has been torn down on.
    unfoldable pub start_session :
        Answers → (text : List ℕ) → List Action × Session W → Result (Outcome W)
    start_session a text (acts, s) =
        if not (a.asm_exit == 0)
        then answer acts s (error_json alloc a.err >>= send_json)
        else (debug_load_binary a s >>= elim [
          | none ↦ answer acts s (
              build (length (codes "Failed to read binary") + 32)
                (codes "{\"ok\":false,\"error\":\"" ++ codes "Failed to read binary" ++ codes "\"}")
              >>= send_json)
          | some t ↦ start_pipe a text acts t
        ])

    unfoldable pub handle_debug_start : Answers → (body : List ℕ) → Session W → Result (Outcome W)
    handle_debug_start a body s = json_get_string alloc body (codes "source") >>= elim [
      | none ↦ answer [] s missing_source
      | some source ↦ json_get_string alloc body (codes "stdin") >>= λ stdin_str.
          let (acts, t) = debug_teardown s in
          assembling a.files >>= λ more. start_session a (get_or stdin_str []) (acts ++ more, t)
    ]

  unfoldable pub handle_debug_stop : Session W → Result (Outcome W)
  handle_debug_stop s = let (acts, t) = debug_teardown s in answer acts t send_ok
