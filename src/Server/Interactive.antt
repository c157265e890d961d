-- ===== src/Server/Interactive.antt =====
-- The interactive run session of src/server.c, `g_irun`: a process of its own with its three pipes.
use cortex_vm.Prelude.{
  ℕ, ◌+◌, ◌==◌, not, if◌then◌else◌, Bool, true, false, Option, none, some, List, [], ◌∷◌, ◌++◌,
  codes, length, Result, ok, ◌>>=◌,
}
use cortex_vm.Server.Handles.{Action, opened, closed, Assembling, assembling}
use cortex_vm.Server.Session.{Session}
use cortex_vm.Server.Start.{debug_teardown}
use cortex_vm.Server.Text.{json_escape, json_get_string}
use cortex_vm.Server.Replies.{
  build, decimal_text, send_literal, send_ok, send_json, no_session, missing_source, pipe_failed,
  error_json,
}

-- `g_irun`. A pid or a descriptor of -1 is `none`, as is an empty `binpath`.
pub record Irun : Type 0 where
  pub pid : Option ℕ
  pub stdin_wr : Option ℕ
  pub stdout_rd : Option ℕ
  pub stderr_rd : Option ℕ
  pub active : Bool
  pub binpath : Option (List ℕ)

-- What the server can have of the system: a descriptor, a process of its own, and a file in /tmp.
pub data Resource : Type 0 where
  descriptor process : ℕ → Resource
  file : List ℕ → Resource

-- What a handler does outside: it gets a resource, gives one back (`close`, `waitpid`, `unlink`),
-- kills a process, or writes bytes to a descriptor.
pub data Effect : Type 0 where
  gained lost : Resource → Effect
  killed : ℕ → Effect
  written : (fd : ℕ) (bytes : List ℕ) → Effect

abbrev pub of_actions : List Action → List Effect
of_actions [] = []
of_actions (opened fd ∷ acts) = gained (descriptor fd) ∷ of_actions acts
of_actions (closed fd ∷ acts) = lost (descriptor fd) ∷ of_actions acts

abbrev pub kill_effects : Option ℕ → List Effect
kill_effects none = []
kill_effects (some pid) = killed pid ∷ lost (process pid) ∷ []

abbrev pub close_effects : Option ℕ → List Effect
close_effects none = []
close_effects (some fd) = lost (descriptor fd) ∷ []

abbrev pub unlink_effects : Option (List ℕ) → List Effect
unlink_effects none = []
unlink_effects (some path) = lost (file path) ∷ []

-- The state of a server that has just been started, and that a cleanup leaves.
abbrev pub idle_irun : Irun
idle_irun = record {
  pid = none;
  stdin_wr = none;
  stdout_rd = none;
  stderr_rd = none;
  active = false;
  binpath = none;
}

-- `irun_cleanup`
unfoldable pub irun_cleanup : Irun → List Effect × Irun
irun_cleanup g = if not g.active then ([], g) else (
  kill_effects g.pid
      ++ (close_effects g.stdin_wr
          ++ (close_effects g.stdout_rd
              ++ (close_effects g.stderr_rd ++ unlink_effects g.binpath))),
  idle_irun,
)

-- What the system answers while a run is started: the temporary files, the assembler's run, the pipes
-- and the process. A `fork` that fails leaves the pid -1.
pub record Launch : Type 0 where
  pub files : Assembling
  pub tmppath : List ℕ
  pub binpath : List ℕ
  pub asm_exit : ℕ
  pub err : List ℕ
  pub in_pipe : Option (ℕ × ℕ)
  pub out_pipe : Option (ℕ × ℕ)
  pub err_pipe : Option (ℕ × ℕ)
  pub child : Option ℕ

abbrev pub Handled : Type 0
Handled = List Effect × (List ℕ × Irun)

-- The reply of a handler that has done its work.
abbrev pub reply_with : List Effect → Irun → Result (List ℕ) → Result Handled
reply_with effects g reply = reply >>= λ sent. ok (effects, (sent, g))

abbrev pub spawn_effects : Option ℕ → List Effect
spawn_effects none = []
spawn_effects (some pid) = gained (process pid) ∷ []

abbrev pub opened_pair : ℕ × ℕ → List Effect
opened_pair (rd, wr) = gained (descriptor rd) ∷ gained (descriptor wr) ∷ []

-- The ends that the parent does not use are closed.
unfoldable pub launched :
    Launch → (in_rd in_wr out_rd out_wr err_rd err_wr : ℕ) → List Effect → Result Handled
launched a in_rd in_wr out_rd out_wr err_rd err_wr effects =
    reply_with
      (effects
        ++ (opened_pair (in_rd, in_wr)
            ++ (opened_pair (out_rd, out_wr)
                ++ (opened_pair (err_rd, err_wr)
                    ++ (spawn_effects a.child
                        ++ (lost (descriptor in_rd)
                            ∷ lost (descriptor out_wr)
                            ∷ lost (descriptor err_wr)
                            ∷ []))))))
      (record {
        pid = a.child;
        stdin_wr = some in_wr;
        stdout_rd = some out_rd;
        stderr_rd = some err_rd;
        active = true;
        binpath = some a.binpath;
      })
      send_ok

-- `pipe` three times, each only if the one before it was made; the ones made before a failure
-- stay open, and the binary stays where it is.
unfoldable pub launch : Launch → List Effect → Irun → Result Handled
unfolding launched
launch a effects g = elim a.in_pipe [
  | none ↦ reply_with effects g pipe_failed
  | some (in_rd, in_wr) ↦ elim a.out_pipe [
    | none ↦ reply_with (effects ++ opened_pair (in_rd, in_wr)) g pipe_failed
    | some (out_rd, out_wr) ↦ elim a.err_pipe [
      | none ↦
          reply_with (effects ++ opened_pair (in_rd, in_wr) ++ opened_pair (out_rd, out_wr)) g
            pipe_failed
      | some (err_rd, err_wr) ↦ launched a in_rd in_wr out_rd out_wr err_rd err_wr effects
    ]
  ]
]

-- What `write_all` is given: the line and a newline.
unfoldable pub written_line : (line : Option (List ℕ)) (wr : Option ℕ) → List Effect
written_line (some line) (some fd) = written fd line ∷ written fd (10 ∷ []) ∷ []
written_line _ _ = []

abbrev pub running_text : Bool → List ℕ
running_text true = codes "true"
running_text false = codes "false"

-- What the pipes had: `stdout_eof` when the child has closed its end.
pub record Drained : Type 0 where
  pub out : List ℕ
  pub err : List ℕ
  pub stdout_eof : Bool
  pub status : ℕ

-- The session's child has ended. Without one `waitpid` is asked about any child, which is no resource
-- of the session.
abbrev pub await_effects : Option ℕ → List Effect
await_effects none = []
await_effects (some pid) = lost (process pid) ∷ []

module _ (alloc : ℕ → Bool) where
  -- From the source on: both sessions are ended, and the source is assembled.
  unfoldable pub assemble_and_launch : Launch → Irun → List Action → Result Handled
  unfolding assembling irun_cleanup launch
  assemble_and_launch a g acts =
      let (effects, g') = irun_cleanup g in
      assembling a.files >>= λ more.
      let before =
        effects
        ++ (of_actions acts
            ++ (of_actions more
                ++ (gained (file a.binpath)
                    ∷ gained (file a.tmppath)
                    ∷ lost (file a.tmppath)
                    ∷ []))) in
      if not (a.asm_exit == 0)
      then reply_with (before ++ (lost (file a.binpath) ∷ [])) g'
          (error_json alloc a.err >>= send_json)
      else launch a before g'

  unfoldable pub handle_irun_start :
      {W : Type 0} → Launch → (body : List ℕ) → Irun → Session W → Result (Handled × Session W)
  unfolding assemble_and_launch
  handle_irun_start a body g s = json_get_string alloc body (codes "source") >>= elim [
    | none ↦ reply_with [] g missing_source >>= λ done. ok (done, s)
    | some source ↦
        let (acts, t) = debug_teardown s in assemble_and_launch a g acts >>= λ done. ok (done, t)
  ]

  unfoldable pub handle_irun_input : (body : List ℕ) → Irun → Result Handled
  handle_irun_input body g =
      if not g.active
      then reply_with [] g no_session
      else (json_get_string alloc body (codes "line") >>= λ line.
          reply_with (written_line line g.stdin_wr) g send_ok)

  -- The reply of `handle_irun_poll`; `exit_code` is below 256.
  unfoldable pub poll_json : (out err : List ℕ) (running : Bool) (exit_code : ℕ) → Result (List ℕ)
  poll_json out err running exit_code = json_escape alloc out >>= λ esc_out.
      json_escape alloc err >>= λ esc_err. build (length esc_out + length esc_err + 80) (
        codes "{\"ok\":true,\"running\":"
        ++ running_text running
        ++ codes ",\"stdout\":\""
        ++ esc_out
        ++ codes "\",\"stderr\":\""
        ++ esc_err
        ++ codes "\",\"exit_code\":"
        ++ decimal_text exit_code
        ++ codes "}")

  unfoldable pub handle_irun_poll : Drained → Irun → Result Handled
  unfolding irun_cleanup
  handle_irun_poll d g =
      if not g.active
      then reply_with [] g (
          send_literal
            (codes
              "{\"ok\":false,\"running\":false,\"stdout\":\"\",\"stderr\":\"\",\"exit_code\":0}")
            65)
      else if d.stdout_eof
      then (let (effects, g') = irun_cleanup (record g { pid = none }) in
          reply_with (await_effects g.pid ++ effects) g'
            (poll_json d.out d.err false d.status >>= send_json))
      else reply_with [] g (poll_json d.out d.err true 0 >>= send_json)

unfoldable pub handle_irun_stop : Irun → Result Handled
unfolding irun_cleanup
handle_irun_stop g = let (effects, g') = irun_cleanup g in reply_with effects g' send_ok
