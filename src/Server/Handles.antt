-- ===== src/Server/Handles.antt =====
-- The descriptors that the handlers of src/server.c open and close themselves: temporary files, the
-- pipes of `run_vm_argv`, and stdout while it goes to a file.
use cortex_vm.Prelude.{ℕ, Option, none, some, List, [], ◌∷◌, ◌++◌, Result, ok, undefined}

-- What a handler does to the descriptors of the process.
pub data Action : Type 0 where
  opened closed : ℕ → Action

abbrev pub close : Option ℕ → List Action
close none = []
close (some fd) = closed fd ∷ []

abbrev pub opened_dup : Option ℕ → List Action
opened_dup none = []
opened_dup (some fd) = opened fd ∷ []

-- `CAPTURE_STDOUT_START` and `CAPTURE_STDOUT_END`: what `tmpfile` and `dup` give.
pub record Capture : Type 0 where
  pub tmpf : ℕ
  pub saved : Option ℕ

-- A `tmpfile` that fails gives NULL, whose descriptor is asked for.
unfoldable pub captured : Option Capture → Result (List Action)
captured none = undefined
captured (some c) =
    ok (opened c.tmpf ∷ (opened_dup c.saved ++ (close c.saved ++ (closed c.tmpf ∷ []))))

-- What the system gives `handle_debug_start` or `handle_irun_start`, and `assemble_to_file` within
-- it: two temporary files, two pipes and /dev/null.
pub record Assembling : Type 0 where
  pub binfd : Option ℕ
  pub tmpfd : Option ℕ
  pub out_fds : Option (ℕ × ℕ)
  pub err_fds : Option (ℕ × ℕ)
  pub devnull : Option ℕ

abbrev pub brief : Option ℕ → List Action
brief none = []
brief (some fd) = opened fd ∷ closed fd ∷ []

-- The parent's side of `run_vm_argv` without a text for stdin; `drain_pipes` closes the two ends
-- that are left, when the process has closed the others.
unfoldable pub argv_actions : (out err : ℕ × ℕ) (devnull : Option ℕ) → List Action
argv_actions (out_rd, out_wr) (err_rd, err_wr) devnull =
    opened out_rd
    ∷ opened out_wr
    ∷ opened err_rd
    ∷ opened err_wr
    ∷ (brief devnull ++ (closed out_wr ∷ closed err_wr ∷ closed out_rd ∷ closed err_rd ∷ []))

-- Without its pipes `run_vm_argv` returns before `exit_code` has a value, which is read all the same.
unfoldable pub assembling : Assembling → Result (List Action)
unfolding argv_actions
assembling a = elim a.out_fds [
  | none ↦ undefined
  | some out ↦ elim a.err_fds [
    | none ↦ undefined
    | some err ↦ ok (brief a.binfd ++ (brief a.tmpfd ++ argv_actions out err a.devnull))
  ]
]
