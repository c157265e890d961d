-- ===== src/Server/Requests.antt =====
-- The requests under /debug of src/server.c, one after the other: which pointers and descriptors
-- the session has.
use cortex_vm.Prelude.{
  ℕ, suc, ◌+◌, ◌≡◌, ◌==◌, Bool, true, if◌then◌else◌, Option, none, some, List, [], ◌∷◌, ◌++◌,
  Result, ok, ◌>>=◌,
}
use cortex_vm.Machine.{Vm, Host, Fpu, Event}
use cortex_vm.Server.Session.{
  Session, Outcome, handle_debug_step, handle_debug_continue, handle_debug_input,
  handle_debug_memory,
}
use cortex_vm.Server.Handles.{Action, opened, closed, Capture}
use cortex_vm.Server.Start.{Answers, handle_debug_start, handle_debug_stop}

-- A request, with what the system answers to it.
pub data Request : Type 0 where
  start : Answers → (body : List ℕ) → Request
  step_once : Option Capture → Request
  stop memory : Request
  continue : Option Capture → (body : List ℕ) → Request
  input : (body : List ℕ) → Request

-- How often a descriptor is in a list.
abbrev pub count : ℕ → List ℕ → ℕ
count fd [] = 0
count fd (e ∷ fds) = if fd == e then suc (count fd fds) else count fd fds

abbrev pub all_opened : List Action → List ℕ
all_opened [] = []
all_opened (opened fd ∷ acts) = fd ∷ all_opened acts
all_opened (closed fd ∷ acts) = all_opened acts

abbrev pub all_closed : List Action → List ℕ
all_closed [] = []
all_closed (opened fd ∷ acts) = all_closed acts
all_closed (closed fd ∷ acts) = fd ∷ all_closed acts

abbrev pub maybe : Option ℕ → List ℕ
maybe none = []
maybe (some fd) = fd ∷ []

module _ {W : Type 0} where
  -- The descriptors that the session has.
  abbrev pub held : Session W → List ℕ
  held s = if s.active then maybe s.stdin_wr ++ maybe s.saved_stdin ++ maybe s.stdin_pipe_rd else []

  -- A machine that runs belongs to a session, and a session has its arrays.
  pub record IsSound (s : Session W) : Type 0 where
    pub has_session : s.running ≡ true → s.active ≡ true
    pub has_arrays : s.active ≡ true → s.loaded ≡ true

  -- Every descriptor that was opened has been closed or is held.
  abbrev pub IsBalanced : (s : Session W) → List Action → (t : Session W) → Type 0
  IsBalanced s acts t =
      (fd : ℕ)
      → count fd (all_opened acts) + count fd (held s)
        ≡ count fd (all_closed acts) + count fd (held t)

  -- A reply without actions.
  abbrev pub quiet : Result (List ℕ × Session W) → Result (Outcome W)
  quiet r = r >>= λ done. ok ([], done)

module _ {W : Type 0} (host : Host W) (fpu : Fpu) (select_empty : Vm W → Bool) (alloc : ℕ → Bool)
    (render : List Event → List ℕ) where
  unfoldable pub serve : Request → Session W → Result (Outcome W)
  serve (start a body) s = handle_debug_start alloc render a body s
  serve (step_once c) s = handle_debug_step host fpu select_empty alloc render c s
  serve stop s = handle_debug_stop s
  serve memory s = quiet (handle_debug_memory host fpu select_empty alloc render s)
  serve (continue c body) s = handle_debug_continue host fpu select_empty alloc render c body s
  serve (input body) s = quiet (handle_debug_input host fpu select_empty alloc render body s)

  -- The requests of a connection after the other, with all that was done to descriptors.
  unfoldable pub serve_all : List Request → Session W → Result (List Action × Session W)
  unfolding serve
  serve_all [] s = ok ([], s)
  serve_all (q ∷ requests) s =
      serve q s >>= λ (acts, (reply, t)). serve_all requests t >>= λ (more, u). ok (acts ++ more, u)
