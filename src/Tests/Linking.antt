-- ===== src/Tests/Linking.antt =====
-- A linked list of two nodes, and the requests that the server takes.
use cortex_vm.Prelude.{
  ℕ, suc, ◌>>=◌, ◌≡◌, refl, inr, ◌++◌, length, ◌∷◌, [], List, true, none, some, codes, ok, arith,
  Ensures,
}
use cortex_vm.Machine.{put}
use cortex_vm.Disassembler.Program.{line_list_join}
use cortex_vm.Links.Lines.{line_list_init, append_lines, join_nodes}
use cortex_vm.Links.Lines.Joined.{lines_in, join_nodes-append_lines}
use cortex_vm.Links.{Nodes, Ends, list_append, node_get, list_to_array, list_destroy}
use cortex_vm.Links.Chain.{done, step_to, IsList, node, list_append-IsList}
use cortex_vm.Links.Values.{values, at_index, freed, list_values}
use cortex_vm.Server.Routes.{
  Route, Message, parent, handled, serve_message, route_in, routes, post_method,
}
use cortex_vm.Server.Dispatch.{serve_message-handled}
use cortex_vm.Server.Session.{Session}
use cortex_vm.Server.Start.{initial_session}
use cortex_vm.Server.Requests.{IsSound}
use cortex_vm.Server.Interactive.{
  Irun, Launch, Drained, handle_irun_start, handle_irun_input, handle_irun_poll, handle_irun_stop,
}
use cortex_vm.Server.Holdings.{Settled, BothSettled, GivenBack}
use cortex_vm.Server.Idle.{irun-Settled}
use mathlib.Core.Bool.{false≢true}
use cortex_vm.Tests.Loading.{malloc}
use cortex_vm.Tests.Programs.{blank}
use cortex_vm.Tests.Serving.{test_files}

abbrev two_cells : List (ℕ × ℕ)
two_cells = (16, 5) ∷ (32, 9) ∷ []

abbrev two_nodes : Nodes ℕ
two_nodes = put (put (λ a. none) 16 (node 5 32)) 32 (node 9 0)

abbrev cell_ends : Ends
cell_ends = record { head = 16; tail = 32; len = 2 }

two_cells-IsList : IsList two_nodes cell_ends two_cells
two_cells-IsList = record {
  chain = step_to refl (ground arith) (ground arith, tt) (step_to refl (ground arith) tt done);
  last = inr ((16, 5) ∷ [], 9, refl);
  count = refl;
}

list_append-IsList_example :
    (l : Ends) × (h : Nodes ℕ) × (list_append 0x0402 0x0403 48 7 (some cell_ends) two_nodes
      ≡ ok (l, h))
    × IsList h l (two_cells ++ ((48, 7) ∷ []))
list_append-IsList_example =
    list_append-IsList 0x0402 0x0403 two_nodes cell_ends two_cells 48 7 two_cells-IsList
      (ground arith) (ground arith, (ground arith, tt))

list_values_example :
    (node_get 0x0408 0x0409 (some cell_ends) 1 two_nodes ≡ at_index 0x0409 (values two_cells) 1)
    × (list_to_array 64 (some cell_ends) two_nodes ≡ ok (values two_cells))
    × (list_destroy 0x0401 (some cell_ends) two_nodes ≡ ok (freed two_cells two_nodes))
list_values_example =
    list_values 0x0408 0x0409 64 0x0401 two_nodes cell_ends two_cells 1 two_cells-IsList
      (ground arith)

-- A server whose sessions are a number, which each handler counts up.
abbrev counted : Route → (body : List ℕ) → ℕ → ℕ
counted r body s = suc s

abbrev stop_message : Message
stop_message = record { method = post_method; path = codes "/debug/stop"; body = [] }

serve_message-handled_example :
    serve_message counted parent stop_message 4
    ≡ handled counted (route_in routes post_method (codes "/debug/stop")) [] 4
serve_message-handled_example = serve_message-handled counted parent stop_message 4

abbrev test_launch : Launch
test_launch = record {
  files = test_files;
  tmppath = codes "/tmp/a.s";
  binpath = codes "/tmp/a.b";
  asm_exit = 0;
  err = [];
  in_pipe = some (3, 4);
  out_pipe = some (5, 6);
  err_pipe = some (7, 8);
  child = some 99;
}

abbrev at_end : Drained
at_end = record { out = codes "7"; err = []; stdout_eof = true; status = 0 }

abbrev start_body : List ℕ
start_body = codes "{\"source\":\"halt\"}" ++ (0 ∷ [])

abbrev running_irun : Irun
running_irun = record {
  pid = some 42;
  stdin_wr = some 9;
  stdout_rd = some 10;
  stderr_rd = some 11;
  active = true;
  binpath = some (codes "/tmp/c.b");
}

abbrev first_session : Session ℕ
first_session = initial_session (blank (λ _. 0))

first_session-IsSound : IsSound first_session
unfolding initial_session
first_session-IsSound = record { has_session = λ h. h; has_arrays = λ h. absurd (false≢true h) }

irun-Settled_example :
    Ensures
      (BothSettled running_irun first_session)
      (handle_irun_start malloc test_launch start_body running_irun first_session)
    × Ensures (Settled running_irun) (handle_irun_input malloc start_body running_irun)
    × Ensures (Settled running_irun) (handle_irun_poll malloc at_end running_irun)
    × Ensures (GivenBack running_irun) (handle_irun_stop running_irun)
irun-Settled_example =
    irun-Settled malloc test_launch at_end start_body running_irun first_session (3, 4) (5, 6)
      (7, 8) refl refl refl first_session-IsSound

-- Three lines, the second of which is empty.
abbrev three_lines : List (ℕ × ℕ × List ℕ)
three_lines = (16, 17, codes ".data\n") ∷ (32, 33, []) ∷ (48, 49, codes "0\n") ∷ []

join_nodes-append_lines_example :
    (line_list_init 8 >>= λ l.
    append_lines three_lines l (λ a. none) >>= λ (l', h'). join_nodes 64 (some l') h')
    ≡ ok (line_list_join (lines_in three_lines), length (line_list_join (lines_in three_lines)))
join_nodes-append_lines_example =
    join_nodes-append_lines 8 64 three_lines (λ a. none) (omega arith) (omega arith)
      (
        omega arith,
        omega arith,
        tt,
        (
          omega arith,
          omega arith,
          (omega arith, tt),
          (omega arith, omega arith, (omega arith, (omega arith, tt)), tt),
        ),
      )
      (omega arith)

joined_text : line_list_join (lines_in three_lines) ≡ codes ".data\n0\n"
joined_text = refl
