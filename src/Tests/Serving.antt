-- ===== src/Tests/Serving.antt =====
-- The debug server at concrete requests.
use cortex_vm.Prelude.{
  ℕ, zero, suc, ◌+◌, ◌*◌, ◌<◌, ◌≡◌, ◌⊎◌, refl, ◌++◌, ◌∷◌, [], List, Bool, true, some, codes, ok,
  arith, Ensures,
}
use cortex_vm.Machine.{Vm, Event}
use cortex_vm.Tests.Programs.{test_host, test_fpu, blank, two_words, addi_word, halt_word}
use cortex_vm.Tests.Loading.{area, malloc}
use cortex_vm.Server.Text.{take, json_escape, json_get_string}
use cortex_vm.Server.Escape.{escape_text, json_escape-escape_text}
use cortex_vm.Server.Grow.{Refused}
use cortex_vm.Server.Numbers.{breakpoints_key, parse_breakpoints, numbers, trim_end, parse_regs}
use cortex_vm.Server.Breakpoints.{AreWords, parse_breakpoints-numbers}
use cortex_vm.Server.RegDump.{dump_regs, parse_regs-dump_regs}
use cortex_vm.Server.Fields.{Fields, object, lookup, json_get_string-object}
use cortex_vm.Server.Session.{Session, continue_loop, memory_json}
use cortex_vm.Server.Continue.{IsRun, continue_loop-IsRun}
use cortex_vm.Server.Handles.{Assembling}
use cortex_vm.Server.Start.{Answers, initial_session}
use cortex_vm.Server.Requests.{
  Request, start, step_once, stop, memory, continue, input, serve_all, all_opened, all_closed, held,
  count,
}
use cortex_vm.Server.Requests
use cortex_vm.Server.Descriptors.{serve_all-IsBalanced}
use cortex_vm.Server.Replies.{
  build_debug_state_json, waiting_json, step_waiting_json, error_json, reg_values,
}
use cortex_vm.Server.Fits.{Fits, replies-Fits}

abbrev quoted_text : List ℕ
quoted_text = codes "say \"hi\"\\"

json_escape-escape_text_example :
    (json_escape malloc quoted_text ≡ ok (escape_text quoted_text))
    ⊎ ((json_escape malloc quoted_text ≡ ok []) × Refused malloc)
json_escape-escape_text_example = json_escape-escape_text malloc quoted_text (omega arith) refl refl

-- What the page sends to run a program that reads a number.
abbrev run_fields : Fields
run_fields = (codes "source", codes "\tsyscall\n") ∷ (codes "stdin", codes "\"7\"\n") ∷ []

json_get_string-object_example :
    json_get_string malloc (object run_fields (0 ∷ [])) (codes "stdin")
    ≡ ok (lookup (codes "stdin") run_fields)
json_get_string-object_example =
    json_get_string-object malloc (codes "stdin") run_fields [] (λ n. refl)
      (refl, (refl, (refl, (refl, (refl, tt))))) (omega arith)
      (
        (refl, (refl, (refl, (refl, (refl, (refl, tt)))))),
        (refl, (refl, (refl, (refl, (refl, (refl, (refl, (refl, (refl, tt))))))))),
        omega arith,
        (
          (refl, (refl, (refl, (refl, (refl, tt))))),
          (refl, (refl, (refl, (refl, tt)))),
          omega arith,
          tt,
        ),
      )

-- The second value, in full.
stdin_found : lookup (codes "stdin") run_fields ≡ some (codes "\"7\"\n")
stdin_found = refl

parse_breakpoints-numbers_example :
    parse_breakpoints
      (b'{' ∷ (breakpoints_key ++ numbers (0 ∷ 5 ∷ 10 ∷ []) (b']' ∷ b'}' ∷ 0 ∷ [])))
      2
    ≡ 0 ∷ 5 ∷ []
unfolding take
parse_breakpoints-numbers_example =
    parse_breakpoints-numbers (0 ∷ 5 ∷ 10 ∷ []) (0 ∷ []) 2
      (omega arith, (omega arith, (omega arith, tt)))

abbrev counting : List ℕ
counting = reg_values 64 0 (λ i. i * 1000)

counting-AreWords : (left i : ℕ) → i + left < 1000 → AreWords (reg_values left i (λ k. k * 1000))
unfolding reg_values
counting-AreWords zero i small = tt
counting-AreWords (suc left) i small = (omega arith, counting-AreWords left (suc i) (omega arith))

parse_regs-dump_regs_example :
    parse_regs (codes "done \n" ++ dump_regs counting) ≡ some (trim_end (codes "done \n"), counting)
unfolding reg_values
parse_regs-dump_regs_example =
    parse_regs-dump_regs (codes "done \n") counting
      (refl, (refl, (refl, (refl, (refl, (refl, tt)))))) (counting-AreWords 64 0 (omega arith)) refl

-- A session on the program of two words.
abbrev test_session : Session ℕ
test_session = record {
  vm = blank two_words;
  loaded = true;
  file_length = 2;
  extensions = 0;
  running = true;
  active = true;
  stdin_wr = some 6;
  stdin_pipe_rd = some 5;
  saved_stdin = some 7;
}

abbrev nothing_to_read : Vm ℕ → Bool
nothing_to_read vm = true

continue_loop-IsRun_example :
    (n : ℕ) × IsRun test_host test_fpu nothing_to_read
      (1 ∷ [])
      3
      test_session
      n
      (continue_loop test_host test_fpu nothing_to_read (1 ∷ []) 3 test_session)
continue_loop-IsRun_example =
    continue_loop-IsRun test_host test_fpu nothing_to_read (1 ∷ []) 3 test_session refl

abbrev pub test_files : Assembling
test_files = record {
  binfd = some 5;
  tmpfd = some 5;
  out_fds = some (5, 6);
  err_fds = some (7, 8);
  devnull = some 9;
}

-- A binary of two words behind its header, and the system's answers when it is debugged.
abbrev answers : Answers
answers = record {
  files = test_files;
  asm_exit = 0;
  err = [];
  binary = ok (0x2e3a434f52540001 ∷ 7 ∷ 5 ∷ 0 ∷ 0 ∷ addi_word ∷ halt_word ∷ []);
  code_area = area;
  stack_area = area;
  pipe = some (5, 6);
  dup = some 7;
  buffered = [];
}

abbrev requests : List Request
requests =
    start answers (object ((codes "source", codes "halt") ∷ []) (0 ∷ []))
    ∷ step_once (some (record { tmpf = 8; saved = some 9 }))
    ∷ stop
    ∷ []

abbrev shown : List Event → List ℕ
shown events = []

serve_all-IsBalanced_example :
    Ensures
      (λ (acts, t).
        Requests.IsSound t
        × ((fd : ℕ) → count fd (all_opened acts) ≡ count fd (all_closed acts) + count fd (held t)))
      (serve_all test_host test_fpu nothing_to_read malloc shown requests
        (initial_session (blank (λ _. 0))))
serve_all-IsBalanced_example =
    serve_all-IsBalanced malloc shown test_host test_fpu nothing_to_read requests (blank (λ _. 0))

replies-Fits_example :
    Fits (build_debug_state_json malloc quoted_text true test_session.vm.regs 0)
    × Fits (waiting_json malloc quoted_text test_session.vm.regs)
    × Fits (step_waiting_json test_session.vm.regs)
    × Fits (error_json malloc quoted_text)
    × Fits (memory_json test_session)
replies-Fits_example =
    replies-Fits malloc quoted_text test_session (λ n. refl) (omega arith)
      (record { in_use = omega arith; backed = refl })
