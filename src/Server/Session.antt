-- ===== src/Server/Session.antt =====
-- The debug session of src/server.c, `g_debug`, and what the requests under /debug do with it. A
-- handler returns the bytes of its reply and the session. What `step` prints goes to the temporary
-- file of a request; here the machine's output keeps all of it, and a request shows what is new.
use cortex_vm.Prelude.{
  ℕ, zero, suc, ◌+◌, ◌-◌, ltb, leb, ◌==◌, ◌&&◌, ◌||◌, not, if◌then◌else◌, Bool, true, false, Option,
  none, some, List, [], ◌∷◌, ◌++◌, codes, length, Result, ok, undefined, ◌>>=◌,
}
use cortex_vm.Isa.{opcode, funct}
use cortex_vm.Isa.Codes.{
  op_sys, fn_syscall, sys_read_int, sys_read_uint, sys_read_char, sys_read_float, sys_read_str,
  pc_reg, sp_reg, a13, stack_addr,
}
use cortex_vm.Machine.{Vm, Host, Fpu, Block, Event}
use cortex_vm.Step.{step}
use cortex_vm.Server.Handles.{Action, Capture, captured}
use cortex_vm.Server.Text.{json_get_string}
use cortex_vm.Server.Numbers.{parse_breakpoints}
use cortex_vm.Server.Replies.{
  build, decimal_text, send_json, send_ok, no_debug_session, reg_values, words_to_json,
  build_debug_state_json, step_waiting_json, waiting_json,
}

-- `g_debug`. The machine has the arrays at `code_base` and `stack_base`, which are there when
-- `loaded` is true, the heap, the registers and the exit code. A descriptor of -1 is `none`.
pub record Session (W : Type 0) : Type 0 where
  pub vm : Vm W
  pub loaded : Bool
  pub file_length : ℕ
  pub extensions : ℕ
  pub running : Bool
  pub active : Bool
  pub stdin_wr : Option ℕ
  pub stdin_pipe_rd : Option ℕ
  pub saved_stdin : Option ℕ

-- Why `handle_debug_continue` stopped.
pub data Stop : Type 0 where
  halted limit at_breakpoint waiting : Stop

-- `MAX_CONTINUE_STEPS`
abbrev pub max_continue_steps : ℕ
max_continue_steps = 10_000_000

-- `MEM_MAX_WORDS`
abbrev pub mem_max_words : ℕ
mem_max_words = 8192

-- Is a word among the breakpoints?
abbrev pub among : ℕ → List ℕ → Bool
among pc [] = false
among pc (bp ∷ bps) = pc == bp || among pc bps

unfoldable pub skip : {A : Type 0} → ℕ → List A → List A
skip zero xs = xs
skip (suc n) [] = []
skip (suc n) (x ∷ xs) = skip n xs

abbrev pub at_most : ℕ → ℕ → ℕ
at_most most n = if ltb n most then n else most

-- `heap->base`, of which `used` words are read.
unfoldable pub heap_words : (base : Option Block) (count : ℕ) → Result (List ℕ)
unfolding reg_values
heap_words none count = if count == 0 then ok [] else undefined
heap_words (some block) count =
    if leb count block.words then ok (reg_values count 0 block.cells) else undefined

module _ {W : Type 0} (alloc : ℕ → Bool) (render : List Event → List ℕ) where
  -- What a request printed, of a session that was `s` before it.
  abbrev pub printed : (s t : Session W) → List ℕ
  printed s t = render (skip (length s.vm.output) t.vm.output)

  unfoldable pub state_reply : (out : List ℕ) → Session W → Result (List ℕ)
  state_reply out s =
      build_debug_state_json alloc out s.running s.vm.regs s.vm.exit_code >>= send_json

  unfoldable pub continue_reply : (s t : Session W) → Stop → Result (List ℕ)
  continue_reply s t waiting = waiting_json alloc (printed s t) t.vm.regs >>= send_json
  continue_reply s t why = state_reply (printed s t) t

-- A line goes into the pipe that stdin is, if it is there.
unfoldable pub send_line : (line : Option (List ℕ)) (wr : Option ℕ) (stdin : List ℕ) → List ℕ
send_line (some text) (some fd) stdin = stdin ++ text ++ (10 ∷ [])
send_line _ _ stdin = stdin

-- The words on the stack, which grows up from STACK_ADDR.
abbrev pub sp_word : {W : Type 0} → Session W → ℕ
sp_word s = if leb stack_addr (s.vm.regs sp_reg) then s.vm.regs sp_reg - stack_addr else 0

-- What the session has in memory: the code, the stack up to SP and the heap.
unfoldable pub memory_json : {W : Type 0} → Session W → Result (List ℕ)
memory_json s =
    words_to_json (reg_values (at_most mem_max_words s.file_length) 0 s.vm.code) >>= λ code_json.
    words_to_json (reg_values (at_most mem_max_words (sp_word s)) 0 s.vm.stack) >>= λ stack_json.
    heap_words s.vm.heap.base (at_most mem_max_words s.vm.heap.used)
    >>= words_to_json
    >>= λ heap_json. build (length code_json + length stack_json + length heap_json + 128) (
        codes "{\"ok\":true,\"pc_word\":"
        ++ decimal_text (s.vm.regs pc_reg)
        ++ codes ",\"sp_word\":"
        ++ decimal_text (sp_word s)
        ++ codes ",\"code\":"
        ++ code_json
        ++ codes ",\"stack\":"
        ++ stack_json
        ++ codes ",\"heap\":"
        ++ heap_json
        ++ codes "}")

-- What a handler returns: its actions, its reply and the session.
abbrev pub Outcome : Type 0 → Type 0
Outcome W = List Action × (List ℕ × Session W)

-- The reply of a handler that has done its work.
abbrev pub answer : {W : Type 0} → List Action → Session W → Result (List ℕ) → Result (Outcome W)
answer acts s reply = reply >>= λ sent. ok (acts, (sent, s))

-- A reply, and the session behind it.
abbrev pub answered : {W : Type 0} → Session W → Result (List ℕ) → Result (List ℕ × Session W)
answered s reply = reply >>= λ sent. ok (sent, s)

module _ {W : Type 0} (host : Host W) (fpu : Fpu) (select_empty : Vm W → Bool) where
  abbrev pub reads_input : ℕ → Bool
  reads_input sysno =
      sysno == sys_read_int
      || sysno == sys_read_uint
      || sysno == sys_read_char
      || sysno == sys_read_float
      || sysno == sys_read_str

  -- `is_waiting_for_input`, where `select` on stdin found nothing.
  unfoldable pub is_waiting_for_input : Session W → Bool
  is_waiting_for_input s =
      let instr = s.vm.code (s.vm.regs pc_reg) in
      ltb (s.vm.regs pc_reg) s.file_length
      && opcode instr == op_sys
      && funct instr == fn_syscall
      && reads_input (s.vm.regs a13)
      && select_empty s.vm

  -- `step` on the session's machine, through the pointers to its arrays.
  unfoldable pub session_step : Session W → Result (Session W)
  session_step s =
      if s.loaded
      then (step host fpu s.file_length s.extensions s.vm >>= λ (still_running, vm).
          ok (record s { vm = vm; running = still_running }))
      else undefined

  -- What `handle_debug_step` does before its reply.
  unfoldable pub press : Session W → Result (Session W)
  unfolding session_step is_waiting_for_input
  press s = if s.active && s.running && not (is_waiting_for_input s) then session_step s else ok s

  -- The loop of `handle_debug_continue`, with `left` steps to go.
  unfoldable pub continue_loop : (bps : List ℕ) (left : ℕ) → Session W → Result (Session W × Stop)
  continue_loop bps zero s = ok (s, if s.running then limit else halted)
  continue_loop bps (suc left) s = elim (s.running) [
    | false ↦ ok (s, halted)
    | true ↦ elim (is_waiting_for_input s) [
      | true ↦ ok (s, waiting)
      | false ↦ session_step s >>= λ t. elim (t.running) [
        | false ↦ ok (t, halted)
        | true ↦ elim (among (t.vm.regs pc_reg) bps) [
          | true ↦ ok (t, at_breakpoint)
          | false ↦ continue_loop bps left t
        ]
      ]
    ]
  ]

  module _ (alloc : ℕ → Bool) (render : List Event → List ℕ) where
    unfoldable pub handle_debug_step : Option Capture → Session W → Result (Outcome W)
    unfolding captured
    handle_debug_step c s =
        if not s.active
        then answer [] s no_debug_session
        else if not s.running
        then answer [] s (state_reply alloc render [] s)
        else if is_waiting_for_input s
        then answer [] s (step_waiting_json s.vm.regs >>= send_json)
        else (captured c >>= λ acts. session_step s >>= λ t.
            answer acts t (state_reply alloc render (printed alloc render s t) t))

    unfoldable pub handle_debug_continue :
        Option Capture → (body : List ℕ) → Session W → Result (Outcome W)
    unfolding captured
    handle_debug_continue c body s =
        if not s.active
        then answer [] s no_debug_session
        else if not s.running
        then answer [] s (state_reply alloc render [] s)
        else (captured c >>= λ acts.
            continue_loop (parse_breakpoints body 256) max_continue_steps s >>= λ (t, why).
            answer acts t (continue_reply alloc render s t why))

    -- `handle_debug_input`: a line goes into the pipe that stdin is.
    unfoldable pub handle_debug_input : (body : List ℕ) → Session W → Result (List ℕ × Session W)
    handle_debug_input body s =
        if not s.active
        then answered s no_debug_session
        else (json_get_string alloc body (codes "line") >>= λ line.
            answered
              (record s { vm = record s.vm { input = send_line line s.stdin_wr s.vm.input } })
              send_ok)

    -- `handle_debug_memory`
    unfoldable pub handle_debug_memory : Session W → Result (List ℕ × Session W)
    handle_debug_memory s =
        if not s.active
        then answered s no_debug_session
        else if not s.loaded
        then undefined
        else answered s (memory_json s >>= send_json)
