-- ===== src/Server/Pages.antt =====
-- The handlers of src/server.c that keep no session: the files of the page, /source, /save,
-- /assemble, /run and /bytecode.
-- What a process that was run gave, and what files have, are arguments.
use cortex_vm.Prelude.{
  ℕ, ◌+◌, ◌*◌, ltb, ◌==◌, ◌&&◌, not, if◌then◌else◌, Bool, true, false, Option, none, some, get_or,
  List, [], ◌++◌, codes, length, Result, ok, undefined, ◌>>=◌,
}
use cortex_vm.Word.{sub64}
use cortex_vm.Isa.Codes.{header_len}
use cortex_vm.Header.{header_parse}
use cortex_vm.Assembler.Accepted.{word_at}
use cortex_vm.Server.Text.{take, json_escape, json_get_string}
use cortex_vm.Server.Numbers.{parse_regs}
use cortex_vm.Server.Replies.{
  build, decimal_text, ok_status, send_response, send_literal, send_ok, send_json, missing_source,
  error_json, hex_words, quoted,
}
use cortex_vm.Server.Routes.{
  Route, to_index, to_favicon, to_cm_css, to_cm_theme_css, to_cm_js, to_cm_gas_js,
}
use cortex_vm.Server.Session.{skip}

-- The six files that the page consists of, which are generated, with their types.
abbrev pub file_type : Route → Option (List ℕ)
file_type to_index = some (codes "text/html; charset=utf-8")
file_type to_favicon = some (codes "image/png")
file_type to_cm_css = some (codes "text/css")
file_type to_cm_theme_css = some (codes "text/css")
file_type to_cm_js = some (codes "application/javascript")
file_type to_cm_gas_js = some (codes "application/javascript")
file_type r = none

-- `handle_index` and the five handlers behind it.
unfoldable pub handle_file : (content : Route → List ℕ) → Route → Option (Result (List ℕ))
handle_file content r = elim (file_type r) [
  | none ↦ none
  | some ct ↦ some (send_response ok_status ct (content r) (length (content r)))
]

-- A process that has ended: what it wrote, and its exit code.
pub record Ran : Type 0 where
  pub out : List ℕ
  pub err : List ℕ
  pub exit_code : ℕ

-- The end of `run_vm_argv`, with 64 registers that are 0 unless the process dumped them: the
-- registers, whether they were found, and what is left of stderr.
unfoldable pub take_regs : (zeros : List ℕ) → Ran → List ℕ × (Bool × List ℕ)
take_regs zeros r = elim (parse_regs r.err) [
  | none ↦ (zeros, (false, r.err))
  | some (err, regs) ↦ (regs, (true, err))
]

abbrev pub no_source : Result (List ℕ)
no_source = send_literal (codes "{\"source\":null}") 15

module _ (alloc : ℕ → Bool) where
  -- `handle_source`, of the file at `g_source_path` if there are both.
  unfoldable pub handle_source : (file : Option (List ℕ)) → Result (List ℕ)
  handle_source none = no_source
  handle_source (some content) = json_escape alloc content >>= λ esc.
      build (length esc + 16) (codes "{\"source\":\"" ++ esc ++ codes "\"}") >>= send_json

  -- `handle_save`: the reply and what is written to the file.
  unfoldable pub handle_save :
      (path opens : Bool) (body : List ℕ) → Result (List ℕ × Option (List ℕ))
  handle_save path opens body = json_get_string alloc body (codes "source") >>= elim [
    | none ↦ missing_source >>= λ reply. ok (reply, none)
    | some source ↦
        if not path
        then (send_literal (codes "{\"ok\":false,\"no_path\":true}") 27 >>= λ reply.
            ok (reply, none))
        else if not opens
        then (send_literal (codes "{\"ok\":false,\"error\":\"Cannot write file\"}") 40 >>= λ reply.
            ok (reply, none))
        else (send_ok >>= λ reply. ok (reply, some source))
  ]

  -- `handle_assemble`, where `assembled` is what the assembler's process does with a source.
  unfoldable pub handle_assemble : (assembled : List ℕ → Ran) (body : List ℕ) → Result (List ℕ)
  handle_assemble assembled body = json_get_string alloc body (codes "source") >>= elim [
    | none ↦ missing_source
    | some source ↦
        let r = assembled source in
        if r.exit_code == 0
        then send_json (codes "{\"ok\":true}")
        else (error_json alloc r.err >>= send_json)
  ]

  -- The reply of `handle_run` to a program that ran; an exit code is below 256.
  unfoldable pub run_json : (out err regs : List ℕ) (exit_code : ℕ) → Result (List ℕ)
  run_json out err regs exit_code = json_escape alloc out >>= λ esc_out.
      json_escape alloc err >>= λ esc_err. build (64 * 24) (quoted regs) >>= λ regs_str.
      build (length esc_out + length esc_err + length regs_str + 80) (
        codes "{\"ok\":true,\"stdout\":\""
        ++ esc_out
        ++ codes "\",\"stderr\":\""
        ++ esc_err
        ++ codes "\",\"regs\":["
        ++ regs_str
        ++ codes "],\"exit_code\":"
        ++ decimal_text exit_code
        ++ codes "}")

  -- `handle_run`, where `ran` is what the process does with a source and a text on stdin.
  unfoldable pub handle_run :
      (ran : (source stdin : List ℕ) → Ran) (zeros body : List ℕ) → Result (List ℕ)
  handle_run ran zeros body = json_get_string alloc body (codes "source") >>= elim [
    | none ↦ missing_source
    | some source ↦ json_get_string alloc body (codes "stdin") >>= λ stdin_str.
        let r = ran source (get_or stdin_str []) in
        let (regs, (found, err)) = take_regs zeros r in
        if not found && not (r.exit_code == 0)
        then (error_json alloc err >>= send_json)
        else (run_json r.out err regs r.exit_code >>= send_json)
  ]

  -- The reply of `handle_bytecode` to a binary. Without a word nothing is written to the buffer, not
  -- even its '\0'.
  unfoldable pub bytecode_json : (binary : List ℕ) → Result (List ℕ)
  bytecode_json binary =
      let h = header_parse (word_at binary) in
      let entry = sub64 h.offset header_len in
      let data_off = if ltb header_len h.data_offset then sub64 h.data_offset header_len else 0 in
      let words = hex_words (take (sub64 h.file_length header_len) (skip header_len binary)) in
      (if sub64 h.file_length header_len == 0
        then undefined
        else build (sub64 h.file_length header_len * 22 + 4) words)
      >>= λ words_json. build (length words_json + 80) (
          codes "{\"ok\":true,\"entry\":"
          ++ decimal_text entry
          ++ codes ",\"data_offset\":"
          ++ decimal_text data_off
          ++ codes ",\"words\":["
          ++ words_json
          ++ codes "]}")

  -- `handle_bytecode`, where `assembled` gives the words of the binary too.
  unfoldable pub handle_bytecode :
      (assembled : List ℕ → Ran) (binary : Result (List ℕ)) (body : List ℕ) → Result (List ℕ)
  handle_bytecode assembled binary body = json_get_string alloc body (codes "source") >>= elim [
    | none ↦ missing_source
    | some source ↦
        let r = assembled source in
        if not (r.exit_code == 0)
        then (error_json alloc r.err >>= send_json)
        else (binary >>= λ words.
            if ltb (length words) header_len
            then send_literal (codes "{\"ok\":false,\"error\":\"Failed to read binary\"}") 43
            else (bytecode_json words >>= send_json))
  ]
