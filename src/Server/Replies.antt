-- ===== src/Server/Replies.antt =====
-- The replies of src/server.c: `send_response` and the buffers in which `strcpy` and `strcat`
-- put JSON together. The memory for them is taken to be there, but for `json_escape`'s.
use cortex_vm.Prelude.{
  ℕ, zero, suc, ◌+◌, ◌-◌, ◌*◌, ◌/◌, ◌%◌, ltb, leb, if◌then◌else◌, Bool, true, false, List, [], ◌∷◌,
  ◌++◌, codes, length, Result, ok, undefined, ◌>>=◌,
}
use cortex_vm.Disassembler.Lines.{unsigned_decimal}
use cortex_vm.Server.Text.{take, json_escape}

-- A text that pieces are put together to, in so many bytes with the '\0'.
unfoldable pub build : (size : ℕ) → List ℕ → Result (List ℕ)
build size text = if ltb (length text) size then ok text else undefined

-- "%llu"
abbrev pub decimal_text : ℕ → List ℕ
decimal_text n = unsigned_decimal n []

-- `send_response`: what is written to the connection. A body is a text with its '\0', and `blen`
-- bytes are sent, of which none may lie behind it.
unfoldable pub send_response : (status ct body : List ℕ) (blen : ℕ) → Result (List ℕ)
unfolding take
send_response status ct body blen =
    let header =
      codes "HTTP/1.1 "
      ++ status
      ++ (13 ∷ 10 ∷ [])
      ++ codes "Content-Type: "
      ++ ct
      ++ (13 ∷ 10 ∷ [])
      ++ codes "Content-Length: "
      ++ decimal_text blen
      ++ (13 ∷ 10 ∷ [])
      ++ codes "Connection: close"
      ++ (13 ∷ 10 ∷ 13 ∷ 10 ∷ []) in
    if leb blen (length body + 1) then ok (header ++ take blen (body ++ (0 ∷ []))) else undefined

abbrev pub ok_status : List ℕ
ok_status = codes "200 OK"

abbrev pub json_type : List ℕ
json_type = codes "application/json"

-- `send_response(fd, "200 OK", "application/json", resp, strlen(resp))`
unfoldable pub send_json : List ℕ → Result (List ℕ)
unfolding send_response
send_json resp = send_response ok_status json_type resp (length resp)

-- A body that stands in the source with its length.
unfoldable pub send_literal : (body : List ℕ) (blen : ℕ) → Result (List ℕ)
unfolding send_response
send_literal body blen = send_response ok_status json_type body blen

unfoldable pub send_ok : Result (List ℕ)
unfolding send_literal
send_ok = send_literal (codes "{\"ok\":true}") 11

unfoldable pub missing_source : Result (List ℕ)
unfolding send_literal
missing_source = send_literal (codes "{\"ok\":false,\"error\":\"Missing source\"}") 36

unfoldable pub no_debug_session : Result (List ℕ)
unfolding send_literal
no_debug_session = send_literal (codes "{\"ok\":false,\"error\":\"No active debug session\"}") 46

unfoldable pub no_session : Result (List ℕ)
unfolding send_literal
no_session = send_literal (codes "{\"ok\":false,\"error\":\"No active session\"}") 40

unfoldable pub pipe_failed : Result (List ℕ)
unfolding send_response
pipe_failed =
    send_response (codes "500 Internal Server Error") json_type
      (codes "{\"ok\":false,\"error\":\"pipe failed\"}") 32

-- "\"%llu\"%s" for each register, with a comma behind all but the last.
unfoldable pub quoted : List ℕ → List ℕ
quoted [] = []
quoted (r ∷ []) = b'"' ∷ (decimal_text r ++ (b'"' ∷ []))
quoted (r ∷ s ∷ regs) = b'"' ∷ (decimal_text r ++ (b'"' ∷ b',' ∷ quoted (s ∷ regs)))

-- `regs[i]` to the last register, 63.
unfoldable pub reg_values : (left i : ℕ) (regs : ℕ → ℕ) → List ℕ
reg_values zero i regs = []
reg_values (suc left) i regs = regs i ∷ reg_values left (suc i) regs

unfoldable pub build_regs_json : (regs : ℕ → ℕ) → Result (List ℕ)
unfolding build quoted reg_values
build_regs_json regs = build (64 * 24) (quoted (reg_values 64 0 regs))

-- A digit of `%016llX`.
abbrev pub hex_upper : ℕ → ℕ
hex_upper d = if ltb d 10 then b'0' + d else b'A' + (d - 10)

unfoldable pub hex_digits : (left n : ℕ) → List ℕ → List ℕ
hex_digits zero n rest = rest
hex_digits (suc left) n rest = hex_digits left (n / 16) (hex_upper (n % 16) ∷ rest)

unfoldable pub hex_words : List ℕ → List ℕ
unfolding hex_digits
hex_words [] = []
hex_words (w ∷ []) = b'"' ∷ hex_digits 16 w (b'"' ∷ [])
hex_words (w ∷ v ∷ words) = b'"' ∷ hex_digits 16 w (b'"' ∷ b',' ∷ hex_words (v ∷ words))

-- `words_to_json`
unfoldable pub words_to_json : List ℕ → Result (List ℕ)
unfolding build hex_words
words_to_json [] = ok (codes "[]")
words_to_json (w ∷ words) =
    build (length (w ∷ words) * 22 + 4) ((b'[' ∷ hex_words (w ∷ words)) ++ (b']' ∷ []))

abbrev pub running_piece : Bool → List ℕ
running_piece true = codes "\",\"running\":true,\"regs\":["
running_piece false = codes "\",\"running\":false,\"regs\":["

-- The reply of `handle_debug_step` to a machine that waits.
unfoldable pub step_waiting_json : (regs : ℕ → ℕ) → Result (List ℕ)
step_waiting_json regs = build_regs_json regs >>= λ regs_str. build (length regs_str + 80) (
    codes "{\"ok\":true,\"waiting_for_input\":true,\"running\":true,\"regs\":["
    ++ regs_str
    ++ codes "]}")

module _ (alloc : ℕ → Bool) where
  -- `build_debug_state_json`
  unfoldable pub build_debug_state_json :
      (out : List ℕ) (running : Bool) (regs : ℕ → ℕ) (exit_code : ℕ) → Result (List ℕ)
  build_debug_state_json out running regs exit_code = json_escape alloc out >>= λ esc_out.
      build_regs_json regs >>= λ regs_str. build (length esc_out + length regs_str + 128) (
        codes "{\"ok\":true,\"stdout\":\""
        ++ esc_out
        ++ running_piece running
        ++ regs_str
        ++ codes "],\"exit_code\":"
        ++ decimal_text exit_code
        ++ codes "}")

  -- The reply of `handle_debug_continue` to one.
  unfoldable pub waiting_json : (out : List ℕ) (regs : ℕ → ℕ) → Result (List ℕ)
  waiting_json out regs = json_escape alloc out >>= λ esc_out. build_regs_json regs >>= λ regs_str.
      build (length esc_out + length regs_str + 80) (
        codes "{\"ok\":true,\"waiting_for_input\":true,\"stdout\":\""
        ++ esc_out
        ++ codes "\",\"running\":true,\"regs\":["
        ++ regs_str
        ++ codes "]}")

  -- The reply to a source that was not assembled.
  unfoldable pub error_json : (err : List ℕ) → Result (List ℕ)
  error_json err = json_escape alloc err >>= λ esc.
      build (length esc + 32) (codes "{\"ok\":false,\"error\":\"" ++ esc ++ codes "\"}")
