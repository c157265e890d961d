-- ===== src/Server/Routes.antt =====
-- `serverStart` of src/server.c from a request on: which handler takes it, and in which process.
use cortex_vm.Prelude.{
  ℕ, ◌==◌, ◌&&◌, ◌||◌, not, if◌then◌else◌, Bool, true, false, none, some, List, [], ◌∷◌, codes,
  length,
}
use cortex_vm.Assembler.Immediate.{is_space, skip_while, take_while}
use cortex_vm.Server.Text.{take, starts_with, find}
use cortex_vm.Server.Session.{skip}
use cortex_vm.Server.Fields.{same_text}

-- The handlers, in the order of the tests; the last is the reply 404.
pub data Route : Type 0 where
  to_index to_favicon to_cm_css to_cm_theme_css to_cm_js to_cm_gas_js to_source : Route
  to_save to_assemble to_run to_bytecode : Route
  to_debug_start to_debug_step to_debug_continue to_debug_stop to_debug_input to_debug_memory :
      Route
  to_irun_start to_irun_input to_irun_poll to_irun_stop : Route
  to_not_found : Route

-- A method, a path and the handler for them.
pub record Entry : Type 0 where
  pub method : List ℕ
  pub path : List ℕ
  pub route : Route

abbrev pub entry : List ℕ → List ℕ → Route → Entry
entry m p r = record { method = m; path = p; route = r }

abbrev pub get_method : List ℕ
get_method = codes "GET"

abbrev pub post_method : List ℕ
post_method = codes "POST"

-- The chain of `else if`.
abbrev pub routes : List Entry
routes =
    entry get_method (codes "/") to_index
    ∷ entry get_method (codes "/favicon.png") to_favicon
    ∷ entry get_method (codes "/vendor/codemirror.min.css") to_cm_css
    ∷ entry get_method (codes "/vendor/material-darker.min.css") to_cm_theme_css
    ∷ entry get_method (codes "/vendor/codemirror.min.js") to_cm_js
    ∷ entry get_method (codes "/vendor/gas.js") to_cm_gas_js
    ∷ entry get_method (codes "/source") to_source
    ∷ entry post_method (codes "/save") to_save
    ∷ entry post_method (codes "/assemble") to_assemble
    ∷ entry post_method (codes "/run") to_run
    ∷ entry post_method (codes "/bytecode") to_bytecode
    ∷ entry post_method (codes "/debug/start") to_debug_start
    ∷ entry post_method (codes "/debug/step") to_debug_step
    ∷ entry post_method (codes "/debug/continue") to_debug_continue
    ∷ entry post_method (codes "/debug/stop") to_debug_stop
    ∷ entry post_method (codes "/debug/input") to_debug_input
    ∷ entry get_method (codes "/debug/memory") to_debug_memory
    ∷ entry post_method (codes "/irun/start") to_irun_start
    ∷ entry post_method (codes "/irun/input") to_irun_input
    ∷ entry get_method (codes "/irun/poll") to_irun_poll
    ∷ entry post_method (codes "/irun/stop") to_irun_stop
    ∷ []

unfoldable pub route_in : List Entry → (method path : List ℕ) → Route
route_in [] method path = to_not_found
route_in (e ∷ entries) method path =
    if same_text method e.method && same_text path e.path
    then e.route
    else route_in entries method path

-- `path_is_stateful`
unfoldable pub path_is_stateful : (path : List ℕ) → Bool
unfolding starts_with
path_is_stateful path = elim (starts_with (codes "/irun") path) [
  | some behind ↦ true
  | none ↦ elim (starts_with (codes "/debug") path) [ some behind ↦ true | none ↦ false ]
]

-- The handlers that read or write `g_debug` or `g_irun`.
abbrev pub uses_session : Route → Bool
uses_session to_debug_start = true
uses_session to_debug_step = true
uses_session to_debug_continue = true
uses_session to_debug_stop = true
uses_session to_debug_input = true
uses_session to_debug_memory = true
uses_session to_irun_start = true
uses_session to_irun_input = true
uses_session to_irun_poll = true
uses_session to_irun_stop = true
uses_session _ = false

-- `sscanf(req, "%7s %255s", method, path)`: a word of at most so many characters, and the rest.
unfoldable pub scan_word : (most : ℕ) → List ℕ → List ℕ × List ℕ
unfolding skip_while take_while take skip
scan_word most text =
    let word =
      take most (take_while (λ c. not (is_space c || c == 0)) (skip_while is_space text)) in
    (word, skip (length word) (skip_while is_space text))

-- A request: its method, its path and its body.
pub record Message : Type 0 where
  pub method : List ℕ
  pub path : List ℕ
  pub body : List ℕ

unfoldable pub read_message : (req : List ℕ) → Message
unfolding scan_word find
read_message req =
    let (method, behind) = scan_word 7 req in
    record {
      method = method;
      path = (scan_word 255 behind).0;
      body = elim (find (13 ∷ 10 ∷ 13 ∷ 10 ∷ []) req) [ some body ↦ body | none ↦ [] ];
    }

-- What `fork` returned: the child's side is not followed, since what it does to the sessions stays
-- in the child.
pub data Forked : Type 0 where
  parent failed : Forked

module _ {S : Type 0} (handler : Route → (body : List ℕ) → S → S) where
  -- What a handler does to the sessions; the ones without a session have none in hand.
  abbrev pub handled : Route → (body : List ℕ) → S → S
  handled r body s = if uses_session r then handler r body s else s

  -- The sessions of the server behind a request: a stateless one goes to a child, if there is one.
  unfoldable pub serve_message : Forked → Message → S → S
  unfolding route_in path_is_stateful
  serve_message forked m s =
      let r = route_in routes m.method m.path in
      if path_is_stateful m.path
      then handled r m.body s
      else elim forked [ parent ↦ s | failed ↦ handled r m.body s ]
