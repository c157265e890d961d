-- ===== src/Command.antt =====
-- `main` of main.c: what the options ask for, in the order in which it is done. The options are
-- those that cliargs has parsed; reading files, the assembler, the disassembler, the machine and
-- the server are taken as a whole.
pub mod AssembleRun
use cortex_vm.Prelude.{
  ℕ, zero, suc, ◌||◌, not, if◌then◌else◌, Bool, true, false, Option, none, some, List, [], length,
  Result, ok, ◌>>=◌,
}
use cortex_vm.Word.{low_bits}
use cortex_vm.Header.{header_parse, header_validate}
use cortex_vm.Assembler.Accepted.{word_at}
use cortex_vm.Server.RegDump.{dump_regs}

abbrev pub Text : Type 0
Text = List ℕ

-- A flag, and the argument that can stand with it.
pub record Flag : Type 0 where
  pub given : Bool
  pub argument : Option Text

pub record Options : Type 0 where
  pub valid : Bool
  pub visual : Flag
  pub assemble_flag : Flag
  pub disassemble_flag : Flag
  pub run_after : Bool
  pub no_output : Bool
  pub dump : Bool
  pub output : Option Text
  pub subcommand : Option Text

-- The parts that `main` calls. `exec_words` makes a machine, on which the
-- binary runs, and gives the exit code and the registers.
pub record Parts : Type 0 where
  pub port_free : ℕ → Bool
  pub read_source : Option Text → Result (List ℕ)
  pub read_words : Option Text → Result (List ℕ)
  pub assemble_text : List ℕ → (output : Option Text) → (no_output : Bool) → Result (List ℕ)
  pub disassemble_words : List ℕ → (output : Option Text) → (no_output : Bool) → Result (List ℕ)
  pub exec_words : List ℕ → (file_size : ℕ) → Result (ℕ × List ℕ)

-- How the process ends: with an exit code, with the one of a program and what is dumped behind it,
-- or not before the server is stopped.
pub data Ending : Type 0 where
  exited : ℕ → Ending
  ran : (code : ℕ) (dumped : Option (List ℕ)) → Ending
  served : (port : ℕ) (path : Option Text) → Ending

-- `serverFindPort`: the first free port from `p` on, of `left` ports.
unfoldable pub find_port : (port_free : ℕ → Bool) (left p : ℕ) → Option ℕ
find_port port_free zero p = none
find_port port_free (suc left) p =
    let higher = find_port port_free left (suc p) in if port_free p then some p else higher

-- `if(path == NULL) path = ...;`
abbrev pub or_else : Option Text → Option Text → Option Text
or_else none other = other
or_else (some path) other = some path

abbrev pub asked : Flag → Bool
asked f = f.given || elim f.argument [ none ↦ false | some path ↦ true ]

-- The path and the code buffer, if there is one yet; or the process is at its end.
pub data Stage : Type 0 where
  ended : Ending → Stage
  goes_on : (path : Option Text) (buff : Option (List ℕ)) → Stage

module _ (o : Options) (parts : Parts) where
  -- `if(cliargsFlag("assemble", 'a') || ...)`
  unfoldable pub assemble_stage : Result Stage
  assemble_stage =
      if asked o.assemble_flag
      then (let path = or_else o.assemble_flag.argument o.subcommand in
          parts.read_source path >>= λ sbuff.
          parts.assemble_text sbuff o.output o.no_output >>= λ buff.
          ok (if o.run_after then goes_on path (some buff) else ended (exited 0)))
      else ok (goes_on none none)

  unfoldable pub disassemble_stage : (path : Option Text) (buff : Option (List ℕ)) → Result Stage
  disassemble_stage path buff =
      if asked o.disassemble_flag
      then (let path' = or_else path (or_else o.disassemble_flag.argument o.subcommand) in
          parts.read_words path' >>= λ words.
          parts.disassemble_words words o.output o.no_output >>= λ sbuff.
          ok (if o.run_after then goes_on path' (some words) else ended (exited 0)))
      else ok (goes_on path buff)

  -- The header is checked, the binary runs, and its registers are dumped. The exit code of a process
  -- has eight bits.
  unfoldable pub execute_binary : List ℕ → (file_size : ℕ) → Result Ending
  execute_binary buff file_size = header_validate file_size (header_parse (word_at buff)) >>= λ h.
      parts.exec_words buff file_size >>= λ (code, regs).
      ok (ran (low_bits code 8) (if o.dump then some (dump_regs regs) else none))

  -- The default execution. A buffer that is there already says its size itself.
  unfoldable pub execute_stage : (path : Option Text) (buff : Option (List ℕ)) → Result Ending
  unfolding execute_binary
  execute_stage path buff = elim (or_else path o.subcommand) [
    | none ↦ ok (exited 1)
    | some found ↦ elim buff [
      | some words ↦ execute_binary words (word_at words 1)
      | none ↦ parts.read_words (some found) >>= λ words. execute_binary words (length words)
    ]
  ]

  unfoldable pub serve_visual : Ending
  unfolding find_port
  serve_visual = elim (find_port parts.port_free 57759 7777) [
    | none ↦ exited 1
    | some port ↦ served port (or_else o.visual.argument o.subcommand)
  ]

  unfoldable pub main : Result Ending
  unfolding assemble_stage disassemble_stage execute_stage serve_visual
  main =
      if not o.valid
      then ok (exited 1)
      else if asked o.visual
      then ok serve_visual
      else (assemble_stage >>= elim [
        | ended e ↦ ok e
        | goes_on path buff ↦
            disassemble_stage path buff
            >>= elim [ ended e ↦ ok e | goes_on path' buff' ↦ execute_stage path' buff' ]
      ])
