-- ===== src/Command/AssembleRun.antt =====
-- `cortex -ar` of main.c, with the assembler and the machine in it.
use cortex_vm.Prelude.{
  ℕ, suc, ◌-◌, ◌^◌, ◌≤◌, ◌<◌, ◌≡◌, ◌≢◌, refl, if◌then◌else◌, Bool, true, false, Option, none, some,
  List, codes, length, Result, ok, ◌>>=◌, Ensures-ok, arith,
}
use cortex_vm.Word.{low_bits}
use cortex_vm.Machine.{Vm, Host, Fpu}
use cortex_vm.Header.{header_parse}
use cortex_vm.Header.Accepted.{IsBinary, validate-parse}
use cortex_vm.Files.{write_file_words}
use cortex_vm.Step.{step_loop}
use cortex_vm.Run.Bounds.{IsCalm}
use cortex_vm.Run.Loop.{SameButPc}
use cortex_vm.Decoded.Cache.{Cache, IsRoomy}
use cortex_vm.Loader.{Area, cortex_vm_create, load_vm, exec_binary}
use cortex_vm.Loader.Outcome.{exec_binary-refines-step_loop}
use cortex_vm.Assembler.Immediate.{FloatText}
use cortex_vm.Assembler.Assemble.{assemble}
use cortex_vm.Assembler.Accepted.{word_at, assemble-IsImage}
use cortex_vm.Server.Replies.{reg_values}
use cortex_vm.Server.RegDump.{dump_regs}
use cortex_vm.Command.{
  Text, Flag, Options, Parts, Ending, ran, or_else, main, assemble_stage, disassemble_stage,
  execute_stage, execute_binary,
}

abbrev no_flag : Flag
no_flag = record { given = false; argument = none }

-- The options of `cortex -ar path`, or `-arD`, with which the debug server runs a source.
abbrev pub run_options : (path : Text) (dump : Bool) → Options
run_options path dump = record {
  valid = true;
  visual = no_flag;
  assemble_flag = record { given = false; argument = some path };
  disassemble_flag = no_flag;
  run_after = true;
  no_output = false;
  dump = dump;
  output = none;
  subcommand = none;
}

-- What `assemble` does with its words at its end: `a.out`, if no other path is given, is written.
abbrev pub output_words :
    (opened written : Option Text → Bool) (output : Option Text) (no_output : Bool)
    → List ℕ
    → Result (List ℕ)
output_words opened written output no_output words =
    let path = or_else output (some (codes "a.out")) in
    if no_output
    then ok words
    else write_file_words (opened path) (written path) words >>= λ file. ok words

module _ {W : Type 0} (host : Host W) (fpu : Fpu) (text : FloatText) (malloc : ℕ → Bool)
    (stack area : Area) (assemble_fuel fuel : ℕ) (cache : Cache) (process : Vm W)
    (opened written : Option Text → Bool) where
  -- The assembler and the machine in their places, and files of any contents. `opened` and `written`
  -- tell whether a file can be opened and written.
  abbrev pub machine_parts :
      (port_free : ℕ → Bool) (read_source read_words : Option Text → Result (List ℕ))
      (disassembled : List ℕ → Option Text → Bool → Result (List ℕ))
      → Parts
  machine_parts port_free read_source read_words disassembled = record {
    port_free = port_free;
    read_source = read_source;
    read_words = read_words;
    assemble_text = λ source output no_output.
        assemble fpu text assemble_fuel source >>= output_words opened written output no_output;
    disassemble_words = disassembled;
    exec_words = λ buff size.
        exec_binary host fpu malloc area fuel (word_at buff) size cache
          (cortex_vm_create stack process)
        >>= λ (code, (cache', vm')). ok (code, reg_values 64 0 vm'.regs);
  }

  -- The process ends with the low eight bits of the machine's exit code, and with the dump of a
  -- machine that is the same but for r0 and r1.
  abbrev pub RanAs : (dump : Bool) → Vm W → Result Ending → Type 0
  RanAs dump final r =
      (vm' : Vm W) × (r
        ≡ ok (
            ran (low_bits final.exit_code 8)
              (if dump then some (dump_regs (reg_values 64 0 vm'.regs)) else none)))
      × SameButPc final vm'

-- Let the source be read and assembled to fewer than 2 ^ 59 words that are calm behind the header,
-- with the entry point in the code, let `a.out` be opened and written, and let the cache and the
-- memory be as `cortexVMExecBinary` needs them. If `while(step(...))` on the loaded machine ends
-- within a number of rounds, then `cortex -ar`, with one more round of fuel, ends with the low
-- eight bits of the same exit code, and with `-D` dumps the 64 registers of a machine that is the
-- same but for r0 and r1.
pub main-refines-step_loop :
    {W : Type 0} (host : Host W) (fpu : Fpu) (text : FloatText) (malloc : ℕ → Bool)
    (stack area : Area) (assemble_fuel fuel : ℕ) (cache : Cache) (process final : Vm W)
    (opened written : Option Text → Bool) (port_free : ℕ → Bool)
    (read_source read_words : Option Text → Result (List ℕ))
    (disassembled : List ℕ → Option Text → Bool → Result (List ℕ)) (path source buff : List ℕ)
    (dump : Bool)
    → read_source (some path) ≡ ok source
    → assemble fpu text assemble_fuel source ≡ ok buff
    → opened (some (codes "a.out")) ≡ true
    → written (some (codes "a.out")) ≡ true
    → ((n : ℕ) → malloc n ≡ true)
    → IsRoomy cache
    → area.address ≢ 0
    → length buff < 2 ^ 59
    → word_at buff 2 < length buff
    → ((i : ℕ) → 5 ≤ i → i < length buff → IsCalm (word_at buff i))
    → step_loop host fpu
        (length buff - 5)
        (word_at buff 3)
        fuel
        (load_vm (header_parse (word_at buff)) (word_at buff) area (cortex_vm_create stack process))
      ≡ ok final
    → RanAs host fpu text malloc stack area assemble_fuel
        (suc fuel)
        cache
        process
        opened
        written
        dump
        final
        (main (run_options path dump) (
          machine_parts host fpu text malloc stack area assemble_fuel
            (suc fuel)
            cache
            process
            opened
            written
            port_free
            read_source
            read_words
            disassembled))
unfolding main assemble_stage disassemble_stage execute_stage execute_binary write_file_words
main-refines-step_loop host fpu text malloc stack area assemble_fuel fuel cache process final opened
      written port_free read_source read_words disassembled path source buff dump read assembled
      opens writes plenty roomy some_area small entry calm stepped =
    let image =
      Ensures-ok (λ words. IsBinary (length words) (word_at words))
        (assemble fpu text assemble_fuel source) buff
        (assemble-IsImage fpu text assemble_fuel source) assembled in
    let (cache', vm', e, same, roomy') =
      exec_binary-refines-step_loop host fpu malloc area (word_at buff) (length buff) cache
        (cortex_vm_create stack process) fuel final plenty roomy some_area image small entry calm
        stepped in
    let cut : low_bits (low_bits final.exit_code 32) 8 ≡ low_bits final.exit_code 8 = omega arith in
    (
      vm',
      rw
          (
            read,
            assembled,
            opens,
            writes,
            image.length_word,
            validate-parse (length buff) (word_at buff) image,
            e,
            cut,
          )
          refl,
      same,
    )
