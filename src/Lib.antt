-- ===== src/Lib.antt =====
-- Cortex-VM: a model of the virtual machine, with theorems about it.
--
-- The machine has 64 registers of 64 bits and word-addressed memory in three regions: the code from
-- 0 on, a heap that the guest grows, and a stack. Two interpreters run the same code: `step`, a
-- `switch` over the word at the PC, and `run`, threaded code over records decoded beforehand. Both
-- call the same syscalls, extensions and memory functions. A binary is five words of header and
-- the code; `cortexVMExecBinary` checks it, copies the code, resets the cache of decoded records
-- and calls `run`.
--
-- The assembler turns a source into a binary and the disassembler a binary into a source. `main`
-- chooses among them by its options, or starts the server, which takes requests from a page: it
-- runs `main` in other processes to assemble and to run, and calls `step` itself to debug.
--
-- Files, with the code that each is about:
--   Prelude    shared names; Prelude/Failure the outcomes of C code (a value, `exit` with the number
--              of its message, undefined behaviour, a loop that outlasts its fuel); Prelude/Bits `|`
--   Word       `uint64_t` as ℕ below 2 ^ 64 with wrap-around written out, `int64_t` as an integer
--   Isa        the field macros of src/core.c; Isa/Codes the constants of include/defs.h;
--              Isa/Encode the ENCODE macros of src/assembler.c; Isa/RoundTrip, Isa/Decode both
--   Machine    `struct CortexVM`, the file table and the streams, and the parameters: `Host` for the
--              C library, `Fpu` for the operations on doubles
--   Memory     `setWord` and `loadWord` of src/core.c, src/heap.c; Memory/Heap the heap's syscalls
--   Alu        the arithmetic of `step` and `run`; Alu/Multiply and Alu/Float that of
--              `handleExtensionOpcode`, which is Extension
--   Syscall    `handleSyscall`, one function per syscall, in groups
--   Step       `step`, by instruction format; `step_loop` is the loop over it
--   Decoded    the dispatch table and the decoded records of `run`; Decoded/Cache their cache and
--              the block of memory that they stand in
--   Run        `run`: `run_handler` has the code at each label, `run_from` is the loop
--   Files      src/utils.c
--   Assembler  src/assembler.c: separators and registers; below it Names the instructions' names,
--              Immediate `getImm`, Operands the formats, Data `getData`, Labels `labelListFind`,
--              Program the loop over the source, Assemble the patches and the header. Reads,
--              Numbers, Formats, Lines, Canonical, Reassemble, Listings and RoundTrip are about
--              what the disassembler prints, from a name up to a whole listing; Strings,
--              DataLines, DataRounds and WithData add the data section; Invariant and
--              Accepted about the header, Lookup and Patches about labels
--   Disassembler  src/disassembler.c: Mnemonics the names, Lines and Floats the lines of words,
--              Listing the `switch`, Program `disassemble` with its data section; Append and
--              Ends are about its lines and its loops
--   Links      the nodes and links of src/list.c; Links/Chain and Links/Values the lists that they
--              stand for; Links/Lines its lists of lines and of labels
--   Header     src/header.c
--   Loader     `cortexVMCreate` and `cortexVMExecBinary` of src/cortex-vm.c; Loader/Source
--              `cortexVMExecSource`; both with the old entry points
--   Server     src/server.c. Text, Numbers and Replies its texts: JSON strings, the numbers of a
--              request and of a register dump, and the replies; Session, Start and Requests the
--              debug session; Handles the descriptors that handlers open and close; Interactive
--              the session of a running program; Routes the choice of a handler; Pages the handlers without a session; Receive and Transfer the bytes of a
--              connection, Drain those of two pipes, Cuts their pieces. Escape, Grow, Unescape, Keys,
--              Fields, Breakpoints, RegDump and Fits are about the texts and their buffers,
--              Continue about the loop of `handle_debug_continue`, Balance, Actions, Teardown and
--              Descriptors about pointers and descriptors, Holdings and Idle about what the
--              interactive session has, Dispatch about the routes
--   Command    main.c; Command/AssembleRun with the assembler, its output file and the machine in it
--   Tests      small programs, and the theorems at concrete inputs
--
-- State is passed explicitly: an operation takes a `Vm` and returns a `Result` of one. Whoever
-- reads `vm->regs[i]` in C reads `vm.regs i` here; the register numbers are fields of six bits, so
-- that the array's bounds are no matter. Signed overflow and division by zero are `undefined`.
--
-- Fuel: the interpreters' loops take a number of rounds, since a program need not halt. The threaded
-- loop needs one round more than the portable one for the same run: it meets the sentinel behind
-- the code. The loop of `SYS_PRINT_STR` has one round more than all regions together have words, and
-- each region ends with words that read as 0. All other loops are recursions on a list or a count.
--
-- The loop of `assemble` takes one round for each statement and one for each line end; the theorems
-- about it say how many they need. In the data section a source can keep it going for ever. The
-- loop over the data in `disassemble` has one round more than the section has words.
--
-- `handle_debug_continue` needs no fuel, as it counts its steps itself. Destroying, joining or
-- searching a linked list takes as many rounds as it has nodes, and one more. The loops of the
-- server that read and write go through a list of what the system answers.
--
-- Text is a list of character codes without the '\0' at its end. The assembler is modelled on lists
-- for those of src/list.c, and the pointers of a label into the source are the characters between
-- them. A request of the server is the memory from its first byte on, with the '\0' written out.
--
-- What the system answers to the server is an argument of the handlers: what pipes, forks and processes
-- gave, what `select` said, and which allocations were granted. What a handler does to the system
-- is a list that it returns: descriptors opened and closed, and for the interactive session also
-- processes and files. The process of `run_vm_argv` is not on it, nor are sockets.
--
-- Not modelled: how the server makes sockets, pipes, processes and temporary files; the parsing of
-- options, which cliargs does; messages on stderr, the line counter of the assembler, and
-- flushing. `strtod` and `%.9g` are parameters. The arenas of
-- deps/arena are not in the repository: where an arena's memory lies and what it holds is a
-- parameter of the loader, and whether `malloc` can give so many bytes is another. A `rand` in the
-- left operand is called first.
pub mod Prelude
pub mod Word
pub mod Isa
pub mod Machine
pub mod Memory
pub mod Alu
pub mod Syscall
pub mod Extension
pub mod Step
pub mod Decoded
pub mod Run
pub mod Server
pub mod Links
pub mod Command
pub mod Files
pub mod Assembler
pub mod Disassembler
pub mod Header
pub mod Loader
mod Tests
