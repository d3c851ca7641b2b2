-- ===== src/Lib.antt =====
-- A verification library for the programs of this repository of C examples. It covers the CHIP-8
-- emulator (emulator/src/emulator), the parser of the aqls language
-- (parsing-example/aqls-parser/src/aqls-parser), parts of the HTTP server
-- (networking/http-server/src/http-server) and of the SCGI backend (hello-scgi/scgi-backend/src),
-- the hash table (hash-table/main.c) and the deferred calls (defer/defer.c).
--
-- The emulator holds one `struct machine`: 4096 bytes of memory, the processor, the display and
-- two timers. `machine_init` prepares it, `machine_load_rom` copies a program to 0x200, and
-- `machine_run` repeats a round: events, the update of both timers, one step of the processor,
-- rendering. A step fetches a big-endian word, advances the program counter and calls one of 35
-- `exec_` functions, which read and write the memory, the registers, the stack, the display, the
-- timers and the keyboard. `machine_disassemble` prints a program with the disassembler.
--
-- Emulator.Opcode models opcode.c and utils/bits.c, Emulator.Memory memory.c, Emulator.Display the
-- buffer of display.c, Emulator.Timer timer.c, Emulator.Keyboard keyboard.c, Emulator.Disassembler
-- disassembler.c (its lines in Disassembler.Lines), and Emulator.Cpu cpu.c: Flow (program counter,
-- stack, jumps and skips), Alu (register arithmetic), Store (address register and memory), Io
-- (display, keys, timers) and Step (decoding and `cpu_step`). Emulator.Boot models the start, the
-- loading of a program and the main loop of machine.c, Emulator.Listing its `machine_disassemble`.
-- Definitions have the names of the functions of the source. Emulator.Machine holds the state and
-- the effects: an execution takes the machine and returns a value and the new machine (`ok`),
-- stops the program (`stop`, for `exit`, a failed assertion or a fatal log record), or is
-- undefined in C by an access out of bounds (`fault`). Emulator.Machine.Invariant says when a
-- machine is well-formed: arrays of their sizes that hold values of their types. Emulator.Isa is
-- the table of instructions of the comments of cpu.c, by the digits of the opcode, independent of
-- the masks of the code. Emulator.Tests has concrete machines.
--
-- The aqls parser calls the lexer for one token after the other, and the lexer keeps the tokens
-- that are looked at in a ring buffer. TokenQueue models token/queue.c, and TokenQueue.Fifo is
-- about the sequence of tokens that it holds. Aqls.Token models string-view.c and token/token.c,
-- Aqls.Lexer lexer.c, Aqls.Ast ast/ast.c with the list of statements in a heap, and Aqls.Parser
-- parser.c. Below Aqls.Lexer, Match is about the first pattern that matches, Scan about the token
-- that a position of the text holds, Peek about `aqls_lexer_peek_token`, Steps, Read and Next
-- about `aqls_lexer_next_token`, and Agree about both. Below Aqls.Parser, Returns is about calls
-- that exit or return, Ends about the loop over the statements, and Whole about
-- `aqls_parser_parse`. Aqls.Tests runs both on a text.
--
-- Http.Headers models the check of the headers in http.c, as the search of a state machine; Sound
-- and Complete below it are about what it finds. Http.DynamicArray models dynamic-array.h, a
-- growing array of bytes (Memory and Bytes below it), Http.Scanner str.c, scanner.c, http/method.c
-- and `http_method_parse` of http.c (Split below it), and Http.Config config.c (Settings below
-- it). Http.Tests runs them.
--
-- Scgi.Parser models the parser of requests of scgi.c, a state machine over a buffer. Below it,
-- Walk has the walks of the machine as a relation, Ends the cursors and the end of the loop,
-- Request the walk over a request, and Whole the parser from its start to its result. Scgi.Memory
-- models mem.c, an allocator over one buffer and a reader of digits; Scgi.Memory.Parts is about
-- both. Scgi.Connection models `connection_handle` of main.c, which reads the headers and runs the
-- parser, and strutils.c; Scgi.Connection.Serve is about a whole connection. Scgi.Tests runs them.
--
-- The hash table is an array of entries with a capacity and a count; `put` probes from the slot
-- that the FNV-1a hash of the key names, and so does `get`. HashTable models it; HashTable.Probe
-- is about `put`, HashTable.Lookup about `get`, and HashTable.Tests has concrete tables. A call
-- returns a value, fails an assertion, exits, or is undefined in C.
--
-- Defer models the deferred calls of a scope, an array of sixteen items that is run from its end;
-- Defer.Order is about the order of the calls, and Defer.Tests has a concrete scope.
--
-- Prelude has the shared helpers: Boolean tests, arrays, copies, lists, machine words, bits.
-- Prelude.Ended is how a call of the aqls parser, the server or the backend ends: with a value
-- (`done`), by a failed assertion (`aborted`), by `exit` (`exited`), by what C leaves undefined
-- (`undefined`), or by none of these in the fuel that is given (`unfinished`).
--
-- Integers of C are natural numbers with the wrap-around written out. Loops over a range are
-- recursions on the rounds that are left. The loop of `machine_disassemble` takes fuel; 1792
-- rounds, one for each word from 0x200 on, are enough. The main loop is a recursion on the list of
-- what its rounds meet: quitting, the clock and what the instruction reads. The loop of `get`
-- takes fuel; one round is enough where a result about it is stated, since the first slot decides
-- there. The loops of `parse_statements` and `scgi_parser_parse` take fuel; more than there are
-- bytes in the text or the buffer is enough, since every round moves on by a byte or ends.
--
-- The bytes of the ROM file, the clock, the events, the keyboard state and `rand` come from
-- outside and are arguments. So are the matches of the compiled patterns of the lexer (`regexec`),
-- the memory that `realloc` gives, the environment (`getenv`), the numbers that `strtoull` and
-- `strtoul` read, the bytes that arrive at a socket, and whether memory can be allocated.
--
-- Not modelled: the window and the rendering (SDL), the pause that holds the clock speed, logging
-- and the trace on `stderr`, the command line and the configuration of the emulator; the message
-- for an unexpected token of the aqls parser and its reading of files; the sockets and main loops
-- of the HTTP server and of the SCGI backend, which are calls of the operating system; and the
-- small examples of C libraries.
pub mod Prelude
pub mod Emulator
pub mod HashTable
pub mod Defer
pub mod TokenQueue
pub mod Aqls
pub mod Http
pub mod Scgi
