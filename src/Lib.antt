-- ===== src/Lib.antt =====
-- A model of nnd, a debugger for Linux, with proofs about the parts of it that can be separated
-- from the operating system.
--
-- Parts and files:
--   * GdbProto (gdbproto.rs, under src/): the framing of the GDB remote serial protocol. `Decoder`
--     and its states are the record and the data type of that name; `feed` is a fold of `step_in`
--     over the bytes, in `Option`, where `none` is the panic of an index out of range. Packet
--     encoder, `escape` and `unescape` are functions on lists of bytes.
--   * GdbRemote (src/gdb_remote.rs): the client of that protocol, which feeds the decoder of
--     GdbProto with what it reads. `GdbRemote` is the record of that name and each method is a
--     function `M A`, from a client to a result and a client; GdbRemote/Connection.antt has the
--     reads, Waiting.antt the waits and `send_packet`, Commands.antt the methods on top of them,
--     Hex.antt, Text.antt and StopReply.antt the text formats. The other files there have proofs.
--   * ByteIo (src/util.rs): the traits `ByteRead` and `ByteWrite`, on bytes in memory: unsigned
--     numbers, Booleans, slices and texts. A read ends in a value and the rest of the bytes or in an
--     error; the loop of `read_slice` has the length as fuel, as each block has a byte at least.
--   * Pool (src/pool.rs): the object pool behind generational ids, with one function for each
--     method; `PoolId` is the type `Id` of the code. Pool/Run.antt has sequences of calls.
--   * RangeIndex (src/range_index.rs): the index of address ranges; `new` with its sort, the
--     lookup `find` and the lookup of several ranges `find_ranges`.
--   * ValueBlob (src/expr.rs): the bytes of a value, in three words or on the heap. `as_slice` gives
--     the bytes and `write_back` the blob once `as_mut_slice` has been written to.
--   * Interp (src/interp.rs): the language of watch expressions. Interp/Syntax.antt has the syntax
--     trees, Input.antt, Number.antt and Lexer.antt the lexer, Token.antt its tokens, Build.antt,
--     Forms.antt and Parser.antt the parser, Watch.antt the functions on whole expressions. Each
--     step is a function `M S A`, from a state to a result and a state. The other files have proofs.
--   * Registers (src/registers.rs): the names of the registers, which Interp/Watch.antt asks, in
--     Registers.antt; the registers of a frame in Registers/Sets.antt; the vector and mask registers
--     in Registers/Extra.antt; the DWARF numbers in Registers/Dwarf.antt. A register is its number.
--     A failed assertion is `none`, or `panicked` in a `Lookup`, whose `missing` is the `None` of
--     the code.
--   * Disassembly (src/disassembly.rs): the ranges that are disassembled, in `clean_up_ranges`, whose
--     loop writes to the vector in place, and the lookup of a line by its address.
--   * Search (src/search.rs): the fuzzy matcher. `memmem` is the search for a substring as it runs
--     without AVX2; a result of `fuzzy_match` has the score and the ranges that it pushes.
--   * SliceReader (src/dwarf.rs): the reader of DWARF sections, with the masks and shifts of its
--     LEB128 reads; SliceReader/Uleb.antt has the decoder that goes byte by byte.
--   * Breakpoints (src/debugger.rs): breakpoints as they are saved and loaded, through ByteIo, with
--     the functions and binaries of src/symbols.rs and src/procfs.rs that they refer to.
--   * Layout (src/layout.rs): the places that `build_split` gives the children of a split along its
--     axis. The sums are kept as the walls are placed, in place of a vector of them.
--   * Base: tests, lists and bytes that all parts share. Tests: runs and examples.
--
-- Bytes and machine words are natural numbers. Where the code adds on a fixed width the wrap is
-- written out as a remainder, as in a release build, which has no overflow checks. A panic is a
-- value, so that the theorems can exclude it. The loops of GdbProto, Pool and RangeIndex are
-- recursions on the list or the index that they walk.
--
-- The socket of GdbRemote is a script, a list of what comes and one of what each write meets: a
-- read takes the 4096 bytes of its buffer at most and leaves the rest; past the end of the script
-- a read times out and a write succeeds. Setting a time limit of the socket always succeeds, and
-- the deadline of `try_wait_stop` is a number of polls that give nothing. The text of an error
-- message is left out, of an error only its kind is kept. The loops that read have as fuel the
-- bytes and events that the script and the queues still hold, and those that send requests the
-- replies that they may still take, as each round takes one; `read_mem` has the length asked for,
-- as each round adds a byte. It panics for a length of 2^63 or more, the capacity that a vector of
-- bytes cannot have; that memory can run out is left out. Running out of fuel is the result
-- `stuck`.
--
-- The text that Interp reads is a list of code points, of which the ones that were eaten are kept
-- for `uneat`; positions are counted in bytes. `peek` of the lexer has as fuel the characters that
-- are left and one more, as each round eats one, and `parse_expression` the characters and two
-- more, as each of its calls and of the rounds of its loops takes a token. A literal with a
-- fraction or an exponent keeps its digits, as its value is a sum of floating-point numbers. The
-- assertions of debug builds on the span of the root, and the depth of the stack, are left out.
--
-- SliceReader has the memory behind a section as bytes that follow it; a read of bytes that are
-- not there is `none`, and the theorems on LEB128 ask for the ten bytes that the code may look at.
-- The loop of `clean_up_ranges` has the rounds that are left as fuel, and the one of `fuzzy_match`
-- is a recursion on the haystack.
--
-- Not modelled: evaluation of watch expressions (src/interp.rs), the layouts of the registers of a
-- thread (src/registers.rs), the rest of the terminal user interface (ui.rs, imgui.rs, widgets.rs,
-- terminal.rs, layout.rs), the rest of the debugger core around ptrace (debugger.rs, procfs.rs,
-- core_dumper.rs), the searchers (search.rs), the listing of instructions (disassembly.rs), the
-- other parsers of symbols and DWARF (symbols.rs, dwarf.rs, types.rs, unwind.rs) and the other
-- files under src/: they stand on the debuggee, on system calls, on memory mapped files and on
-- third-party crates.
pub mod Base
pub mod Breakpoints
pub mod ByteIo
pub mod Disassembly
pub mod GdbProto
pub mod GdbRemote
pub mod Interp
pub mod Layout
pub mod Pool
pub mod RangeIndex
pub mod Registers
pub mod Search
pub mod SliceReader
pub mod ValueBlob
pub mod Tests
