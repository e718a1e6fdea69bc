-- ===== src/Lib.antt =====
-- hvme: a virtual machine for the Hack VM language. `main.c` and `hvme.c` hand the names of
-- source files to `make_prog` (prog.c), which scans (scan.c) and parses (parse.c) each of them
-- into instructions and a symbol table (st.c), puts a system file with the builtin functions in
-- front, and hands the program to `exec_prog` (exec.c). Messages and the standard output go
-- through msg.c.
--
-- The files of this library, with what they model (paths from the repository's root):
--   Exec       how an instruction ends: `setjmp`, `longjmp` and the error macros of src/exec.c
--   Stack      `Stack`, `new_stack`, `spush`, `spop` of src/prog.c; Stack/Valid, Stack/Contents
--              and Stack/Confined hold its invariant, its contents, and what a function may change
--   Heap       `Heap` and `Memory` of src/prog.c
--   Inst       instructions, src/parse.h
--   Arith      `exec_add` to `exec_gt` of src/exec.c
--   Segments   `exec_pop` and `exec_push` of src/exec.c
--   Table      src/st.c; Table/Insert has the outcomes of `insert_st`, and Table/Map, Table/Refines
--              and Table/Assoc are about the table as a map
--   Jump       `jump_to`, `exec_goto`, `exec_if_goto` of src/exec.c; Jump/Goto is about labels of
--              other files, and Jump/Branch about `if-goto`
--   Call       `exec_call` and `exec_ret` of src/exec.c
--   Builtins   the builtin instructions of src/exec.c, with `getchar`, `scanf("%u")`, `getline`
--   Console    the standard output of src/msg.c
--   Message    the messages and warnings of src/msg.c
--   Program    `File` and `Program` of src/prog.h
--   Machine    `exec_prog` of src/exec.c. Machine/Sound is the invariant of a running program,
--              Machine/Careful what an instruction relies on, Machine/Advanced what it does to the
--              calls under way (Call/Chain, Call/Nested), Machine/Rounds and Machine/Steps the
--              rounds of the loop, Machine/Nesting, Machine/Matched and Machine/Resumed the calls
--              that are open in a run, with the effect of one `call` or `return` in Machine/Crossed
--              and the unchanged parts of files in Machine/Listing and Machine/Listed, and
--              Machine/Straight and Machine/Halts files without jumps
--   Token      tokens, src/scan.h
--   Text       texts of the C code as lists of bytes
--   Scan       the scan functions of src/scan.c; Scan/Block is `scan_blk`, Scan/File is `scan`, and
--              Scan/Keywords is `token_str`. The others are about them: what the functions take of
--              a text (Match, Rest), that the loop ends (Progress), words that are read back (Words,
--              Numbers, Names, Written), comments, keywords, the tokens' fields, regular files, and
--              a text in two blocks (Extend, Found, Whole, Joined, Split) or in all the blocks of a
--              file (Plain, Agree, Pieces)
--   Parse      `parse` and its helpers of src/parse.c; Parse/Print writes instructions as tokens,
--              Parse/Errors has the functions that print errors, and Parse/Slice, Parse/Marked and
--              Parse/Reported are about what their messages show
--   Source     `inst_str` of src/parse.c; Source/Spelled is about the words that it writes, and
--              Source/Readback about scanning and parsing them
--   System     `init_system_file` and the builtin functions of src/prog.c
--   Assembly   `proc_file` and `make_prog` of src/prog.c;
--              Assembly/Wide is about the invariant of the program that is made
--   Entry      `run_hvme` of src/hvme.c, which `main` of src/main.c calls; Entry/Safe puts the
--              assembly and the loop together
--   Tests      runs, and the theorems at concrete inputs
--
-- Every operation has the name of its C function and is a function of the state that the C code
-- reads through its pointers, in the order of its checks. It ends in `ok` with the new state, in
-- `err` with the error and the state that `longjmp` leaves behind, or in `fault` for undefined
-- behaviour (an index out of bounds, a cell that was never written) and for a failed `assert`.
-- The functions that print messages are functions of the streams, apart from the operations that
-- call them. The block sizes that the unit tests change,
-- `STACK_BLOCK_SIZE` and `ST_BLOCK_SIZE`, are arguments, and so is `SCAN_BLOCK_SIZE`. Allocation is
-- taken to succeed. Characters are bytes, and `isspace` and its like are those of the C locale.
-- `open` and `read` are parameters; where a theorem needs it, `RegularFiles` says what is documented
-- of `read` for regular files.
--
-- Numbers are naturals; the wrap-around of `uint16_t`, `uint32_t`, `unsigned int` and `size_t` is
-- written out where the code can reach it. Sizes in memory (`sp`, `len`, `used`) are taken to stay
-- below 2^64. The column that a message shows behind a token is taken to stay below 2^32. `log2`
-- has fuel 64, for the 64 bits of a `size_t`; the digits of a `Word` need four rounds; the loop of
-- `parse` has the number of tokens as fuel, and that of `scan_blk` the number of bytes in the
-- block; the loop of `scan` has its fuel as an argument, for which the number of bytes in a
-- regular file and one more are enough; `exec_prog` has its fuel as an argument, since a program
-- may run forever.
--
-- Not modelled: `cpy_insts`, which nothing calls, the order in which an operation's messages are
-- printed, and what only allocates or frees memory (`new_tokens`, `new_insts`, `del_prog` and the
-- like).
pub mod Prelude
pub mod Text
pub mod Exec
pub mod Stack
pub mod Heap
pub mod Inst
pub mod Console
pub mod Program
pub mod Arith
pub mod Segments
pub mod Token
pub mod Table
pub mod Message
pub mod Jump
pub mod Call
pub mod Builtins
pub mod Machine
pub mod Parse
pub mod System
pub mod Scan
pub mod Source
pub mod Assembly
pub mod Entry
pub mod Tests
