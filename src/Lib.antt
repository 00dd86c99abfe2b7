-- ===== src/Lib.antt =====
-- A model of parts of Lua 5.1.5 (lua-5.1.5/src): the format of instructions, the numbers of
-- lobject.c, the buffered streams, the dump and the load of precompiled functions, pattern matching,
-- the functions on whole strings, the code generator, the upvalues, the verifier of precompiled
-- code, table.sort, and the length and the sizes of tables.
--
-- Opcodes, with Opcodes/Table, is lopcodes.h and lopcodes.c. An `Instruction` is a number below
-- 2 ^ 32; every macro is a function with the wrap-around of its shifts and complements written out.
-- `view` of Opcodes/View is the abstract picture of a word, the record of its four fields.
--
-- Object is luaO_int2fb, luaO_fb2int, luaO_log2, ceillog2 and luaO_chunkid of lobject.c. The loops
-- of the first and the third run on fuel: thirty rounds halve a number up to 2 ^ 30 until it is below 16, and
-- four rounds of eight bits shift a 32-bit number below 256. A shift that does not fit an int has no value.
--
-- Zio is lzio.c and lzio.h. The lua_Reader of the caller is a parameter. The block in memory is the
-- list of the bytes from the current position on, beside the count `n` that the source keeps; an
-- access past the block is a fault of the model. luaZ_read runs on one round for each byte asked
-- for, since each round stores at least one. `Delivers` of Zio/Stream is the contract of a stream: the bytes
-- still to come, whatever the blocks are.
--
-- Chunk is the precompiled chunk. Chunk/Proto holds the part of Proto (lobject.h) that is saved;
-- Chunk/Bytes and Chunk/Header the layout of words and luaU_header, for a little-endian machine with
-- 4-byte int and Instruction, 8-byte size_t and lua_Number. Chunk/Dump is ldump.c over the lua_Writer
-- of the caller; Chunk/Undump is lundump.c over Zio, with its errors as values. Chunk/Format
-- describes the bytes of a chunk without any state, and Chunk/Blocks, Chunk/Writes, Chunk/Failure,
-- Chunk/Loads and Chunk/RoundTrip relate both programs to it. From a count below 65535, luaU_undump
-- nests at most 201 calls of LoadFunction (Chunk/Nesting), since L->nCcalls, an unsigned short, is
-- checked against LUAI_MAXCCALLS before anything is read. luaG_checkcode (ldebug.c)
-- is a parameter, which Verifier/Loading fills. Memory errors are not modelled.
--
-- Pattern is the matcher of lstrlib.c: Pattern/State its state and outcomes, Pattern/Items the
-- character classes and sets, Pattern/Engine the function match and its helpers. A pointer is an
-- index, and the byte at the end of subject and pattern is 0. The calls of match among its helpers go
-- through a parameter `rec`, which match_rounds ties with a count of rounds; every call goes on behind
-- the current item, so one round more than the pattern has bytes is enough. The functions of
-- ctype.h are a parameter. Pattern/Search is the search of str_find_aux, lmemfind and the captures that
-- are pushed; the loops there run on one round for each place of the subject. `first_at` of
-- Pattern/Plain is the search for a plain string that tries every place. Pattern/Captures says where the
-- captures of a state lie, and what is undone on failure.
--
-- Strings is the functions of lstrlib.c on whole strings; a read outside of one is a fault of the model.
--
-- Jumps is the lists of jumps of lcode.c, threaded through the code of a function. A walk along a
-- list takes one round more than the code has instructions: a list that ends has no more elements
-- than that (length-bound of Jumps/Chains), and on one that does not end the source does not return.
-- `ListOf` of Jumps/Chains is the abstract picture of a list, the places that its links lead through.
--
-- Code is the whole of lcode.c over FuncState and expdesc of lparser.h, as operations of a state
-- monad (Code/State). A syntax error is a value, and so is an assertion (lua_assert) that does not
-- hold. Code/Emit holds instructions, jumps and registers, Code/Constants the constants, Code/Discharge
-- the expressions brought into registers, Code/Branches assignments and conditions, Code/Operators the
-- operators with constant folding. The arrays of the prototype are lists that grow up to MAX_INT
-- instructions and MAXARG_Bx constants; the table fs->h is an association list; the arithmetic of
-- lua_Number is a parameter on 64-bit patterns. `IsValid` of Code/Valid is the invariant, Code/Reachable
-- the steps that the parser takes with these operations.
--
-- Upvalues is the list of open upvalues of lfunc.c, luaF_findupval and luaF_close. An upvalue is named by
-- its address. Upvalues/Search is about the search in the list, Upvalues/Others about the list without the upvalue of
-- one place; `upval_value` of
-- Upvalues/Closing is the value of an upvalue, from the stack or its own. The mark of the collector is
-- the bit that isdead reads.
--
-- Verifier is the symbolic execution of ldebug.c: precheck, checkArgMode, symbexec and luaG_checkcode. The
-- loop runs on as many rounds as there are places to check, and has no result when they run out. Verifier/Walk
-- and Verifier/Parity are the places that it visits; Verifier/Machine and Verifier/Operands hold where
-- luaV_execute (lvm.c) goes on after each instruction, and what it names there; Verifier/Arguments is about
-- the arguments of one instruction. What they leave open: the
-- values in the registers, the calls, and the ranges that end at L->top.
--
-- Sorting is the quicksort of ltablib.c. A table is a function of the index, without the bound of int; the
-- order is a parameter that may fail. Sorting/Scans, Sorting/Partition and Sorting/Pieces are about
-- the loops and steps of auxsort, Sorting/Shuffle about what a swap does to a part of a table. The loops run
-- on rounds: each scan on one for each place up to the end, auxsort on one for each element.
--
-- Tables is luaH_getn and computesizes of ltable.c. A table is its array part and its nodes,
-- as luaH_getnum reads them; the comparison of numbers and the conversion of an int are parameters.
-- luaH_getn takes a number of rounds for its linear search, and any absent key up to that number makes
-- them enough; the loop of computesizes runs at most 28 times for MAXASIZE keys.
--
-- Not modelled: the lexer and the parser, the values of the virtual machine, the rest of tables, the
-- collector, the calls and the C interface, the rest of the table library, and the other libraries.
--
-- Base holds the numbers, lists and bit operations that the parts share; Tests applies the theorems
-- to concrete inputs.
pub mod Base
pub mod Opcodes
pub mod Object
pub mod Zio
pub mod Chunk
pub mod Pattern
pub mod Strings
pub mod Jumps
pub mod Code
pub mod Upvalues
pub mod Verifier
pub mod Sorting
pub mod Tables
pub mod Tests
