-- ===== src/Lib.antt =====
-- CanDo: an interpreter in C for a small dynamic language. source/core has locks, the handle
-- table and core values; source/object the objects, arrays and interned strings; source/parser
-- the lexer and the compiler; source/vm the bytecode and the machine that runs it; source/lib the
-- standard library. The compiler emits bytecode into chunks; the machine runs a chunk, keeps
-- objects behind handles, and reads and writes their fields and items through source/object.
--
-- Base has the shared Boolean tests, lists of cells, bit masks and the loop that doubles a
-- capacity, on the native naturals, and texts as bytes (Text).
--
-- Core/Lock models source/core/lock.c: cando_lock_read_acquire, cando_lock_write_acquire and
-- their releases as steps of threads, one atomic access each, with counters that wrap around at
-- 32 bits. The memory is a parameter, Seen: which values a load may return. Sound states the
-- invariant, Steps carries it through the steps, Exclusion along a path, on memory whose loads
-- return the last value; Tests has a path on weaker memory on which a reader and a writer both
-- enter. A read lock is released only by a thread that holds one. Core/Handle models
-- source/core/handle.c: the table of handles with its free list (FreeList), allocation and
-- freeing (Laws), stores and mark bits (Marks).
--
-- Object/Value models CdoValue of source/object/value.h and the effect of cdo_value_copy and
-- cdo_value_release on reference counts. Object/Array models source/object/array.c: the block of
-- cells with its length and capacity, each operation as a function to the next array, a result
-- and the list of references retained and released; Edit, Insert, Remove and Put compare it with
-- edits of a list, Ownership counts the references.
--
-- Object/Fields models the table of source/object/object.c: ptr_hash, obj_lookup, obj_rehash,
-- obj_ensure_capacity, cdo_object_rawget, cdo_object_rawset and cdo_object_rawdelete. Probe shows
-- what linear probing finds, Order describes the insertion-order links, Models relates an object
-- to its list of fields, and Append, Rehash, Capacity, Write, Rawset, Unlink and Rawdelete carry
-- that through the operations. Object/Access models cdo_object_get along the prototype chain,
-- cdo_object_foreach and cdo_object_length.
--
-- Parser/Token models source/parser/token.h and the two tables of source/parser/lexer.c,
-- cando_token_type_name and cando_keyword_type; Keywords says which identifiers are keywords.
-- Parser/Lexer models the rest of lexer.c on a list of bytes: cando_lexer_next with its strings,
-- templates, numbers, comments and operators, and cando_lexer_peek. Scan has the moves of the
-- cursor, Bounds and Next follow a whole token, Names lexes every fixed spelling. A loop of the
-- lexer has one unit of fuel more than the source has bytes, and sources are shorter than 2^32 -
-- 1 bytes.
--
-- Core/Value models the values of scripts, source/core/value.h. Vm/Machine models source/vm/vm.h
-- and vm.c: the state, its arrays as functions with their bounds tested at each access; Act has
-- the accesses of an instruction and the ways it ends, Basics, Arith, Loops, Tries, Calls and
-- Functions the handlers of vm_run and vm_call, Exec the dispatch, the unwinding and runs. A run
-- has a number of instructions as fuel. An instruction that is not modelled, such as OP_CLOSURE
-- or OP_CALL of a native function or a closure object, ends a run, as does a failed assertion or
-- an access outside an array; a new entry past the end of the stack of values, frames, loops or
-- try blocks is an outcome of its own, overrun, and so is a loop without fuel, out_of_fuel.
-- handle_error has one unit of fuel more than there are open try blocks, and vm->try_depth is
-- read again in each round. Bounds carries the limits through every handler, Tries follows an
-- error from OP_THROW to OP_CATCH_BEGIN and through handle_error, Loops a FOR loop and a BREAK.
-- The texts of error messages and the operations on doubles are parameters; what a loop needs of
-- IEEE 754 is the hypothesis IsExact.
--
-- Vm/Opcodes models source/vm/opcodes.h and opcodes.c, Vm/Chunk the code and line table of
-- source/vm/chunk.c and the patching of forward jumps, Vm/Pool its constant pool.
--
-- StdLib/Csv models source/lib/csv.c on lists of bytes: csv_parse_field, csv_parse_row and the
-- rows of csv_parse, csv_write_field and the array rows of csv_stringify; Fields and Rows carry
-- the round trip.
--
-- Machine integers are naturals whose wrap-around at 32 or 64 bits is written out. A pointer is a
-- number, 0 is NULL, and an interned string is its address, so keys are equal exactly if they are
-- the same. Every operation holds its lock throughout and is one step; a failed assertion is
-- none, or an outcome of its own in the machine. Allocation succeeds, and memory that realloc
-- adds is a parameter.
--
-- Loops over a table run on fuel, and a loop that is still running when the fuel is spent returns
-- none. The fuel of a probe or a list walk is the number of slots, and the fuel of a capacity
-- loop is 32, as many doublings as a 32-bit word allows; the theorems show that the operations
-- return within it on tables of at most 2^29 slots, 2^30 handles and 2^30 bytes of code.
--
-- Not modelled: interleavings within the object operations, string interning, classes, functions
-- and thread objects, the compiler, the machine's globals, bitwise operators, objects,
-- metamethods, methods, natives, pipes and threads, and the standard library but for CSV. Files,
-- sockets and other services are outside the model.
pub mod Base
pub mod Core
pub mod Object
pub mod Parser
pub mod StdLib
pub mod Vm
