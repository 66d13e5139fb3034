-- ===== src/Lib.antt =====
-- The W# compiler and runtime: the lexer, the core of type inference, the layout of values, the header
-- of heap objects, the lines of the heap, the marker, copies of object graphs and the message broker.
--
-- The compiler parses a program (crates/wsharp-syntax), infers its types and instantiates its generic
-- functions (crates/wsharp-sema), and emits machine code (crates/wsharp-codegen) that is linked with a
-- runtime (crates/wsharp-runtime): a heap of objects with a counting and copying collector, workers
-- with a heap each, calls between them, and a broker of messages. Inference and code generation meet
-- in the layout of values, code generation and the collector in the object header.
--
--   Prelude           shared names; Tests has the Boolean tests on numbers, Lists lists that are
--                     measured and indexed by them, Text texts as bytes, Run the outcome of code that
--                     may panic, Int the signed integers of the runtime's boundary
--   Syntax.Token      crates/wsharp-syntax/src/token.rs and span.rs: `TokenKind`, `text`, `keyword`,
--                     `Span`. Keywords compares the two tables
--   Syntax.Lexer      crates/wsharp-syntax/src/lexer.rs: `lex_at`, `scan`, `next_token`, `skip_trivia`.
--                     State has the position, `bump` and slices, Number has `number`, Text `string` and
--                     `ident`. Place says how a state stands in its source, Total what runs do over a
--                     whole source, RoundTrip what is read in a text of words and operators
--   Sema.Ty           crates/wsharp-sema/src/ty.rs: `Type`, `TyCon`, `IntTy`; substitution in types
--   Sema.Store        ty.rs: `TypeStore`, its slots, levels and trail. A function that may write is an
--                     M action: it takes the store and returns its value and the new store, a panic
--                     (an index out of range) or the end of its fuel. Trail has what a roll back undoes
--   Sema.Unify        ty.rs: `resolve`, `occurs_and_adjust`, `bind`, `unify`, `try_unify_checked`,
--                     with path compression and levels as they are. Meaning has what a store says of
--                     a type: `deep` follows every variable to the end. Resolve, Occurs, Bind,
--                     Arguments, Correct, Attempt and Undo have the theorems on the functions, and
--                     Outcome what a run of `unify` promises
--   Sema.Schemes      ty.rs: `resolve_deep`, `subst_vars`, `generalize`, `instantiate`. Replace, Collect
--                     and Instantiate have the theorems
--   Sema.ErrorSets    ty.rs: `err_set`, `err_set_members`, `as_err_set`. Canonical has the key of a set,
--                     Interned the map from keys to sets
--   Sema.Structs      ty.rs: `declare_struct`, `set_struct_parent`, `clear_struct_parent`, `is_subtype`,
--                     whose loop takes fuel for its rounds. Chains has the theorems
--   Sema.Ints         ty.rs: `range`, `contains` (`contains_int`) and `mask` of `IntTy`. Mask has the
--                     theorem
--   Sema.Layout       crates/wsharp-sema/src/layout.rs, on resolved types. Slots has sizes and
--                     pointers of a value, Place the placing of fields
--   Codegen.Repr      crates/wsharp-codegen/src/repr.rs: the machine values of a value. Agree compares
--                     them with the layout
--   Runtime.Heap      crates/wsharp-runtime/src/heap.rs: `SpaceMeta`, the counts of objects on lines
--                     and of lines in blocks, `find_hole`, `close_block`. Lines has what the counts
--                     mean, Lines.Calls its proof for every sequence of calls, Lines.Crowd how many objects
--                     a line has, Holes and Apart what a hole is, Placed an object in a hole, Fresh a space
--                     with no object, Closed the states of blocks, Evacuation the blocks that a trace empties (Sparse which they are)
--   Runtime.Types     crates/wsharp-runtime/src/types.rs: the registry of layouts and the table that is
--                     published from it, sizes of objects and their pointers. Published compares the
--                     two, Visits has the offsets that the collector is told of
--   Runtime.Transfer  crates/wsharp-runtime/src/transfer.rs: `encode`, and what `decode` does between its
--                     allocations: `fill_object` is the first pass over one object that was allocated,
--                     `link_all` the second pass. The memory is a list of addresses and objects. Bytes has
--                     words in bytes, Slots the loops over pointers, Interned and Codes the table of what was
--                     seen, Sent and Encode one object of a message, Rounds the walk, Make the new objects,
--                     Link and Decode their pointers, Twins and RoundTrip a graph and its copy
--   Runtime.Mark      crates/wsharp-runtime/src/mark.rs: `mark_all`, the marker's loop, on a heap that nothing writes
--                     to. Fields has the pointers of an object, Cells what marking keeps, Reached what a chain of
--                     pointers leads to, Rounds and Visit one object, Traced the whole trace
--   Runtime.Trace     mark.rs: the phases of a trace, as the steps of the program's thread and of the collector's.
--                     Runs has the stages, Steps what holds after any steps
--   Runtime.Shared    crates/wsharp-runtime/src/worker.rs: `set_shared`, the flag bytes that all workers raise. Flags has
--                     the theorem
--   Runtime.Memory    addresses and objects, as lists of keys and values, for Transfer and Mark
--   Runtime.Header    crates/wsharp-runtime/src/header.rs: the meta word of an object, its type id,
--                     flags, count and forwarding. Fields, Counts and Marks have the theorems
--   Runtime.Broker    crates/wsharp-runtime/src/broker.rs: topics, partitions, groups and consumers.
--                     Safety has the invariant of the tables, Steps its proof for every sequence of
--                     calls, Logs and Delivery what is stored and read
--
-- Bounds and fuel. Numbers are natural numbers. The sums and products of a `u32` in the layout, and
-- the product of the hash, keep their wrap-around. A meta word is a number below 2^64, its masks are
-- quotients and remainders. The functions on types that follow variables take fuel for the depth of
-- their calls. For a store that gives the types a meaning there is always enough: the meaning's
-- height bounds `resolve`, the occurs check and the walks of schemes, and the number of unbound
-- variables and the size of the types bound `unify`. A type with no meaning, that reaches itself
-- through a bound variable, is excluded by the hypothesis that `deep` answers.
--
-- Concurrency. The broker runs each call under one lock, so that a run is a sequence of calls. An
-- update of the meta word is atomic (an exchange in a loop), so that the accesses of several threads
-- are a sequence of updates.
-- A pause of a trace runs while the collector's thread waits for it, on the program's thread or, for a parked program, on
-- the collector's: it is one step. A wait of the program's thread is the collector's steps until the phase is there.
--
-- The lexer reads bytes. A slice of the source that would cut a character is a panic. Each of its
-- loops takes a round for each byte that is left, and one more. The parser of floats is a parameter.
--
-- The counts of the heap keep their wrap-around, 2^8 on a line and 2^16 in a block. `find_hole` takes a
-- round for each line of a block, and one more: a round passes a line at least.
--
-- The walk of `encode` takes a round for each object of the memory, and one more: an address is queued once, and
-- names an object. `ws_resolve` is a parameter there. The second pass of `decode` allocates nothing, so it runs on a
-- memory that nothing else changes; the theorem on it takes any memory that has the filled objects at the addresses
-- that the first pass noted. Whether a collection in between, at an allocation of the first pass, leaves them there
-- is the matter of pinning, which is not modelled.
--
-- A topic of the broker with more partitions than `isize::MAX` bytes hold is a panic, as `collect` has it; the end
-- of the machine's memory before that is no part of the model.
-- The loop of `mark_all` takes a round for each entry of the work list and for each pointer of an object that is not
-- marked, and one more: a visit pops an entry, and pushes only for an object that it marks.
--
-- Left out: the parser; the walk of inference over the syntax; the names of errors and
-- services, printing, and subtyping of whole types; monomorphisation; the emission of code; the
-- allocator over the spaces of the heap, the counting collector, marking while the program writes, evacuation, the
-- allocations of `decode` with their pinning and so `ws_transfer_roundtrip`, the log of the write barrier, the workers; the operating system. The broker stores messages without looking into them.
pub mod Prelude
pub mod Sema
pub mod Syntax
pub mod Codegen
pub mod Runtime
