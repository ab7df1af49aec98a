-- ===== src/Lib.antt =====
-- Interpol: the library that records the MPI calls of a program and writes them out as JSON traces.
-- Its back end is in Rust (interpol-rs/), its MPI functions in C (src/).
--
-- The program. A C layer (src/interpol-c.c, src/interpol-f.c) interposes the MPI functions. For
-- each call it fills a struct `MpiCall` and gives it to `register_mpi_call`; `dispatch` picks one
-- of fifteen functions `register_*` by the kind of the call; each of these builds an event with a
-- generated builder, takes the lock on the static vector `EVENTS` and appends the event with
-- `Register::register`. `MPI_Finalize` also serialises the vector to the rank's own file in
-- `interpol-tmp`. Then rank 0 calls `sort_all_traces`, which reads the files of all ranks, sorts
-- the events by time stamp and writes `interpol-tmp/interpol_traces.json`.
--
-- The files, with the code that they model:
--   Types, Types.Repr: interpol-rs/src/types.rs, and the numbers of the two `repr(i8)`
--     enumerations. An `f64` is its 64 bits; of it only `is_finite` is looked at.
--   Error: interpol-rs/src/lib.rs, the errors and how they are printed.
--   MpiEvents.*: interpol-rs/src/mpi_events/, each struct with its constructor `new`.
--   Event: the trait `Register` of interpol-rs/src/interpol.rs: a `Box<dyn Register>` is one of the
--     fifteen structs.
--   Builder, Builder.Chain: the interface of the crate `derive_builder`: a generated builder keeps
--     the last value of each setter, and `build` gives the struct if every field was set.
--   Vector: `Register::register` on the vector with its capacity; the allocator's answers are an
--     argument. Vector.Growth says how a registration may end, Vector.Generous and
--     Vector.Reallocation what an allocator that refuses nothing makes of it.
--   Machine: the state (`EVENTS`, whether its mutex is poisoned, the directory, the two streams)
--     and how a function ends: a value, an `Err`, a panic, or an abort of the process.
--   Files: the calls of `std::fs` and `write!` on the directory of the traces; which of them fail
--     is an argument, and a write may fail after some bytes.
--   Json: the interface of `serde_json` and `typetag`: a text that was written is read back, but
--     for times that are no finite numbers, which JSON cannot hold, and with the other times as the
--     number parser gives them back. Json.Format is the compact text that they are documented to
--     write; Json.Reader reads it, independently of the program, to say what a text tells.
--     Json.Structs is the interface of `serde_json` on single structs.
--   Register.*: the fifteen functions `register_*`; Serialize: `serialize`; Dispatch: `MpiCall` and
--     `dispatch`, with the event of each call in Dispatch.Record; Call: `register_mpi_call`.
--   Call.Outcome, Call.Recording, Call.Finalize: one call; Call.Run, Call.Log: a process that makes
--     one call after the other.
--   Aggregate: `sort_all_traces`, `deserialize_all_traces` and `write_all_traces`, with the crate
--     `rayon` as a parameter that sorts. Aggregate.Listing says what a readable directory holds;
--     Aggregate.Passes and Aggregate.Stops tell the entries that the loop gets past from those
--     where it stops. Aggregate.Sorted, Aggregate.Endings and Aggregate.Faults follow the ways in
--     which a merge ends; Aggregate.Unique is about the order of events with different time stamps.
--   System: the ranks of one program. Each runs in its own memory; they share the directory, and
--     finalize one after the other. System.Contents looks at single files, System.Files at the
--     listing, System.Merge at the merge of rank 0.
--   System.Barrier: the finalizes of all ranks at once, as a step relation in which their calls on
--     the directory interleave and the barrier is left by no rank before all have come to it. Its
--     children are about what the files hold behind the barrier (Invariant), which files there are
--     and in which order (Order, Contents, Listed), the merge of rank 0 (Merge), and the moves of
--     one rank as the calls of `serialize` (Refinement).
--   Interpose: what the functions of src/interpol-c.c and src/interpol-f.c share, with the struct
--     of include/interpol.h as they fill it, the static `current_rank`, and the MPI library, the
--     clock, the arithmetic of doubles and the operating system as parameters. Each function of
--     Interpose.C.* and Interpose.Fortran.* is one of the interposed functions, `mpi_send` for
--     `MPI_Send`, with the struct that it passes to Rust, `send_call`. In the Fortran functions a
--     reference is the address with the value that stands there.
--   Interpose.Program: a program as a list of calls, and the event that the arguments of each
--     describe. Interpose.Run and Interpose.Finalize follow it to its end, Interpose.Single one of
--     a single process to the merged trace; Interpose.Measures and Interpose.Operations look at
--     single fields, Interpose.Fortran.Agreement, Interpose.Fortran.Effects and
--     Interpose.Fortran.Finished at both languages.
--   Interpose.Text: about the bytes of a rank's file and the program's calls.
--   UnitTests.*: the unit tests at the end of the files of interpol-rs/src/mpi_events, three for
--     each struct, `mpi_send_builds` for `builds` of mpi_send.rs; UnitTests.Equality is `==` on the
--     structs as it is derived, UnitTests.Steps and UnitTests.Passes are about what makes the tests
--     pass.
--   Threads: the threads of one process that register events at once, as a step relation, with its
--     invariant, its progress and the end of its runs.
--   Base: shared notation and lemmas. Tests: concrete crates and environments, runs, and each
--     theorem at a concrete input.
--
-- A sound state is one whose mutex is not poisoned and whose vector fits its capacity. Bounds: an
-- element of the vector takes 16 bytes, and a `Vec` holds at most 2^63 - 1 bytes, so its capacity
-- is at most (2^63 - 1) / 16, and the product `2 * events.len()` never wraps in 64 bits. Every loop
-- of the code is structural recursion over a list; only the decimal digits of a number are made on
-- fuel, the number itself, which is enough since each step divides by ten, and Json.Reader reads
-- the events of a trace on fuel, the length of the text, which is enough since each event takes
-- more than one character.
--
-- Not modelled: what PMPI does, but for what it stores and returns, and for the barriers what is
-- said at System.Barrier; the buffers and the status of a call, which no trace keeps, also not that
-- `MPI_Recv_fortran_wrapper` and `MPI_Test_fortran_wrapper` overwrite the program's status from a
-- `temp_status` that nothing has set; a standard stream that cannot be written, on which `print!`,
-- `println!` and `eprintln!` panic: the streams are taken to be writable throughout; the branches
-- for MPICH 1 in src/interpol-f.c, and the entry points there in other spellings, which only call
-- the modelled functions; include/tsc.h, in assembly; the scripts and the build file
-- (interpol-rs/build.rs, which generates a C header); the files of interpol-rs/src/mpi_events that
-- hold no code; what a panic says of the error behind the message of `expect`, or of the values
-- that `assert_eq!` compared; the indentation of JSON text; files of the directory that are no
-- regular files; names and values that are no text. What C leaves undefined is taken as follows: a
-- product that an `int` cannot hold wraps, and an `int8_t` that is no `MpiOp` is read as some
-- `MpiOp`, by a parameter. A Fortran program and its `current_rank`, which src/interpol-f.c has of
-- its own, are modelled call by call, as the C ones are.
pub mod Aggregate
pub mod Base
pub mod Builder
pub mod Call
pub mod Dispatch
pub mod Error
pub mod Event
pub mod Files
pub mod Interpose
pub mod Json
pub mod Machine
pub mod MpiEvents
pub mod Register
pub mod Serialize
pub mod System
pub mod Tests
pub mod Threads
pub mod Types
pub mod UnitTests
pub mod Vector
