-- ===== src/Interpose/Text.antt =====
-- What the bytes of a rank's file tell of the calls of the program.
use mathlib.Core.Option.{some-injective}
use interpol.Base.{
  ◌≡◌, ◌∙◌, sym, ap, false, ◌+◌, ◌*◌, ◌≤◌, ◌++◌, Option, some, List, [], ◌∷◌, map, Text, All,
  length, text_eq_self,
}
use interpol.Base.Int.{is_zero}
use interpol.Types.{I32, MpiRank, Usecs}
use interpol.Event.{Event}
use interpol.Builder.{IsBuilder}
use interpol.Json.{IsSerdeJson, HasFiniteTime}
use interpol.Json.Format.{WritesTraces}
use interpol.Json.Reader.{Reader, ReadsBack, read_trace}
use interpol.Json.Reader.Traces.{contents, read_trace-trace_text, map-contents-injective}
use interpol.Vector.{max_capacity}
use interpol.Vector.Generous.{IsGenerous}
use interpol.Machine.{Ctl, ret}
use interpol.Files.{entries, lookup}
use interpol.Files.Laws.{lookup-put}
use interpol.Serialize.{file_name}
use interpol.Call.Outcome.{IsSound}
use interpol.Call.Finalize.{IsFaultless}
use interpol.Aggregate.{SortEnvironment}
use interpol.Interpose.{Library, Reply, Process, ◌>>◌}
use interpol.Interpose.C.Management.{mpi_finalize}
use interpol.Interpose.Program.{Call, run_calls, recorded_all, rank_after}
use interpol.Interpose.Run.{Served, items_of}
use interpol.Interpose.Finalize.{finalized, program_written}

module _ (lib : Library) (sorting : SortEnvironment) (a : Reply lib.mpi) where
  -- The events of a whole program, in order.
  abbrev pub log : List (Call lib.mpi × Reply lib.mpi) → Process → List Event
  log calls p =
      (items_of p ++ recorded_all lib calls p.current_rank)
      ++ finalized lib a (rank_after lib calls p.current_rank) ∷ []

  -- Given the documented behaviour of derive_builder and serde_json, the text that serde_json is
  -- documented to write included, and a way to read back the numbers that it prints: if a program
  -- calls interposed C functions from a sound state, while nothing refuses memory or fails on the
  -- disk and there is room, and then `MPI_Finalize`, on a rank other than 0, and all its times are
  -- numbers, it gets what `PMPI_Finalize` returned, and a reader of the JSON text finds in the
  -- rank's file exactly the structs, with the values of all their fields, of the events that the
  -- vector held before, of those that the calls describe, and of the finalize, in order.
  pub program_text :
      (show_f64 : Usecs → Text) (read_f64 : Reader Usecs)
      → IsBuilder lib.crates.builder
      → IsSerdeJson lib.crates.json
      → WritesTraces show_f64 lib.crates.json
      → ReadsBack show_f64 read_f64
      → (calls : List (Call lib.mpi × Reply lib.mpi)) (p : Process) → IsSound p.machine
      → All (Served lib) calls
      → IsGenerous a.env.memory
      → IsFaultless a.env.files
      → 3 * (length (items_of p) + length calls) ≤ max_capacity
      → is_zero (rank_after lib calls p.current_rank) ≡ false
      → All HasFiniteTime (log calls p)
      → (q : Process) × (t : Text) × ((run_calls lib calls >> mpi_finalize lib sorting a) p
          ≡ (ret a.ret, q))
        × (lookup (file_name (rank_after lib calls p.current_rank)) (entries q.machine.traces)
            ≡ some t)
        × (read_trace read_f64 t ≡ some (map contents (log calls p)))
  program_text show_f64 read_f64 law json writes back calls p h served memory files room other
        finite =
      let (w, t, e, items, text) =
        program_written lib sorting a law json calls p h served memory files room other in
      let name = file_name (rank_after lib calls p.current_rank) in
      let same =
        some-injective _ _
          (sym text ∙ ap lib.crates.json.to_string items ∙ writes (log calls p) finite) in
      (
        _,
        t,
        e,
        rw (lookup-put name name t (entries p.machine.traces), text_eq_self name),
        ap (read_trace read_f64) same
            ∙ read_trace-trace_text show_f64 read_f64 back (log calls p) finite,
      )

  -- The rank's own file after a program.
  abbrev pub own_file : List (Call lib.mpi × Reply lib.mpi) → Process → Option Text
  own_file calls p =
      lookup (file_name (rank_after lib calls p.current_rank))
        (entries ((run_calls lib calls >> mpi_finalize lib sorting a) p).1.machine.traces)

module _ (lib : Library) (sorting : SortEnvironment) (a a' : Reply lib.mpi) where
  -- Given the documented behaviour of derive_builder and serde_json, the text that serde_json is
  -- documented to write included, and a way to read back the numbers that it prints: if two
  -- programs, each from a sound state, while nothing refuses memory or fails on the disk and there
  -- is room, call interposed C functions and then `MPI_Finalize`, on ranks other than 0, and all
  -- times are numbers, and the two files of their ranks have the same bytes, then the events that
  -- the vectors held before, those that the calls describe and those of the finalizes are the same,
  -- in the same order.
  pub log-determined :
      (show_f64 : Usecs → Text) (read_f64 : Reader Usecs)
      → IsBuilder lib.crates.builder
      → IsSerdeJson lib.crates.json
      → WritesTraces show_f64 lib.crates.json
      → ReadsBack show_f64 read_f64
      → (calls calls' : List (Call lib.mpi × Reply lib.mpi)) (p p' : Process) → IsSound p.machine
      → IsSound p'.machine
      → All (Served lib) calls
      → All (Served lib) calls'
      → IsGenerous a.env.memory
      → IsGenerous a'.env.memory
      → IsFaultless a.env.files
      → IsFaultless a'.env.files
      → 3 * (length (items_of p) + length calls) ≤ max_capacity
      → 3 * (length (items_of p') + length calls') ≤ max_capacity
      → is_zero (rank_after lib calls p.current_rank) ≡ false
      → is_zero (rank_after lib calls' p'.current_rank) ≡ false
      → All HasFiniteTime (log lib sorting a calls p)
      → All HasFiniteTime (log lib sorting a' calls' p')
      → own_file lib sorting a calls p ≡ own_file lib sorting a' calls' p'
      → log lib sorting a calls p ≡ log lib sorting a' calls' p'
  log-determined show_f64 read_f64 law json writes back calls calls' p p' h h' served served' memory
        memory' files files' room room' other other' finite finite' same =
      let (q, t, run, found, read) =
        program_text lib sorting a show_f64 read_f64 law json writes back calls p h served memory
          files room other finite in
      let (q', t', run', found', read') =
        program_text lib sorting a' show_f64 read_f64 law json writes back calls' p' h' served'
          memory' files' room' other' finite' in
      let at = λ (rank : MpiRank) (r : Ctl I32 × Process).
        lookup (file_name rank) (entries r.1.machine.traces) in
      map-contents-injective lib.crates.builder law (log lib sorting a calls p)
        (log lib sorting a' calls' p')
        (some-injective _ _ (
          sym read
          ∙ ap (read_trace read_f64) (
              some-injective _ _ (
                sym found
                ∙ ap (at (rank_after lib calls p.current_rank)) (sym run)
                ∙ same
                ∙ ap (at (rank_after lib calls' p'.current_rank)) run'
                ∙ found'))
          ∙ read'))
