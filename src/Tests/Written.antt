-- ===== src/Tests/Written.antt =====
-- The text of a trace: an example, and the theorems on it at a concrete input.
use interpol.Base.{All, true, List, [], ◌∷◌, ◌++◌, map, Text, some, codes, ◌≡◌, refl, arith}
use interpol.Base.Int.{pos, negsuc, show_int}
use interpol.Types.{MpiOp, is_finite}
use interpol.Event.{Event}
use interpol.Json.Format.{trace_text}
use interpol.Json.Reader.{read_trace}
use interpol.Json.Reader.Traces.{contents, read_trace-trace_text}
use interpol.MpiEvents.Synchronization.{new_mpi_test}
use interpol.MpiEvents.Management.{new_mpi_init, new_mpi_finalize}
use interpol.MpiEvents.Collectives.{new_mpi_ireduce}
use interpol.Machine.{ret}
use interpol.Files.{entries, lookup}
use interpol.Serialize.{file_name}
use interpol.Interpose.{Library, Process, ◌>>◌}
use interpol.Interpose.C.Management.{mpi_init, mpi_finalize}
use interpol.Interpose.Program.{run_calls, interposed}
use interpol.Interpose.Run.{Served}
use interpol.Interpose.Text.{log, program_text, log-determined}
use interpol.Tests.Builders.{list_builder-IsBuilder}
use interpol.Tests.Data.{crates, sort_env}
use interpol.Tests.Interposed.{lib, answer, program, process}
use interpol.Tests.Texts.{
  bits_text, read_bits, bits-ReadsBack, text_json, text_json-IsSerdeJson, text_json-WritesTraces,
}
use interpol.Tests.Witnesses.{blank-IsSound, generous-IsGenerous, no_faults-IsFaultless}

abbrev events : List Event
events =
    Event.test (new_mpi_test (pos 1) (negsuc 6) true 1024 20)
    ∷ Event.ireduce (new_mpi_ireduce (pos 1) (pos 0) 8 MpiOp.max (pos 0) (pos 7) 1100 30)
    ∷ []

trace_text_two :
    trace_text bits_text events
    ≡ codes "[{\"type\":\"MpiTest\",\"current_rank\":1,\"req\":-7,\"finished\":true,"
      ++ codes "\"tsc\":1024,\"duration\":20},"
      ++ codes "{\"type\":\"MpiIreduce\",\"current_rank\":1,\"partner_rank\":0,\"nb_bytes\":8,"
      ++ codes "\"op_type\":\"Max\",\"comm\":0,\"req\":7,\"tsc\":1100,\"duration\":30}]"
unfolding trace_text new_mpi_test new_mpi_ireduce show_int
trace_text_two = refl

trace_text_none : trace_text bits_text [] ≡ codes "[]"
unfolding trace_text
trace_text_none = refl

read_trace_two : read_trace read_bits (trace_text bits_text events) ≡ some (map contents events)
read_trace_two = read_trace-trace_text bits_text read_bits bits-ReadsBack events (tt, (tt, tt))

abbrev text_lib : Library
text_lib = record lib { crates = record crates { json = text_json } }

program_text_example :
    (q : Process) × (t : Text) × ((run_calls text_lib program
          >> mpi_finalize text_lib sort_env answer)
        process
      ≡ (ret (pos 0), q))
    × (lookup (file_name (pos 3)) (entries q.machine.traces) ≡ some t)
    × (read_trace read_bits t ≡ some (map contents (log text_lib sort_env answer program process)))
unfolding is_finite new_mpi_init new_mpi_finalize
program_text_example =
    program_text text_lib sort_env answer bits_text read_bits list_builder-IsBuilder
      text_json-IsSerdeJson text_json-WritesTraces bits-ReadsBack program process blank-IsSound
      (generous-IsGenerous, (generous-IsGenerous, (generous-IsGenerous, tt))) generous-IsGenerous
      no_faults-IsFaultless (omega arith) refl (refl, (tt, (tt, (refl, tt))))

-- A process that has had another rank before `MPI_Init`.
abbrev renamed : Process
renamed = record process { current_rank = pos 9 }

log-determined_example :
    log text_lib sort_env answer program process ≡ log text_lib sort_env answer program renamed
unfolding is_finite new_mpi_init new_mpi_finalize run_calls interposed mpi_init
log-determined_example =
    log-determined text_lib sort_env answer answer bits_text read_bits list_builder-IsBuilder
      text_json-IsSerdeJson text_json-WritesTraces bits-ReadsBack program program process renamed
      blank-IsSound blank-IsSound served served generous-IsGenerous generous-IsGenerous
      no_faults-IsFaultless no_faults-IsFaultless (omega arith) (omega arith) refl refl
      (refl, (tt, (tt, (refl, tt)))) (refl, (tt, (tt, (refl, tt)))) refl
  where
    served : All (Served text_lib) program
    served = (generous-IsGenerous, (generous-IsGenerous, (generous-IsGenerous, tt)))
