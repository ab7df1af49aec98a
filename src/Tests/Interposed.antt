-- ===== src/Tests/Interposed.antt =====
-- The theorems on the interposed functions, each at a concrete input: handles are numbers, a datatype is
-- its size, and an operation is the number of a predefined one.
use interpol.Base.{
  Bool, All, List, [], ◌++◌, Text, ◌≡◌, ◌≢◌, ℕ, refl, true, false, some, ◌∷◌, arith,
}
use interpol.Base.Int.{ℤ, pos, negsuc}
use interpol.Types.{MpiOp}
use interpol.Types.Repr.{mpi_op_of}
use interpol.Event.{Event}
use interpol.Vector.{Vec, IsValid}
use interpol.Machine.{ret}
use interpol.Call.Finalize.{written}
use interpol.Dispatch.Record.{event_of}
use interpol.Interpose.{Mpi, Reply, Library, Process, Predefined, Doubles, received, bytes, ◌>>◌}
use interpol.Interpose.C.Synchronization.{mpi_test}
use interpol.Interpose.C.Management.{mpi_finalize}
use interpol.Interpose.Fortran.{Ref, Handles}
use interpol.Interpose.Fortran.Management as FManagement
use interpol.Interpose.Fortran.Synchronization as FSynchronization
use interpol.Interpose.Fortran.Effects.{fortran_interposed, fortran_interposed-in_c}
use interpol.Interpose.Fortran.Agreement.{FortranCall}
use interpol.Interpose.Fortran.Finished.{answered, tested, mpi_test_differs}
use interpol.Interpose.Program.{interposed, Call, raw_of, run_calls, recorded_all}
use interpol.Interpose.Run.{Served, run_calls_complete, Answers, run_calls-Answers}
use interpol.Interpose.Finalize.{Finalized, mpi_finalize-Finalized, program_written, finalized}
use interpol.Interpose.Measures.{ireduce_count}
use interpol.Interpose.Operations.{HasPredefined, same, raw_of-op_type}
use interpol.Tests.Builders.{list_builder-IsBuilder}
use interpol.Tests.Json.{cell_json-IsSerdeJson}
use interpol.Tests.Sorter.{insertion_sort}
use interpol.Tests.Data.{crates, env, starved, blank, half, sort_env}
use interpol.Tests.Witnesses.{blank-IsSound, generous-IsGenerous, no_faults-IsFaultless}

abbrev pub numbers : Mpi
numbers = record {
  Comm = ℤ;
  Datatype = ℤ;
  Request = ℤ;
  Op = Predefined;
  comm_c2f = λ c. c;
  request_c2f = λ r. r;
  type_size = λ t. t;
  is_op = same;
}

numbers-HasPredefined : HasPredefined numbers
numbers-HasPredefined = record { handle = λ p. p; is_op-handle = λ p q. refl }

-- Doubles that know only one half: the sum is the fraction.
abbrev fractions : Doubles
fractions = record { of_int = λ n. half; add = λ a b. b; div = λ a b. a }

abbrev pub lib : Library
lib = record {
  mpi = numbers;
  crates = crates;
  rayon = insertion_sort;
  doubles = fractions;
  reads = λ _. MpiOp.opnull;
}

abbrev pub answer : Reply numbers
answer = record {
  ret = pos 0;
  before = 1000;
  after = 1250;
  timeofday = record { tv_sec = pos 1700000000; tv_usec = pos 500000 };
  rank = pos 3;
  provided = pos 2;
  flag = pos 0;
  request = pos 77;
  env = env;
}

abbrev refused_answer : Reply numbers
refused_answer = record answer { env = starved; ret = pos 5 }

abbrev pub program : List (Call numbers × Reply numbers)
program =
    (Call.init, answer)
    ∷ (Call.isend (pos 10) (pos 8) (pos 1) (pos 42) (pos 0), answer)
    ∷ (Call.wait (pos 77), answer)
    ∷ []

abbrev unlucky : List (Call numbers × Reply numbers)
unlucky = (Call.init, answer) ∷ (Call.barrier (pos 0), refused_answer) ∷ []

-- A process before `MPI_Init`.
abbrev pub process : Process
process = record { current_rank = negsuc 0; machine = blank }

program-Served : All (Served lib) program
program-Served = (generous-IsGenerous, (generous-IsGenerous, (generous-IsGenerous, tt)))

run_calls_complete_example :
    (v : Vec Event) × (run_calls lib program process ≡ (
      ret (pos 0 ∷ pos 0 ∷ pos 0 ∷ []),
      record { current_rank = pos 3; machine = record blank { events = v } },
    ))
    × IsValid v
    × (v.items ≡ recorded_all lib program (negsuc 0))
run_calls_complete_example =
    run_calls_complete lib list_builder-IsBuilder cell_json-IsSerdeJson program process
      blank-IsSound program-Served (omega arith)

run_calls-Answers_example : Answers lib unlucky process (run_calls lib unlucky process)
run_calls-Answers_example =
    run_calls-Answers lib list_builder-IsBuilder cell_json-IsSerdeJson unlucky process blank-IsSound

mpi_finalize-Finalized_example :
    Finalized (pos 5) process (mpi_finalize lib sort_env refused_answer process)
mpi_finalize-Finalized_example =
    mpi_finalize-Finalized lib sort_env refused_answer list_builder-IsBuilder cell_json-IsSerdeJson
      process blank-IsSound

program_written_example :
    (w : Vec Event) × (t : Text) × ((run_calls lib program >> mpi_finalize lib sort_env answer)
        process
      ≡ (
        ret (pos 0),
        record { current_rank = pos 3; machine = written (pos 3) t (record blank { events = w }) },
      ))
    × (w.items ≡ recorded_all lib program (negsuc 0) ++ finalized lib answer (pos 3) ∷ [])
    × (crates.json.to_string w.items ≡ some t)
program_written_example =
    program_written lib sort_env answer list_builder-IsBuilder cell_json-IsSerdeJson program process
      blank-IsSound program-Served generous-IsGenerous no_faults-IsFaultless (omega arith) refl

differ : bytes (pos 8) (pos 1) ≢ bytes (pos 8) (pos 2)
unfolding bytes
differ e = absurd (omega (arith, e))

ireduce_count_example :
    (event_of (
        received lib.reads (
          raw_of lib
            (Call.ireduce (pos 1) (pos 8) Predefined.mpi_sum (pos 0) (pos 0))
            answer
            (pos 3)))
      ≡ event_of (
          received lib.reads (
            raw_of lib
              (Call.ireduce (pos 2) (pos 8) Predefined.mpi_sum (pos 0) (pos 0))
              answer
              (pos 3))))
    × (event_of (
          received lib.reads
            (raw_of lib (Call.ibcast (pos 1) (pos 8) (pos 0) (pos 0)) answer (pos 3)))
        ≢ event_of (
            received lib.reads
              (raw_of lib (Call.ibcast (pos 2) (pos 8) (pos 0) (pos 0)) answer (pos 3))))
ireduce_count_example =
    ireduce_count lib (pos 1) (pos 2) (pos 8) Predefined.mpi_sum (pos 0) (pos 0) answer (pos 3)
      differ

raw_of-op_type_example :
    mpi_op_of (
      (raw_of lib
        (Call.ireduce (pos 1) (pos 8) Predefined.mpi_maxloc (pos 0) (pos 0))
        answer
        (pos 3)).op_type)
    ≡ some MpiOp.maxloc
unfolding numbers-HasPredefined
raw_of-op_type_example =
    raw_of-op_type lib numbers-HasPredefined
      (Call.ireduce (pos 1) (pos 8) Predefined.mpi_maxloc (pos 0) (pos 0))
      (some Predefined.mpi_maxloc) refl answer (pos 3)

-- An address taken for a handle is that number.
abbrev handles : Handles numbers
handles = record {
  type_f2c = λ t. t;
  request_f2c = λ r. r;
  comm_at = λ address. pos address;
  op_at = λ address. Predefined.mpi_no_op;
}

abbrev ref : ℕ → ℕ → Ref
ref address value = record { address = address; value = pos value }

fortran_interposed-in_c_example :
    (fortran_interposed lib handles (FortranCall.wait (ref 4096 77)) answer process
      ≡ interposed lib (Call.wait (pos 77)) answer process)
    × (FManagement.mpi_finalize lib sort_env answer process
        ≡ mpi_finalize lib sort_env answer process)
fortran_interposed-in_c_example =
    fortran_interposed-in_c lib handles (λ v. refl) (FortranCall.wait (ref 4096 77)) sort_env answer
      process

-- The operation is not finished, and `PMPI_Test` has left another request.
mpi_test_differs_example :
    (v w : Vec Event) × (FSynchronization.mpi_test lib handles (ref 4096 0) answer process
      ≡ answered lib answer process v)
    × (mpi_test lib (pos 9) answer process ≡ answered lib answer process w)
    × (v.items ≡ tested lib answer process (pos 77) true ∷ [])
    × (w.items ≡ tested lib answer process (pos 9) false ∷ [])
    × (◌≡◌ {A = Bool} true true → v.items ≢ w.items)
mpi_test_differs_example =
    mpi_test_differs lib handles list_builder-IsBuilder cell_json-IsSerdeJson (ref 4096 0) (pos 9)
      answer process blank-IsSound generous-IsGenerous (omega arith) (λ e. cc)
