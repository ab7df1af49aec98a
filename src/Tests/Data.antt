-- ===== src/Tests/Data.antt =====
-- Crates, environments, calls and ranks for the tests.
use interpol.Base.{text_eq, if◌then◌else◌, ℕ, ◌*◌, ◌^◌, List, [], ◌∷◌, none, some, true, codes}
use interpol.Base.Int.{pos, negsuc}
use interpol.Types.{MpiCallType, MpiOp}
use interpol.Error.{IoError}
use interpol.Vector.{Memory}
use interpol.Machine.{Machine}
use interpol.Files.{WriteFaults}
use interpol.Dispatch.{MpiCall, Crates, Environment}
use interpol.Call.Run.{Step}
use interpol.Aggregate.{ReadFaults, SortEnvironment}
use interpol.System.{Rank, fresh}
use interpol.Tests.Builders.{list_builder}
use interpol.Tests.Json.{cell_json}

abbrev pub crates : Crates
crates = record { builder = list_builder; json = cell_json }

abbrev pub generous : Memory
generous = record { reserve = λ _. some 1; boxes = true; grow = λ _. some 3 }

-- An allocator that has nothing left.
abbrev pub exhausted : Memory
exhausted = record { reserve = λ _. none; boxes = true; grow = λ _. none }

abbrev pub io_error : IoError
io_error = record { message = codes "No such file or directory (os error 2)" }

abbrev pub no_faults : WriteFaults
no_faults = record { create_dir = none; open_file = none; not_found = io_error; write = none }

abbrev pub torn_write : WriteFaults
torn_write = record {
  create_dir = none;
  open_file = none;
  not_found = io_error;
  write = some (1, io_error);
}

abbrev pub readable : ReadFaults
readable = record {
  read_dir = none;
  not_found = io_error;
  entry = λ _. none;
  after_last = none;
  remove_file = λ _. none;
  read_to_string = λ _. none;
}

abbrev pub env : Environment
env = record { memory = generous; files = no_faults }

abbrev pub starved : Environment
starved = record { memory = exhausted; files = no_faults }

abbrev pub sort_env : SortEnvironment
sort_env = record {
  reads = readable;
  writes = no_faults;
  interpol_output = some (codes "readable");
  elapsed = codes "1ms";
}

-- One file cannot be read, and the result is cut short.
abbrev pub faulty : SortEnvironment
faulty = record {
  reads = record readable {
    read_to_string =
        λ name. if text_eq name (codes "rank7_traces.json") then some io_error else none;
  };
  writes = torn_write;
  interpol_output = none;
  elapsed = codes "1ms";
}

-- The bits of 0.5 as an `f64`.
abbrev pub half : ℕ
half = 1022 * 2 ^ 52

-- A call of a rank at a time stamp.
abbrev pub call_of : MpiCallType → ℕ → ℕ → MpiCall
call_of kind rank tsc = record {
  time = half;
  tsc = tsc;
  duration = 20;
  partner_rank = pos 1;
  current_rank = pos rank;
  nb_bytes_s = 8;
  nb_bytes_r = 64;
  comm = pos 0;
  req = negsuc 0;
  tag = pos 42;
  required_thread_lvl = pos 3;
  provided_thread_lvl = pos 1;
  finished = true;
  op_type = MpiOp.sum;
  kind = kind;
}

abbrev pub step_of : MpiCallType → ℕ → ℕ → Step
step_of kind rank tsc = record { env = env; call = call_of kind rank tsc }

abbrev pub steps : List Step
steps =
    step_of MpiCallType.init 0 10
    ∷ step_of MpiCallType.isend 0 30
    ∷ step_of MpiCallType.wait 0 50
    ∷ []

abbrev pub blank : Machine
blank = fresh none

abbrev pub rank0 : Rank
rank0 = record { steps = steps; last = step_of MpiCallType.finalize 0 90 }

abbrev pub rank1 : Rank
rank1 = record {
  steps = step_of MpiCallType.initthread 1 11 ∷ step_of MpiCallType.ireduce 1 40 ∷ [];
  last = step_of MpiCallType.finalize 1 80;
}
