-- ===== src/System.antt =====
-- The processes of one MPI program: each rank makes its calls and its finalize in its own memory,
-- and the ranks share the directory of the traces.
pub mod Barrier
pub mod Contents
pub mod Files
pub mod Merge
use interpol.Base.{◌++◌, ◌≡◌, Bool, true, false, Option, none, some, List, [], ◌∷◌}
use interpol.Types.{MpiRank, MpiCallType, is_finite}
use interpol.Event.{Event}
use interpol.Vector.{new_vec}
use interpol.Machine.{Directory, Machine, Ctl, M, ◌>>=◌, ◌>>◌}
use interpol.Dispatch.{MpiCall, Crates}
use interpol.Dispatch.Record.{event_of}
use interpol.Call.{register_mpi_call}
use interpol.Call.Run.{Step, run, events_of}

-- The calls of a rank, and its finalize.
pub record Rank : Type 0 where
  pub steps : List Step
  pub last : Step

abbrev pub rank_of : Rank → MpiRank
rank_of r = r.last.call.current_rank

-- A process as it is loaded.
abbrev pub fresh : Option Directory → Machine
fresh dir = record { events = new_vec; poisoned = false; traces = dir; stdout = []; stderr = [] }

unfoldable pub run_rank : Crates → Rank → M (Unit {0})
run_rank crates r = run crates r.steps >> register_mpi_call crates r.last.env r.last.call

-- The directory after the finalizes of the ranks, in the order of the list.
unfoldable pub run_ranks : Crates → List Rank → Option Directory → Option Directory
unfolding run_rank
run_ranks crates [] dir = dir
run_ranks crates (r ∷ rs) dir = run_ranks crates rs (run_rank crates r (fresh dir)).1.traces

abbrev pub rank_events : Rank → List Event
rank_events r = events_of r.steps ++ event_of r.last.call ∷ []

abbrev pub all_events : List Rank → List Event
all_events [] = []
all_events (r ∷ rs) = rank_events r ++ all_events rs
