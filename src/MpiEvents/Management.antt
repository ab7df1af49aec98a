-- ===== src/MpiEvents/Management.antt =====
-- interpol-rs/src/mpi_events/management/*.rs: the structs of the events that open and close an MPI
-- process, and their `new`.
use interpol.Types.{I32, MpiRank, Tsc, Usecs}

pub record MpiInit : Type 0 where
  pub current_rank : MpiRank
  pub tsc : Tsc
  pub time : Usecs

pub record MpiInitThread : Type 0 where
  pub current_rank : MpiRank
  pub required_thread_lvl : I32
  pub provided_thread_lvl : I32
  pub tsc : Tsc
  pub time : Usecs

pub record MpiFinalize : Type 0 where
  pub current_rank : MpiRank
  pub tsc : Tsc
  pub time : Usecs

-- `MpiInit::new`
unfoldable pub new_mpi_init : MpiRank → Tsc → Usecs → MpiInit
new_mpi_init current_rank tsc time = record { current_rank = current_rank; tsc = tsc; time = time }

-- `MpiInitThread::new`
unfoldable pub new_mpi_init_thread : MpiRank → I32 → I32 → Tsc → Usecs → MpiInitThread
new_mpi_init_thread current_rank required_thread_lvl provided_thread_lvl tsc time = record {
  current_rank = current_rank;
  required_thread_lvl = required_thread_lvl;
  provided_thread_lvl = provided_thread_lvl;
  tsc = tsc;
  time = time;
}

-- `MpiFinalize::new`
unfoldable pub new_mpi_finalize : MpiRank → Tsc → Usecs → MpiFinalize
new_mpi_finalize current_rank tsc time = record {
  current_rank = current_rank;
  tsc = tsc;
  time = time;
}
