-- ===== src/Interpose/C/Management.antt =====
-- `MPI_Init`, `MPI_Init_thread` and `MPI_Finalize` of src/interpol-c.c.
use interpol.Base.{false, if◌then◌else◌}
use interpol.Base.Int.{negsuc, is_zero}
use interpol.Types.{I32, MpiRank, MpiCallType}
use interpol.Aggregate.{SortEnvironment, sort_all_traces}
use interpol.Interpose.{
  Library, RawCall, Reply, P, ◌>>=◌, ◌>>◌, pure, get_current_rank, set_current_rank, calling,
  register, seconds,
}

module _ (lib : Library) where
  unfoldable pub init_call : Reply lib.mpi → MpiRank → RawCall
  init_call reply current_rank = record {
    kind = MpiCallType.init;
    time = seconds lib.doubles reply.timeofday;
    tsc = reply.before;
    duration = 0;
    current_rank = current_rank;
    partner_rank = negsuc 0;
    nb_bytes_s = 0;
    nb_bytes_r = 0;
    comm = negsuc 0;
    req = negsuc 0;
    tag = negsuc 0;
    required_thread_lvl = negsuc 0;
    provided_thread_lvl = negsuc 0;
    op_type = negsuc 0;
    finished = false;
  }

  -- `MPI_Init`
  unfoldable pub mpi_init : Reply lib.mpi → P I32
  mpi_init reply = do
    set_current_rank reply.rank
    current_rank ← get_current_rank
    register lib reply.env (init_call reply current_rank)
    pure reply.ret

  unfoldable pub init_thread_call : I32 → Reply lib.mpi → MpiRank → RawCall
  init_thread_call required reply current_rank = record {
    kind = MpiCallType.initthread;
    time = seconds lib.doubles reply.timeofday;
    tsc = reply.before;
    duration = 0;
    current_rank = current_rank;
    partner_rank = negsuc 0;
    nb_bytes_s = 0;
    nb_bytes_r = 0;
    comm = negsuc 0;
    req = negsuc 0;
    tag = negsuc 0;
    required_thread_lvl = required;
    provided_thread_lvl = reply.provided;
    op_type = negsuc 0;
    finished = false;
  }

  -- `MPI_Init_thread`
  unfoldable pub mpi_init_thread : I32 → Reply lib.mpi → P I32
  mpi_init_thread required reply = do
    set_current_rank reply.rank
    current_rank ← get_current_rank
    register lib reply.env (init_thread_call required reply current_rank)
    pure reply.ret

  unfoldable pub finalize_call : Reply lib.mpi → MpiRank → RawCall
  finalize_call reply current_rank = record {
    kind = MpiCallType.finalize;
    time = seconds lib.doubles reply.timeofday;
    tsc = reply.before;
    duration = 0;
    current_rank = current_rank;
    partner_rank = negsuc 0;
    nb_bytes_s = 0;
    nb_bytes_r = 0;
    comm = negsuc 0;
    req = negsuc 0;
    tag = negsuc 0;
    required_thread_lvl = negsuc 0;
    provided_thread_lvl = negsuc 0;
    op_type = negsuc 0;
    finished = false;
  }

  -- `MPI_Finalize`
  unfoldable pub mpi_finalize : SortEnvironment → Reply lib.mpi → P I32
  mpi_finalize sorting reply = do
    current_rank ← get_current_rank
    register lib reply.env (finalize_call reply current_rank)
    if is_zero current_rank
        then calling (sort_all_traces lib.crates.json lib.rayon sorting)
        else pure tt
    pure reply.ret
