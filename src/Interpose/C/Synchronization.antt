-- ===== src/Interpose/C/Synchronization.antt =====
-- The barriers, `MPI_Test` and `MPI_Wait` of src/interpol-c.c.
use interpol.Base.{not, false}
use interpol.Base.Int.{negsuc, is_zero}
use interpol.Types.{I32, MpiRank, MpiCallType}
use interpol.Interpose.{
  Library, RawCall, Reply, P, ◌>>=◌, ◌>>◌, pure, get_current_rank, register, elapsed, minus_one,
}

module _ (lib : Library) where
  unfoldable pub barrier_call : lib.mpi.Comm → Reply lib.mpi → MpiRank → RawCall
  barrier_call comm reply current_rank =
      let duration = elapsed reply.before reply.after in
      record {
        kind = MpiCallType.barrier;
        time = minus_one;
        tsc = reply.before;
        duration = duration;
        current_rank = current_rank;
        partner_rank = negsuc 0;
        nb_bytes_s = 0;
        nb_bytes_r = 0;
        comm = lib.mpi.comm_c2f comm;
        req = negsuc 0;
        tag = negsuc 0;
        required_thread_lvl = negsuc 0;
        provided_thread_lvl = negsuc 0;
        op_type = negsuc 0;
        finished = false;
      }

  -- `MPI_Barrier`
  unfoldable pub mpi_barrier : lib.mpi.Comm → Reply lib.mpi → P I32
  mpi_barrier comm reply = do
    current_rank ← get_current_rank
    register lib reply.env (barrier_call comm reply current_rank)
    pure reply.ret

  unfoldable pub ibarrier_call : lib.mpi.Comm → Reply lib.mpi → MpiRank → RawCall
  ibarrier_call comm reply current_rank =
      let duration = elapsed reply.before reply.after in
      record {
        kind = MpiCallType.ibarrier;
        time = minus_one;
        tsc = reply.before;
        duration = duration;
        current_rank = current_rank;
        partner_rank = negsuc 0;
        nb_bytes_s = 0;
        nb_bytes_r = 0;
        comm = lib.mpi.comm_c2f comm;
        req = lib.mpi.request_c2f reply.request;
        tag = negsuc 0;
        required_thread_lvl = negsuc 0;
        provided_thread_lvl = negsuc 0;
        op_type = negsuc 0;
        finished = false;
      }

  -- `MPI_Ibarrier`
  unfoldable pub mpi_ibarrier : lib.mpi.Comm → Reply lib.mpi → P I32
  mpi_ibarrier comm reply = do
    current_rank ← get_current_rank
    register lib reply.env (ibarrier_call comm reply current_rank)
    pure reply.ret

  unfoldable pub test_call : lib.mpi.Request → Reply lib.mpi → MpiRank → RawCall
  test_call request reply current_rank =
      let req = lib.mpi.request_c2f request in
      let duration = elapsed reply.before reply.after in
      record {
        kind = MpiCallType.test;
        time = minus_one;
        tsc = reply.before;
        duration = duration;
        current_rank = current_rank;
        partner_rank = negsuc 0;
        nb_bytes_s = 0;
        nb_bytes_r = 0;
        comm = negsuc 0;
        req = req;
        tag = negsuc 0;
        required_thread_lvl = negsuc 0;
        provided_thread_lvl = negsuc 0;
        op_type = negsuc 0;
        finished = not (is_zero reply.flag);
      }

  -- `MPI_Test`
  unfoldable pub mpi_test : lib.mpi.Request → Reply lib.mpi → P I32
  mpi_test request reply = do
    current_rank ← get_current_rank
    register lib reply.env (test_call request reply current_rank)
    pure reply.ret

  unfoldable pub wait_call : lib.mpi.Request → Reply lib.mpi → MpiRank → RawCall
  wait_call request reply current_rank =
      let req = lib.mpi.request_c2f request in
      let duration = elapsed reply.before reply.after in
      record {
        kind = MpiCallType.wait;
        time = minus_one;
        tsc = reply.before;
        duration = duration;
        current_rank = current_rank;
        partner_rank = negsuc 0;
        nb_bytes_s = 0;
        nb_bytes_r = 0;
        comm = negsuc 0;
        req = req;
        tag = negsuc 0;
        required_thread_lvl = negsuc 0;
        provided_thread_lvl = negsuc 0;
        op_type = negsuc 0;
        finished = false;
      }

  -- `MPI_Wait`
  unfoldable pub mpi_wait : lib.mpi.Request → Reply lib.mpi → P I32
  mpi_wait request reply = do
    current_rank ← get_current_rank
    register lib reply.env (wait_call request reply current_rank)
    pure reply.ret
