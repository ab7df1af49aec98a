-- ===== src/Interpose/Fortran/Synchronization.antt =====
-- The barriers, `MPI_Test` and `MPI_Wait` of src/interpol-f.c.
use interpol.Base.{not, false, ◌==◌}
use interpol.Base.Int.{negsuc}
use interpol.Types.{I32, MpiRank, MpiCallType}
use interpol.Interpose.{
  Library, RawCall, Reply, P, ◌>>=◌, ◌>>◌, pure, get_current_rank, register, elapsed, minus_one,
}
use interpol.Interpose.Fortran.{Ref, Handles}

module _ (lib : Library) (fortran : Handles lib.mpi) where
  unfoldable pub barrier_call : Ref → Reply lib.mpi → MpiRank → RawCall
  barrier_call comm reply current_rank =
      let duration = elapsed reply.before reply.after in
      record {
        kind = MpiCallType.barrier;
        time = minus_one;
        tsc = reply.before;
        duration = duration;
        current_rank = current_rank;
        partner_rank = negsuc 0;
        nb_bytes_s = 0;
        nb_bytes_r = 0;
        comm = lib.mpi.comm_c2f (fortran.comm_at comm.address);
        req = negsuc 0;
        tag = negsuc 0;
        required_thread_lvl = negsuc 0;
        provided_thread_lvl = negsuc 0;
        op_type = negsuc 0;
        finished = false;
      }

  -- `MPI_Barrier_fortran_wrapper`
  unfoldable pub mpi_barrier : Ref → Reply lib.mpi → P I32
  mpi_barrier comm reply = do
    current_rank ← get_current_rank
    register lib reply.env (barrier_call comm reply current_rank)
    pure reply.ret

  unfoldable pub ibarrier_call : Ref → Reply lib.mpi → MpiRank → RawCall
  ibarrier_call comm reply current_rank =
      let duration = elapsed reply.before reply.after in
      record {
        kind = MpiCallType.ibarrier;
        time = minus_one;
        tsc = reply.before;
        duration = duration;
        current_rank = current_rank;
        partner_rank = negsuc 0;
        nb_bytes_s = 0;
        nb_bytes_r = 0;
        comm = lib.mpi.comm_c2f (fortran.comm_at comm.address);
        req = lib.mpi.request_c2f reply.request;
        tag = negsuc 0;
        required_thread_lvl = negsuc 0;
        provided_thread_lvl = negsuc 0;
        op_type = negsuc 0;
        finished = false;
      }

  -- `MPI_Ibarrier_fortran_wrapper`
  unfoldable pub mpi_ibarrier : Ref → Reply lib.mpi → P I32
  mpi_ibarrier comm reply = do
    current_rank ← get_current_rank
    register lib reply.env (ibarrier_call comm reply current_rank)
    pure reply.ret

  unfoldable pub test_call : Ref → Reply lib.mpi → MpiRank → RawCall
  test_call flag reply current_rank =
      let duration = elapsed reply.before reply.after in
      record {
        kind = MpiCallType.test;
        time = minus_one;
        tsc = reply.before;
        duration = duration;
        current_rank = current_rank;
        partner_rank = negsuc 0;
        nb_bytes_s = 0;
        nb_bytes_r = 0;
        comm = negsuc 0;
        req = lib.mpi.request_c2f reply.request;
        tag = negsuc 0;
        required_thread_lvl = negsuc 0;
        provided_thread_lvl = negsuc 0;
        op_type = negsuc 0;
        finished = not (flag.address == 0);
      }

  -- `MPI_Test_fortran_wrapper`, but for what it stores in the program's status, which it overwrites
  -- from a `temp_status` that nothing has set.
  unfoldable pub mpi_test : Ref → Reply lib.mpi → P I32
  mpi_test flag reply = do
    current_rank ← get_current_rank
    register lib reply.env (test_call flag reply current_rank)
    pure reply.ret

  unfoldable pub wait_call : Ref → Reply lib.mpi → MpiRank → RawCall
  wait_call request reply current_rank =
      let req = request.value in
      let duration = elapsed reply.before reply.after in
      record {
        kind = MpiCallType.wait;
        time = minus_one;
        tsc = reply.before;
        duration = duration;
        current_rank = current_rank;
        partner_rank = negsuc 0;
        nb_bytes_s = 0;
        nb_bytes_r = 0;
        comm = negsuc 0;
        req = req;
        tag = negsuc 0;
        required_thread_lvl = negsuc 0;
        provided_thread_lvl = negsuc 0;
        op_type = negsuc 0;
        finished = false;
      }

  -- `MPI_Wait_fortran_wrapper`
  unfoldable pub mpi_wait : Ref → Reply lib.mpi → P I32
  mpi_wait request reply = do
    current_rank ← get_current_rank
    register lib reply.env (wait_call request reply current_rank)
    pure reply.ret
