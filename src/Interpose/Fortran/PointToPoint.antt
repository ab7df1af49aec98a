-- ===== src/Interpose/Fortran/PointToPoint.antt =====
-- The point-to-point functions of src/interpol-f.c.
use interpol.Base.{false}
use interpol.Base.Int.{negsuc}
use interpol.Types.{I32, MpiRank, MpiCallType}
use interpol.Interpose.{
  Library, RawCall, Reply, P, ◌>>=◌, ◌>>◌, pure, get_current_rank, register, elapsed, bytes,
  minus_one,
}
use interpol.Interpose.Fortran.{Ref, Handles}

module _ (lib : Library) (fortran : Handles lib.mpi) where
  unfoldable pub send_call : Ref → Ref → Ref → Ref → Ref → Reply lib.mpi → MpiRank → RawCall
  send_call count datatype dest tag comm reply current_rank =
      let duration = elapsed reply.before reply.after in
      let nb_bytes = lib.mpi.type_size (fortran.type_f2c datatype.value) in
      record {
        kind = MpiCallType.send;
        time = minus_one;
        tsc = reply.before;
        duration = duration;
        current_rank = current_rank;
        partner_rank = dest.value;
        nb_bytes_s = bytes nb_bytes count.value;
        nb_bytes_r = 0;
        comm = lib.mpi.comm_c2f (fortran.comm_at comm.address);
        req = negsuc 0;
        tag = tag.value;
        required_thread_lvl = negsuc 0;
        provided_thread_lvl = negsuc 0;
        op_type = negsuc 0;
        finished = false;
      }

  -- `MPI_Send_fortran_wrapper`
  unfoldable pub mpi_send : Ref → Ref → Ref → Ref → Ref → Reply lib.mpi → P I32
  mpi_send count datatype dest tag comm reply = do
    current_rank ← get_current_rank
    register lib reply.env (send_call count datatype dest tag comm reply current_rank)
    pure reply.ret

  unfoldable pub recv_call : Ref → Ref → Ref → Ref → Ref → Reply lib.mpi → MpiRank → RawCall
  recv_call count datatype source tag comm reply current_rank =
      let duration = elapsed reply.before reply.after in
      let nb_bytes = lib.mpi.type_size (fortran.type_f2c datatype.value) in
      record {
        kind = MpiCallType.recv;
        time = minus_one;
        tsc = reply.before;
        duration = duration;
        current_rank = current_rank;
        partner_rank = source.value;
        nb_bytes_s = 0;
        nb_bytes_r = bytes nb_bytes count.value;
        comm = lib.mpi.comm_c2f (fortran.comm_at comm.address);
        req = negsuc 0;
        tag = tag.value;
        required_thread_lvl = negsuc 0;
        provided_thread_lvl = negsuc 0;
        op_type = negsuc 0;
        finished = false;
      }

  -- `MPI_Recv_fortran_wrapper`, but for what it stores in the program's status: `PMPI_Recv` fills that,
  -- and `MPI_Status_c2f` then overwrites it from a `temp_status` that nothing has set.
  unfoldable pub mpi_recv : Ref → Ref → Ref → Ref → Ref → Reply lib.mpi → P I32
  mpi_recv count datatype source tag comm reply = do
    current_rank ← get_current_rank
    register lib reply.env (recv_call count datatype source tag comm reply current_rank)
    pure reply.ret

  unfoldable pub isend_call : Ref → Ref → Ref → Ref → Ref → Reply lib.mpi → MpiRank → RawCall
  isend_call count datatype dest tag comm reply current_rank =
      let duration = elapsed reply.before reply.after in
      let nb_bytes = lib.mpi.type_size (fortran.type_f2c datatype.value) in
      record {
        kind = MpiCallType.isend;
        time = minus_one;
        tsc = reply.before;
        duration = duration;
        current_rank = current_rank;
        partner_rank = dest.value;
        nb_bytes_s = bytes nb_bytes count.value;
        nb_bytes_r = 0;
        comm = lib.mpi.comm_c2f (fortran.comm_at comm.address);
        req = lib.mpi.request_c2f reply.request;
        tag = tag.value;
        required_thread_lvl = negsuc 0;
        provided_thread_lvl = negsuc 0;
        op_type = negsuc 0;
        finished = false;
      }

  -- `MPI_Isend_fortran_wrapper`
  unfoldable pub mpi_isend : Ref → Ref → Ref → Ref → Ref → Reply lib.mpi → P I32
  mpi_isend count datatype dest tag comm reply = do
    current_rank ← get_current_rank
    register lib reply.env (isend_call count datatype dest tag comm reply current_rank)
    pure reply.ret

  unfoldable pub irecv_call : Ref → Ref → Ref → Ref → Ref → Reply lib.mpi → MpiRank → RawCall
  irecv_call count datatype source tag comm reply current_rank =
      let duration = elapsed reply.before reply.after in
      let nb_bytes = lib.mpi.type_size (fortran.type_f2c datatype.value) in
      record {
        kind = MpiCallType.irecv;
        time = minus_one;
        tsc = reply.before;
        duration = duration;
        current_rank = current_rank;
        partner_rank = source.value;
        nb_bytes_s = 0;
        nb_bytes_r = bytes nb_bytes count.value;
        comm = lib.mpi.comm_c2f (fortran.comm_at comm.address);
        req = lib.mpi.request_c2f reply.request;
        tag = tag.value;
        required_thread_lvl = negsuc 0;
        provided_thread_lvl = negsuc 0;
        op_type = negsuc 0;
        finished = false;
      }

  -- `MPI_Irecv_fortran_wrapper`
  unfoldable pub mpi_irecv : Ref → Ref → Ref → Ref → Ref → Reply lib.mpi → P I32
  mpi_irecv count datatype source tag comm reply = do
    current_rank ← get_current_rank
    register lib reply.env (irecv_call count datatype source tag comm reply current_rank)
    pure reply.ret
