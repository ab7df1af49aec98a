-- ===== src/Interpose/C/PointToPoint.antt =====
-- The point-to-point functions of src/interpol-c.c.
use interpol.Base.{false}
use interpol.Base.Int.{negsuc}
use interpol.Types.{I32, MpiRank, MpiCallType}
use interpol.Interpose.{
  Library, RawCall, Reply, P, ◌>>=◌, ◌>>◌, pure, get_current_rank, register, elapsed, bytes,
  minus_one,
}

module _ (lib : Library) where
  unfoldable pub send_call :
      I32 → lib.mpi.Datatype → I32 → I32 → lib.mpi.Comm → Reply lib.mpi → MpiRank → RawCall
  send_call count datatype dest tag comm reply current_rank =
      let duration = elapsed reply.before reply.after in
      let nb_bytes = lib.mpi.type_size datatype in
      record {
        kind = MpiCallType.send;
        time = minus_one;
        tsc = reply.before;
        duration = duration;
        current_rank = current_rank;
        partner_rank = dest;
        nb_bytes_s = bytes nb_bytes count;
        nb_bytes_r = 0;
        comm = lib.mpi.comm_c2f comm;
        req = negsuc 0;
        tag = tag;
        required_thread_lvl = negsuc 0;
        provided_thread_lvl = negsuc 0;
        op_type = negsuc 0;
        finished = false;
      }

  -- `MPI_Send`
  unfoldable pub mpi_send :
      I32 → lib.mpi.Datatype → I32 → I32 → lib.mpi.Comm → Reply lib.mpi → P I32
  mpi_send count datatype dest tag comm reply = do
    current_rank ← get_current_rank
    register lib reply.env (send_call count datatype dest tag comm reply current_rank)
    pure reply.ret

  unfoldable pub recv_call :
      I32 → lib.mpi.Datatype → I32 → I32 → lib.mpi.Comm → Reply lib.mpi → MpiRank → RawCall
  recv_call count datatype source tag comm reply current_rank =
      let duration = elapsed reply.before reply.after in
      let nb_bytes = lib.mpi.type_size datatype in
      record {
        kind = MpiCallType.recv;
        time = minus_one;
        tsc = reply.before;
        duration = duration;
        current_rank = current_rank;
        partner_rank = source;
        nb_bytes_s = 0;
        nb_bytes_r = bytes nb_bytes count;
        comm = lib.mpi.comm_c2f comm;
        req = negsuc 0;
        tag = tag;
        required_thread_lvl = negsuc 0;
        provided_thread_lvl = negsuc 0;
        op_type = negsuc 0;
        finished = false;
      }

  -- `MPI_Recv`
  unfoldable pub mpi_recv :
      I32 → lib.mpi.Datatype → I32 → I32 → lib.mpi.Comm → Reply lib.mpi → P I32
  mpi_recv count datatype source tag comm reply = do
    current_rank ← get_current_rank
    register lib reply.env (recv_call count datatype source tag comm reply current_rank)
    pure reply.ret

  unfoldable pub isend_call :
      I32 → lib.mpi.Datatype → I32 → I32 → lib.mpi.Comm → Reply lib.mpi → MpiRank → RawCall
  isend_call count datatype dest tag comm reply current_rank =
      let duration = elapsed reply.before reply.after in
      let nb_bytes = lib.mpi.type_size datatype in
      record {
        kind = MpiCallType.isend;
        time = minus_one;
        tsc = reply.before;
        duration = duration;
        current_rank = current_rank;
        partner_rank = dest;
        nb_bytes_s = bytes nb_bytes count;
        nb_bytes_r = 0;
        comm = lib.mpi.comm_c2f comm;
        req = lib.mpi.request_c2f reply.request;
        tag = tag;
        required_thread_lvl = negsuc 0;
        provided_thread_lvl = negsuc 0;
        op_type = negsuc 0;
        finished = false;
      }

  -- `MPI_Isend`
  unfoldable pub mpi_isend :
      I32 → lib.mpi.Datatype → I32 → I32 → lib.mpi.Comm → Reply lib.mpi → P I32
  mpi_isend count datatype dest tag comm reply = do
    current_rank ← get_current_rank
    register lib reply.env (isend_call count datatype dest tag comm reply current_rank)
    pure reply.ret

  unfoldable pub irecv_call :
      I32 → lib.mpi.Datatype → I32 → I32 → lib.mpi.Comm → Reply lib.mpi → MpiRank → RawCall
  irecv_call count datatype source tag comm reply current_rank =
      let duration = elapsed reply.before reply.after in
      let nb_bytes = lib.mpi.type_size datatype in
      record {
        kind = MpiCallType.irecv;
        time = minus_one;
        tsc = reply.before;
        duration = duration;
        current_rank = current_rank;
        partner_rank = source;
        nb_bytes_s = 0;
        nb_bytes_r = bytes nb_bytes count;
        comm = lib.mpi.comm_c2f comm;
        req = lib.mpi.request_c2f reply.request;
        tag = tag;
        required_thread_lvl = negsuc 0;
        provided_thread_lvl = negsuc 0;
        op_type = negsuc 0;
        finished = false;
      }

  -- `MPI_Irecv`
  unfoldable pub mpi_irecv :
      I32 → lib.mpi.Datatype → I32 → I32 → lib.mpi.Comm → Reply lib.mpi → P I32
  mpi_irecv count datatype source tag comm reply = do
    current_rank ← get_current_rank
    register lib reply.env (irecv_call count datatype source tag comm reply current_rank)
    pure reply.ret
