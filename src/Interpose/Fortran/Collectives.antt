-- ===== src/Interpose/Fortran/Collectives.antt =====
-- The collective functions of src/interpol-f.c.
use interpol.Base.{false}
use interpol.Base.Int.{negsuc, to_u32}
use interpol.Types.{I32, MpiRank, MpiCallType}
use interpol.Interpose.{
  Library, RawCall, Reply, P, ◌>>=◌, ◌>>◌, pure, get_current_rank, register, elapsed, bytes,
  minus_one,
}
use interpol.Interpose.C.Collectives.{op_type_of}
use interpol.Interpose.Fortran.{Ref, Handles}

module _ (lib : Library) (fortran : Handles lib.mpi) where
  unfoldable pub ibcast_call : Ref → Ref → Ref → Ref → Reply lib.mpi → MpiRank → RawCall
  ibcast_call count datatype root comm reply current_rank =
      let duration = elapsed reply.before reply.after in
      let nb_bytes = lib.mpi.type_size (fortran.type_f2c datatype.value) in
      record {
        kind = MpiCallType.ibcast;
        time = minus_one;
        tsc = reply.before;
        duration = duration;
        current_rank = current_rank;
        partner_rank = root.value;
        nb_bytes_s = bytes nb_bytes count.value;
        nb_bytes_r = 0;
        comm = lib.mpi.comm_c2f (fortran.comm_at comm.address);
        req = lib.mpi.request_c2f reply.request;
        tag = negsuc 0;
        required_thread_lvl = negsuc 0;
        provided_thread_lvl = negsuc 0;
        op_type = negsuc 0;
        finished = false;
      }

  -- `MPI_Ibcast_fortran_wrapper`
  unfoldable pub mpi_ibcast : Ref → Ref → Ref → Ref → Reply lib.mpi → P I32
  mpi_ibcast count datatype root comm reply = do
    current_rank ← get_current_rank
    register lib reply.env (ibcast_call count datatype root comm reply current_rank)
    pure reply.ret

  unfoldable pub igather_call :
      Ref → Ref → Ref → Ref → Ref → Ref → Reply lib.mpi → MpiRank → RawCall
  igather_call sendcount sendtype recvcount recvtype root comm reply current_rank =
      let duration = elapsed reply.before reply.after in
      let nb_bytes_send = lib.mpi.type_size (fortran.type_f2c sendtype.value) in
      let nb_bytes_recv = lib.mpi.type_size (fortran.type_f2c recvtype.value) in
      record {
        kind = MpiCallType.igather;
        time = minus_one;
        tsc = reply.before;
        duration = duration;
        current_rank = current_rank;
        partner_rank = root.value;
        nb_bytes_s = bytes nb_bytes_send sendcount.value;
        nb_bytes_r = bytes nb_bytes_recv recvcount.value;
        comm = lib.mpi.comm_c2f (fortran.comm_at comm.address);
        req = lib.mpi.request_c2f reply.request;
        tag = negsuc 0;
        required_thread_lvl = negsuc 0;
        provided_thread_lvl = negsuc 0;
        op_type = negsuc 0;
        finished = false;
      }

  -- `MPI_Igather_fortran_wrapper`
  unfoldable pub mpi_igather : Ref → Ref → Ref → Ref → Ref → Ref → Reply lib.mpi → P I32
  mpi_igather sendcount sendtype recvcount recvtype root comm reply = do
    current_rank ← get_current_rank
    register lib reply.env
        (igather_call sendcount sendtype recvcount recvtype root comm reply current_rank)
    pure reply.ret

  unfoldable pub iscatter_call :
      Ref → Ref → Ref → Ref → Ref → Ref → Reply lib.mpi → MpiRank → RawCall
  iscatter_call sendcount sendtype recvcount recvtype root comm reply current_rank =
      let duration = elapsed reply.before reply.after in
      let nb_bytes_send = lib.mpi.type_size (fortran.type_f2c sendtype.value) in
      let nb_bytes_recv = lib.mpi.type_size (fortran.type_f2c recvtype.value) in
      record {
        kind = MpiCallType.iscatter;
        time = minus_one;
        tsc = reply.before;
        duration = duration;
        current_rank = current_rank;
        partner_rank = root.value;
        nb_bytes_s = bytes nb_bytes_send sendcount.value;
        nb_bytes_r = bytes nb_bytes_recv recvcount.value;
        comm = lib.mpi.comm_c2f (fortran.comm_at comm.address);
        req = lib.mpi.request_c2f reply.request;
        tag = negsuc 0;
        required_thread_lvl = negsuc 0;
        provided_thread_lvl = negsuc 0;
        op_type = negsuc 0;
        finished = false;
      }

  -- `MPI_Iscatter_fortran_wrapper`
  unfoldable pub mpi_iscatter : Ref → Ref → Ref → Ref → Ref → Ref → Reply lib.mpi → P I32
  mpi_iscatter sendcount sendtype recvcount recvtype root comm reply = do
    current_rank ← get_current_rank
    register lib reply.env
        (iscatter_call sendcount sendtype recvcount recvtype root comm reply current_rank)
    pure reply.ret

  unfoldable pub ireduce_call : Ref → Ref → Ref → Ref → Ref → Reply lib.mpi → MpiRank → RawCall
  ireduce_call count datatype op root comm reply current_rank =
      let duration = elapsed reply.before reply.after in
      let nb_bytes = lib.mpi.type_size (fortran.type_f2c datatype.value) in
      let op_type = op_type_of lib.mpi (fortran.op_at op.address) in
      record {
        kind = MpiCallType.ireduce;
        time = minus_one;
        tsc = reply.before;
        duration = duration;
        current_rank = current_rank;
        partner_rank = root.value;
        nb_bytes_s = to_u32 nb_bytes;
        nb_bytes_r = bytes nb_bytes count.value;
        comm = lib.mpi.comm_c2f (fortran.comm_at comm.address);
        req = lib.mpi.request_c2f reply.request;
        tag = negsuc 0;
        required_thread_lvl = negsuc 0;
        provided_thread_lvl = negsuc 0;
        op_type = op_type;
        finished = false;
      }

  -- `MPI_Ireduce_fortran_wrapper`
  unfoldable pub mpi_ireduce : Ref → Ref → Ref → Ref → Ref → Reply lib.mpi → P I32
  mpi_ireduce count datatype op root comm reply = do
    current_rank ← get_current_rank
    register lib reply.env (ireduce_call count datatype op root comm reply current_rank)
    pure reply.ret
