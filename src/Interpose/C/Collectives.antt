-- ===== src/Interpose/C/Collectives.antt =====
-- The collective functions of src/interpol-c.c.
use interpol.Base.{false, if◌then◌else◌}
use interpol.Base.Int.{ℤ, pos, negsuc, to_u32}
use interpol.Types.Repr.{mpi_op_repr}
use interpol.Types.{MpiOp, I32, MpiRank, MpiCallType}
use interpol.Interpose.{
  Library, RawCall, Reply, P, ◌>>=◌, ◌>>◌, pure, get_current_rank, register, elapsed, bytes,
  minus_one, Mpi, Predefined,
}

-- The chain of tests on `op`, with -1 for an operation that is none of the predefined ones.
unfoldable pub op_type_of : (mpi : Mpi) → mpi.Op → ℤ
unfolding mpi_op_repr
op_type_of mpi op =
    if mpi.is_op op Predefined.mpi_max
    then pos (mpi_op_repr MpiOp.max)
    else if mpi.is_op op Predefined.mpi_min
    then pos (mpi_op_repr MpiOp.min)
    else if mpi.is_op op Predefined.mpi_sum
    then pos (mpi_op_repr MpiOp.sum)
    else if mpi.is_op op Predefined.mpi_prod
    then pos (mpi_op_repr MpiOp.prod)
    else if mpi.is_op op Predefined.mpi_land
    then pos (mpi_op_repr MpiOp.land)
    else if mpi.is_op op Predefined.mpi_band
    then pos (mpi_op_repr MpiOp.band)
    else if mpi.is_op op Predefined.mpi_lor
    then pos (mpi_op_repr MpiOp.lor)
    else if mpi.is_op op Predefined.mpi_bor
    then pos (mpi_op_repr MpiOp.bor)
    else if mpi.is_op op Predefined.mpi_lxor
    then pos (mpi_op_repr MpiOp.lxor)
    else if mpi.is_op op Predefined.mpi_bxor
    then pos (mpi_op_repr MpiOp.bxor)
    else if mpi.is_op op Predefined.mpi_maxloc
    then pos (mpi_op_repr MpiOp.maxloc)
    else if mpi.is_op op Predefined.mpi_minloc
    then pos (mpi_op_repr MpiOp.minloc)
    else if mpi.is_op op Predefined.mpi_replace
    then pos (mpi_op_repr MpiOp.replace)
    else if mpi.is_op op Predefined.mpi_op_null
    then pos (mpi_op_repr MpiOp.opnull)
    else if mpi.is_op op Predefined.mpi_no_op
    then pos (mpi_op_repr MpiOp.opnull)
    else negsuc 0

module _ (lib : Library) where
  unfoldable pub ibcast_call :
      I32 → lib.mpi.Datatype → I32 → lib.mpi.Comm → Reply lib.mpi → MpiRank → RawCall
  ibcast_call count datatype root comm reply current_rank =
      let duration = elapsed reply.before reply.after in
      let nb_bytes = lib.mpi.type_size datatype in
      record {
        kind = MpiCallType.ibcast;
        time = minus_one;
        tsc = reply.before;
        duration = duration;
        current_rank = current_rank;
        partner_rank = root;
        nb_bytes_s = bytes nb_bytes count;
        nb_bytes_r = 0;
        comm = lib.mpi.comm_c2f comm;
        req = lib.mpi.request_c2f reply.request;
        tag = negsuc 0;
        required_thread_lvl = negsuc 0;
        provided_thread_lvl = negsuc 0;
        op_type = negsuc 0;
        finished = false;
      }

  -- `MPI_Ibcast`
  unfoldable pub mpi_ibcast : I32 → lib.mpi.Datatype → I32 → lib.mpi.Comm → Reply lib.mpi → P I32
  mpi_ibcast count datatype root comm reply = do
    current_rank ← get_current_rank
    register lib reply.env (ibcast_call count datatype root comm reply current_rank)
    pure reply.ret

  unfoldable pub igather_call :
      I32
      → lib.mpi.Datatype
      → I32
      → lib.mpi.Datatype
      → I32
      → lib.mpi.Comm
      → Reply lib.mpi
      → MpiRank
      → RawCall
  igather_call sendcount sendtype recvcount recvtype root comm reply current_rank =
      let duration = elapsed reply.before reply.after in
      let nb_bytes_send = lib.mpi.type_size sendtype in
      let nb_bytes_recv = lib.mpi.type_size recvtype in
      record {
        kind = MpiCallType.igather;
        time = minus_one;
        tsc = reply.before;
        duration = duration;
        current_rank = current_rank;
        partner_rank = root;
        nb_bytes_s = bytes nb_bytes_send sendcount;
        nb_bytes_r = bytes nb_bytes_recv recvcount;
        comm = lib.mpi.comm_c2f comm;
        req = lib.mpi.request_c2f reply.request;
        tag = negsuc 0;
        required_thread_lvl = negsuc 0;
        provided_thread_lvl = negsuc 0;
        op_type = negsuc 0;
        finished = false;
      }

  -- `MPI_Igather`
  unfoldable pub mpi_igather :
      I32 → lib.mpi.Datatype → I32 → lib.mpi.Datatype → I32 → lib.mpi.Comm → Reply lib.mpi → P I32
  mpi_igather sendcount sendtype recvcount recvtype root comm reply = do
    current_rank ← get_current_rank
    register lib reply.env
        (igather_call sendcount sendtype recvcount recvtype root comm reply current_rank)
    pure reply.ret

  unfoldable pub iscatter_call :
      I32
      → lib.mpi.Datatype
      → I32
      → lib.mpi.Datatype
      → I32
      → lib.mpi.Comm
      → Reply lib.mpi
      → MpiRank
      → RawCall
  iscatter_call sendcount sendtype recvcount recvtype root comm reply current_rank =
      let duration = elapsed reply.before reply.after in
      let nb_bytes_send = lib.mpi.type_size sendtype in
      let nb_bytes_recv = lib.mpi.type_size recvtype in
      record {
        kind = MpiCallType.iscatter;
        time = minus_one;
        tsc = reply.before;
        duration = duration;
        current_rank = current_rank;
        partner_rank = root;
        nb_bytes_s = bytes nb_bytes_send sendcount;
        nb_bytes_r = bytes nb_bytes_recv recvcount;
        comm = lib.mpi.comm_c2f comm;
        req = lib.mpi.request_c2f reply.request;
        tag = negsuc 0;
        required_thread_lvl = negsuc 0;
        provided_thread_lvl = negsuc 0;
        op_type = negsuc 0;
        finished = false;
      }

  -- `MPI_Iscatter`
  unfoldable pub mpi_iscatter :
      I32 → lib.mpi.Datatype → I32 → lib.mpi.Datatype → I32 → lib.mpi.Comm → Reply lib.mpi → P I32
  mpi_iscatter sendcount sendtype recvcount recvtype root comm reply = do
    current_rank ← get_current_rank
    register lib reply.env
        (iscatter_call sendcount sendtype recvcount recvtype root comm reply current_rank)
    pure reply.ret

  unfoldable pub ireduce_call :
      I32 → lib.mpi.Datatype → lib.mpi.Op → I32 → lib.mpi.Comm → Reply lib.mpi → MpiRank → RawCall
  ireduce_call count datatype op root comm reply current_rank =
      let duration = elapsed reply.before reply.after in
      let nb_bytes = lib.mpi.type_size datatype in
      let op_type = op_type_of lib.mpi op in
      record {
        kind = MpiCallType.ireduce;
        time = minus_one;
        tsc = reply.before;
        duration = duration;
        current_rank = current_rank;
        partner_rank = root;
        nb_bytes_s = to_u32 nb_bytes;
        nb_bytes_r = bytes nb_bytes count;
        comm = lib.mpi.comm_c2f comm;
        req = lib.mpi.request_c2f reply.request;
        tag = negsuc 0;
        required_thread_lvl = negsuc 0;
        provided_thread_lvl = negsuc 0;
        op_type = op_type;
        finished = false;
      }

  -- `MPI_Ireduce`
  unfoldable pub mpi_ireduce :
      I32 → lib.mpi.Datatype → lib.mpi.Op → I32 → lib.mpi.Comm → Reply lib.mpi → P I32
  mpi_ireduce count datatype op root comm reply = do
    current_rank ← get_current_rank
    register lib reply.env (ireduce_call count datatype op root comm reply current_rank)
    pure reply.ret
