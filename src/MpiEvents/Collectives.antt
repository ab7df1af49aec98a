-- ===== src/MpiEvents/Collectives.antt =====
-- interpol-rs/src/mpi_events/collectives/*.rs: the structs of the non-blocking collectives, and
-- their `new`.
use interpol.Types.{MpiComm, MpiOp, MpiRank, MpiReq, Tsc, U32}

pub record MpiIbcast : Type 0 where
  pub current_rank : MpiRank
  pub partner_rank : MpiRank
  pub nb_bytes : U32
  pub comm : MpiComm
  pub req : MpiReq
  pub tsc : Tsc
  pub duration : Tsc

pub record MpiIgather : Type 0 where
  pub current_rank : MpiRank
  pub partner_rank : MpiRank
  pub nb_bytes_send : U32
  pub nb_bytes_recv : U32
  pub comm : MpiComm
  pub req : MpiReq
  pub tsc : Tsc
  pub duration : Tsc

pub record MpiIreduce : Type 0 where
  pub current_rank : MpiRank
  pub partner_rank : MpiRank
  pub nb_bytes : U32
  pub op_type : MpiOp
  pub comm : MpiComm
  pub req : MpiReq
  pub tsc : Tsc
  pub duration : Tsc

pub record MpiIscatter : Type 0 where
  pub current_rank : MpiRank
  pub partner_rank : MpiRank
  pub nb_bytes_send : U32
  pub nb_bytes_recv : U32
  pub comm : MpiComm
  pub req : MpiReq
  pub tsc : Tsc
  pub duration : Tsc

-- `MpiIbcast::new`
unfoldable pub new_mpi_ibcast : MpiRank → MpiRank → U32 → MpiComm → MpiReq → Tsc → Tsc → MpiIbcast
new_mpi_ibcast current_rank partner_rank nb_bytes comm req tsc duration = record {
  current_rank = current_rank;
  partner_rank = partner_rank;
  nb_bytes = nb_bytes;
  comm = comm;
  req = req;
  tsc = tsc;
  duration = duration;
}

-- `MpiIgather::new`
unfoldable pub new_mpi_igather :
    MpiRank → MpiRank → U32 → U32 → MpiComm → MpiReq → Tsc → Tsc → MpiIgather
new_mpi_igather current_rank partner_rank nb_bytes_send nb_bytes_recv comm req tsc duration =
    record {
      current_rank = current_rank;
      partner_rank = partner_rank;
      nb_bytes_send = nb_bytes_send;
      nb_bytes_recv = nb_bytes_recv;
      comm = comm;
      req = req;
      tsc = tsc;
      duration = duration;
    }

-- `MpiIreduce::new`
unfoldable pub new_mpi_ireduce :
    MpiRank → MpiRank → U32 → MpiOp → MpiComm → MpiReq → Tsc → Tsc → MpiIreduce
new_mpi_ireduce current_rank partner_rank nb_bytes op_type comm req tsc duration = record {
  current_rank = current_rank;
  partner_rank = partner_rank;
  nb_bytes = nb_bytes;
  op_type = op_type;
  comm = comm;
  req = req;
  tsc = tsc;
  duration = duration;
}

-- `MpiIscatter::new`
unfoldable pub new_mpi_iscatter :
    MpiRank → MpiRank → U32 → U32 → MpiComm → MpiReq → Tsc → Tsc → MpiIscatter
new_mpi_iscatter current_rank partner_rank nb_bytes_send nb_bytes_recv comm req tsc duration =
    record {
      current_rank = current_rank;
      partner_rank = partner_rank;
      nb_bytes_send = nb_bytes_send;
      nb_bytes_recv = nb_bytes_recv;
      comm = comm;
      req = req;
      tsc = tsc;
      duration = duration;
    }
