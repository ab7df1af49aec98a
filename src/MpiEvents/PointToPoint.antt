-- ===== src/MpiEvents/PointToPoint.antt =====
-- interpol-rs/src/mpi_events/point_to_point/*.rs: the structs of the sends and receives, and their
-- `new`.
use interpol.Types.{MpiComm, MpiRank, MpiReq, MpiTag, Tsc, U32}

pub record MpiSend : Type 0 where
  pub current_rank : MpiRank
  pub partner_rank : MpiRank
  pub nb_bytes : U32
  pub comm : MpiComm
  pub tag : MpiTag
  pub tsc : Tsc
  pub duration : Tsc

pub record MpiRecv : Type 0 where
  pub current_rank : MpiRank
  pub partner_rank : MpiRank
  pub nb_bytes : U32
  pub comm : MpiComm
  pub tag : MpiTag
  pub tsc : Tsc
  pub duration : Tsc

pub record MpiIsend : Type 0 where
  pub current_rank : MpiRank
  pub partner_rank : MpiRank
  pub nb_bytes : U32
  pub comm : MpiComm
  pub req : MpiReq
  pub tag : MpiTag
  pub tsc : Tsc
  pub duration : Tsc

pub record MpiIrecv : Type 0 where
  pub current_rank : MpiRank
  pub partner_rank : MpiRank
  pub nb_bytes : U32
  pub comm : MpiComm
  pub req : MpiReq
  pub tag : MpiTag
  pub tsc : Tsc
  pub duration : Tsc

-- `MpiSend::new`
unfoldable pub new_mpi_send : MpiRank → MpiRank → U32 → MpiComm → MpiTag → Tsc → Tsc → MpiSend
new_mpi_send current_rank partner_rank nb_bytes comm tag tsc duration = record {
  current_rank = current_rank;
  partner_rank = partner_rank;
  nb_bytes = nb_bytes;
  comm = comm;
  tag = tag;
  tsc = tsc;
  duration = duration;
}

-- `MpiRecv::new`
unfoldable pub new_mpi_recv : MpiRank → MpiRank → U32 → MpiComm → MpiTag → Tsc → Tsc → MpiRecv
new_mpi_recv current_rank partner_rank nb_bytes comm tag tsc duration = record {
  current_rank = current_rank;
  partner_rank = partner_rank;
  nb_bytes = nb_bytes;
  comm = comm;
  tag = tag;
  tsc = tsc;
  duration = duration;
}

-- `MpiIsend::new`
unfoldable pub new_mpi_isend :
    MpiRank → MpiRank → U32 → MpiComm → MpiReq → MpiTag → Tsc → Tsc → MpiIsend
new_mpi_isend current_rank partner_rank nb_bytes comm req tag tsc duration = record {
  current_rank = current_rank;
  partner_rank = partner_rank;
  nb_bytes = nb_bytes;
  comm = comm;
  req = req;
  tag = tag;
  tsc = tsc;
  duration = duration;
}

-- `MpiIrecv::new`
unfoldable pub new_mpi_irecv :
    MpiRank → MpiRank → U32 → MpiComm → MpiReq → MpiTag → Tsc → Tsc → MpiIrecv
new_mpi_irecv current_rank partner_rank nb_bytes comm req tag tsc duration = record {
  current_rank = current_rank;
  partner_rank = partner_rank;
  nb_bytes = nb_bytes;
  comm = comm;
  req = req;
  tag = tag;
  tsc = tsc;
  duration = duration;
}
