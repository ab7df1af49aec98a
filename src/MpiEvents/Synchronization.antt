-- ===== src/MpiEvents/Synchronization.antt =====
-- interpol-rs/src/mpi_events/synchronization/*.rs: the structs of tests, waits and barriers, and
-- their `new`.
use interpol.Base.{Bool}
use interpol.Types.{MpiComm, MpiRank, MpiReq, Tsc}

pub record MpiTest : Type 0 where
  pub current_rank : MpiRank
  pub req : MpiReq
  pub finished : Bool
  pub tsc : Tsc
  pub duration : Tsc

pub record MpiWait : Type 0 where
  pub current_rank : MpiRank
  pub req : MpiReq
  pub tsc : Tsc
  pub duration : Tsc

pub record MpiBarrier : Type 0 where
  pub current_rank : MpiRank
  pub comm : MpiComm
  pub tsc : Tsc
  pub duration : Tsc

pub record MpiIbarrier : Type 0 where
  pub current_rank : MpiRank
  pub comm : MpiComm
  pub req : MpiReq
  pub tsc : Tsc
  pub duration : Tsc

-- `MpiTest::new`
unfoldable pub new_mpi_test : MpiRank → MpiReq → Bool → Tsc → Tsc → MpiTest
new_mpi_test current_rank req finished tsc duration = record {
  current_rank = current_rank;
  req = req;
  finished = finished;
  tsc = tsc;
  duration = duration;
}

-- `MpiWait::new`
unfoldable pub new_mpi_wait : MpiRank → MpiReq → Tsc → Tsc → MpiWait
new_mpi_wait current_rank req tsc duration = record {
  current_rank = current_rank;
  req = req;
  tsc = tsc;
  duration = duration;
}

-- `MpiBarrier::new`
unfoldable pub new_mpi_barrier : MpiRank → MpiComm → Tsc → Tsc → MpiBarrier
new_mpi_barrier current_rank comm tsc duration = record {
  current_rank = current_rank;
  comm = comm;
  tsc = tsc;
  duration = duration;
}

-- `MpiIbarrier::new`
unfoldable pub new_mpi_ibarrier : MpiRank → MpiComm → MpiReq → Tsc → Tsc → MpiIbarrier
new_mpi_ibarrier current_rank comm req tsc duration = record {
  current_rank = current_rank;
  comm = comm;
  req = req;
  tsc = tsc;
  duration = duration;
}
