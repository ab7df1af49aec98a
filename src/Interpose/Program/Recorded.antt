-- ===== src/Interpose/Program/Recorded.antt =====
-- What a call of an interposed function comes to: one call of `register_mpi_call`.
use interpol.Base.{◌≡◌, ◌≢◌, refl}
use interpol.Types.{MpiRank, MpiCallType}
use interpol.Event.{box}
use interpol.Dispatch.Record.{event_of}
use interpol.Interpose.{Library, Reply, received, ◌>>◌, pure, register, Process}
use interpol.Interpose.C.Management.{init_call, mpi_init, init_thread_call, mpi_init_thread}
use interpol.Interpose.C.PointToPoint.{
  send_call, mpi_send, recv_call, mpi_recv, isend_call, mpi_isend, irecv_call, mpi_irecv,
}
use interpol.Interpose.C.Synchronization.{
  barrier_call, mpi_barrier, ibarrier_call, mpi_ibarrier, test_call, mpi_test, wait_call, mpi_wait,
}
use interpol.Interpose.C.Collectives.{
  ibcast_call, mpi_ibcast, igather_call, mpi_igather, iscatter_call, mpi_iscatter, ireduce_call,
  mpi_ireduce,
}
use interpol.Interpose.Program.{Call, interposed, raw_of, recorded, rank_from}

module _ (lib : Library) where
  -- The wrapper registers its struct and returns what the PMPI function returned.
  pub interposed-eq :
      (call : Call lib.mpi) (a : Reply lib.mpi) (p : Process)
      → interposed lib call a p
        ≡ (register lib a.env (raw_of lib call a (rank_from lib call a p.current_rank))
              >> pure a.ret)
            (record p { current_rank = rank_from lib call a p.current_rank })
  unfolding interposed raw_of mpi_init mpi_init_thread mpi_send mpi_recv mpi_isend mpi_irecv
      mpi_barrier mpi_ibarrier mpi_test mpi_wait mpi_ibcast mpi_igather mpi_iscatter mpi_ireduce
  interposed-eq Call.init reply p = refl
  interposed-eq (Call.init_thread a) reply p = refl
  interposed-eq (Call.send a b c d e) reply p = refl
  interposed-eq (Call.recv a b c d e) reply p = refl
  interposed-eq (Call.isend a b c d e) reply p = refl
  interposed-eq (Call.irecv a b c d e) reply p = refl
  interposed-eq (Call.barrier a) reply p = refl
  interposed-eq (Call.ibarrier a) reply p = refl
  interposed-eq (Call.test a) reply p = refl
  interposed-eq (Call.wait a) reply p = refl
  interposed-eq (Call.ibcast a b c d) reply p = refl
  interposed-eq (Call.igather a b c d e f) reply p = refl
  interposed-eq (Call.iscatter a b c d e f) reply p = refl
  interposed-eq (Call.ireduce a b c d e) reply p = refl

  -- It is never taken for a finalize.
  pub raw_of-ne-finalize :
      (call : Call lib.mpi) (a : Reply lib.mpi) (rank : MpiRank)
      → (received lib.reads (raw_of lib call a rank)).kind ≢ MpiCallType.finalize
  unfolding raw_of init_call init_thread_call send_call recv_call isend_call irecv_call barrier_call
      ibarrier_call test_call wait_call ibcast_call igather_call iscatter_call ireduce_call
  raw_of-ne-finalize Call.init reply rank finalize = cc
  raw_of-ne-finalize (Call.init_thread a) reply rank finalize = cc
  raw_of-ne-finalize (Call.send a b c d e) reply rank finalize = cc
  raw_of-ne-finalize (Call.recv a b c d e) reply rank finalize = cc
  raw_of-ne-finalize (Call.isend a b c d e) reply rank finalize = cc
  raw_of-ne-finalize (Call.irecv a b c d e) reply rank finalize = cc
  raw_of-ne-finalize (Call.barrier a) reply rank finalize = cc
  raw_of-ne-finalize (Call.ibarrier a) reply rank finalize = cc
  raw_of-ne-finalize (Call.test a) reply rank finalize = cc
  raw_of-ne-finalize (Call.wait a) reply rank finalize = cc
  raw_of-ne-finalize (Call.ibcast a b c d) reply rank finalize = cc
  raw_of-ne-finalize (Call.igather a b c d e f) reply rank finalize = cc
  raw_of-ne-finalize (Call.iscatter a b c d e f) reply rank finalize = cc
  raw_of-ne-finalize (Call.ireduce a b c d e) reply rank finalize = cc

  pub event_of-raw_of :
      (call : Call lib.mpi) (a : Reply lib.mpi) (rank : MpiRank)
      → event_of (received lib.reads (raw_of lib call a rank)) ≡ recorded lib call a rank
  unfolding raw_of event_of box init_call init_thread_call send_call recv_call isend_call irecv_call
      barrier_call ibarrier_call test_call wait_call ibcast_call igather_call iscatter_call
      ireduce_call
  event_of-raw_of Call.init reply rank = refl
  event_of-raw_of (Call.init_thread a) reply rank = refl
  event_of-raw_of (Call.send a b c d e) reply rank = refl
  event_of-raw_of (Call.recv a b c d e) reply rank = refl
  event_of-raw_of (Call.isend a b c d e) reply rank = refl
  event_of-raw_of (Call.irecv a b c d e) reply rank = refl
  event_of-raw_of (Call.barrier a) reply rank = refl
  event_of-raw_of (Call.ibarrier a) reply rank = refl
  event_of-raw_of (Call.test a) reply rank = refl
  event_of-raw_of (Call.wait a) reply rank = refl
  event_of-raw_of (Call.ibcast a b c d) reply rank = refl
  event_of-raw_of (Call.igather a b c d e f) reply rank = refl
  event_of-raw_of (Call.iscatter a b c d e f) reply rank = refl
  event_of-raw_of (Call.ireduce a b c d e) reply rank = refl
