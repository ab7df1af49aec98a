-- ===== src/Interpose/Program.antt =====
-- A C program that calls the interposed functions between `MPI_Init` and `MPI_Finalize`.
pub mod Recorded
use interpol.Base.{not, List, [], ◌∷◌}
use interpol.Base.Int.{is_zero, to_u32}
use interpol.Types.{MpiRank, I32, MpiOp}
use interpol.Event.{Event}
use interpol.Interpose.{Mpi, Library, Reply, RawCall, P, ◌>>=◌, ◌>>◌, pure, elapsed, bytes, seconds}
use interpol.MpiEvents.Management.{new_mpi_init, new_mpi_init_thread}
use interpol.MpiEvents.PointToPoint.{new_mpi_send, new_mpi_recv, new_mpi_isend, new_mpi_irecv}
use interpol.MpiEvents.Synchronization.{
  new_mpi_test, new_mpi_wait, new_mpi_barrier, new_mpi_ibarrier,
}
use interpol.MpiEvents.Collectives.{
  new_mpi_ibcast, new_mpi_igather, new_mpi_ireduce, new_mpi_iscatter,
}
use interpol.Interpose.C.Management.{init_call, mpi_init, init_thread_call, mpi_init_thread}
use interpol.Interpose.C.PointToPoint.{
  send_call, mpi_send, recv_call, mpi_recv, isend_call, mpi_isend, irecv_call, mpi_irecv,
}
use interpol.Interpose.C.Synchronization.{
  barrier_call, mpi_barrier, ibarrier_call, mpi_ibarrier, test_call, mpi_test, wait_call, mpi_wait,
}
use interpol.Interpose.C.Collectives.{
  op_type_of, ibcast_call, mpi_ibcast, igather_call, mpi_igather, iscatter_call, mpi_iscatter,
  ireduce_call, mpi_ireduce,
}

-- A call with the arguments that the trace keeps; the buffers and the status are left out.
pub data Call (mpi : Mpi) : Type 0 where
  init : Call mpi
  init_thread : (required : I32) → Call mpi
  send recv isend irecv :
      (count : I32) (datatype : mpi.Datatype) (partner tag : I32) (comm : mpi.Comm) → Call mpi
  barrier ibarrier : (comm : mpi.Comm) → Call mpi
  test wait : (request : mpi.Request) → Call mpi
  ibcast : (count : I32) (datatype : mpi.Datatype) (root : I32) (comm : mpi.Comm) → Call mpi
  igather iscatter :
      (sendcount : I32) (sendtype : mpi.Datatype) (recvcount : I32) (recvtype : mpi.Datatype)
      (root : I32) (comm : mpi.Comm)
      → Call mpi
  ireduce :
      (count : I32) (datatype : mpi.Datatype) (op : mpi.Op) (root : I32) (comm : mpi.Comm)
      → Call mpi

module _ (lib : Library) where
  -- The interposed function of a call.
  unfoldable pub interposed : Call lib.mpi → Reply lib.mpi → P I32
  interposed Call.init reply = mpi_init lib reply
  interposed (Call.init_thread required) reply = mpi_init_thread lib required reply
  interposed (Call.send n t d tag c) reply = mpi_send lib n t d tag c reply
  interposed (Call.recv n t d tag c) reply = mpi_recv lib n t d tag c reply
  interposed (Call.isend n t d tag c) reply = mpi_isend lib n t d tag c reply
  interposed (Call.irecv n t d tag c) reply = mpi_irecv lib n t d tag c reply
  interposed (Call.barrier c) reply = mpi_barrier lib c reply
  interposed (Call.ibarrier c) reply = mpi_ibarrier lib c reply
  interposed (Call.test r) reply = mpi_test lib r reply
  interposed (Call.wait r) reply = mpi_wait lib r reply
  interposed (Call.ibcast n t root c) reply = mpi_ibcast lib n t root c reply
  interposed (Call.igather sn st rn rt root c) reply = mpi_igather lib sn st rn rt root c reply
  interposed (Call.iscatter sn st rn rt root c) reply = mpi_iscatter lib sn st rn rt root c reply
  interposed (Call.ireduce n t op root c) reply = mpi_ireduce lib n t op root c reply

  -- The struct that it passes to Rust.
  unfoldable pub raw_of : Call lib.mpi → Reply lib.mpi → MpiRank → RawCall
  raw_of Call.init = init_call lib
  raw_of (Call.init_thread required) = init_thread_call lib required
  raw_of (Call.send n t d tag c) = send_call lib n t d tag c
  raw_of (Call.recv n t d tag c) = recv_call lib n t d tag c
  raw_of (Call.isend n t d tag c) = isend_call lib n t d tag c
  raw_of (Call.irecv n t d tag c) = irecv_call lib n t d tag c
  raw_of (Call.barrier c) = barrier_call lib c
  raw_of (Call.ibarrier c) = ibarrier_call lib c
  raw_of (Call.test r) = test_call lib r
  raw_of (Call.wait r) = wait_call lib r
  raw_of (Call.ibcast n t root c) = ibcast_call lib n t root c
  raw_of (Call.igather sn st rn rt root c) = igather_call lib sn st rn rt root c
  raw_of (Call.iscatter sn st rn rt root c) = iscatter_call lib sn st rn rt root c
  raw_of (Call.ireduce n t op root c) = ireduce_call lib n t op root c

  -- The event that a trace is to hold for a call, from the call's arguments: the rank that the
  -- process has had since `MPI_Init`, the numbers of bytes, and the handles as Fortran integers.
  abbrev pub recorded : Call lib.mpi → Reply lib.mpi → MpiRank → Event
  recorded Call.init a rank =
      Event.init (new_mpi_init rank a.before (seconds lib.doubles a.timeofday))
  recorded (Call.init_thread required) a rank =
      Event.initthread
        (new_mpi_init_thread rank required a.provided a.before (seconds lib.doubles a.timeofday))
  recorded (Call.send n t d tag c) a rank = Event.send (
      new_mpi_send rank d (bytes (lib.mpi.type_size t) n) (lib.mpi.comm_c2f c) tag a.before
        (elapsed a.before a.after))
  recorded (Call.recv n t d tag c) a rank = Event.recv (
      new_mpi_recv rank d (bytes (lib.mpi.type_size t) n) (lib.mpi.comm_c2f c) tag a.before
        (elapsed a.before a.after))
  recorded (Call.isend n t d tag c) a rank = Event.isend (
      new_mpi_isend rank d (bytes (lib.mpi.type_size t) n) (lib.mpi.comm_c2f c)
        (lib.mpi.request_c2f a.request) tag a.before (elapsed a.before a.after))
  recorded (Call.irecv n t d tag c) a rank = Event.irecv (
      new_mpi_irecv rank d (bytes (lib.mpi.type_size t) n) (lib.mpi.comm_c2f c)
        (lib.mpi.request_c2f a.request) tag a.before (elapsed a.before a.after))
  recorded (Call.barrier c) a rank =
      Event.barrier (new_mpi_barrier rank (lib.mpi.comm_c2f c) a.before (elapsed a.before a.after))
  recorded (Call.ibarrier c) a rank = Event.ibarrier (
      new_mpi_ibarrier rank (lib.mpi.comm_c2f c) (lib.mpi.request_c2f a.request) a.before
        (elapsed a.before a.after))
  recorded (Call.test r) a rank = Event.test (
      new_mpi_test rank (lib.mpi.request_c2f r) (not (is_zero a.flag)) a.before
        (elapsed a.before a.after))
  recorded (Call.wait r) a rank =
      Event.wait (new_mpi_wait rank (lib.mpi.request_c2f r) a.before (elapsed a.before a.after))
  recorded (Call.ibcast n t root c) a rank = Event.ibcast (
      new_mpi_ibcast rank root (bytes (lib.mpi.type_size t) n) (lib.mpi.comm_c2f c)
        (lib.mpi.request_c2f a.request) a.before (elapsed a.before a.after))
  recorded (Call.igather sn st rn rt root c) a rank = Event.igather (
      new_mpi_igather rank root (bytes (lib.mpi.type_size st) sn) (bytes (lib.mpi.type_size rt) rn)
        (lib.mpi.comm_c2f c) (lib.mpi.request_c2f a.request) a.before (elapsed a.before a.after))
  recorded (Call.iscatter sn st rn rt root c) a rank = Event.iscatter (
      new_mpi_iscatter rank root (bytes (lib.mpi.type_size st) sn) (bytes (lib.mpi.type_size rt) rn)
        (lib.mpi.comm_c2f c) (lib.mpi.request_c2f a.request) a.before (elapsed a.before a.after))
  recorded (Call.ireduce n t op root c) a rank = Event.ireduce (
      new_mpi_ireduce rank root (to_u32 (lib.mpi.type_size t)) (lib.reads (op_type_of lib.mpi op))
        (lib.mpi.comm_c2f c) (lib.mpi.request_c2f a.request) a.before (elapsed a.before a.after))

  -- The rank of the process from a call on.
  abbrev pub rank_from : Call lib.mpi → Reply lib.mpi → MpiRank → MpiRank
  rank_from Call.init a rank = a.rank
  rank_from (Call.init_thread required) a rank = a.rank
  rank_from call a rank = rank

  -- One call after the other, with what the program gets back from each.
  unfoldable pub run_calls : List (Call lib.mpi × Reply lib.mpi) → P (List I32)
  run_calls [] = pure []
  run_calls ((call, a) ∷ calls) = do
    code ← interposed call a
    codes ← run_calls calls
    pure (code ∷ codes)

  abbrev pub codes_of : List (Call lib.mpi × Reply lib.mpi) → List I32
  codes_of [] = []
  codes_of ((call, a) ∷ calls) = a.ret ∷ codes_of calls

  abbrev pub recorded_all : List (Call lib.mpi × Reply lib.mpi) → MpiRank → List Event
  recorded_all [] rank = []
  recorded_all ((call, a) ∷ calls) rank =
      recorded call a (rank_from call a rank) ∷ recorded_all calls (rank_from call a rank)

  abbrev pub rank_after : List (Call lib.mpi × Reply lib.mpi) → MpiRank → MpiRank
  rank_after [] rank = rank
  rank_after ((call, a) ∷ calls) rank = rank_after calls (rank_from call a rank)
