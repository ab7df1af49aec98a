-- ===== src/Interpose/Fortran/Agreement.antt =====
-- How far the functions for Fortran do what those for C do.
use interpol.Base.{◌≡◌, refl}
use interpol.Types.{I32, MpiRank}
use interpol.Interpose.{Library, Reply, RawCall}
use interpol.Interpose.Fortran.{Ref, Handles}
use interpol.Interpose.Program.{Call, raw_of}
use interpol.Interpose.C.Management.{init_call, init_thread_call}
use interpol.Interpose.Fortran.Management as FManagement
use interpol.Interpose.C.PointToPoint.{send_call, recv_call, isend_call, irecv_call}
use interpol.Interpose.Fortran.PointToPoint as FPointToPoint
use interpol.Interpose.C.Synchronization.{barrier_call, ibarrier_call, wait_call}
use interpol.Interpose.Fortran.Synchronization as FSynchronization
use interpol.Interpose.C.Collectives.{ibcast_call, igather_call, iscatter_call, ireduce_call}
use interpol.Interpose.Fortran.Collectives as FCollectives

-- The calls of the Fortran functions, but for `MPI_Test`, with the references that they get.
pub data FortranCall : Type 0 where
  init : FortranCall
  init_thread : (required : Ref) → FortranCall
  send : (count datatype dest tag comm : Ref) → FortranCall
  recv : (count datatype source tag comm : Ref) → FortranCall
  isend : (count datatype dest tag comm : Ref) → FortranCall
  irecv : (count datatype source tag comm : Ref) → FortranCall
  barrier : (comm : Ref) → FortranCall
  ibarrier : (comm : Ref) → FortranCall
  wait : (request : Ref) → FortranCall
  ibcast : (count datatype root comm : Ref) → FortranCall
  igather : (sendcount sendtype recvcount recvtype root comm : Ref) → FortranCall
  iscatter : (sendcount sendtype recvcount recvtype root comm : Ref) → FortranCall
  ireduce : (count datatype op root comm : Ref) → FortranCall

module _ (lib : Library) (f : Handles lib.mpi) where
  unfoldable pub fortran_raw_of : FortranCall → Reply lib.mpi → MpiRank → RawCall
  fortran_raw_of FortranCall.init = FManagement.init_call lib
  fortran_raw_of (FortranCall.init_thread required) = FManagement.init_thread_call lib required
  fortran_raw_of (FortranCall.send count datatype dest tag comm) =
      FPointToPoint.send_call lib f count datatype dest tag comm
  fortran_raw_of (FortranCall.recv count datatype source tag comm) =
      FPointToPoint.recv_call lib f count datatype source tag comm
  fortran_raw_of (FortranCall.isend count datatype dest tag comm) =
      FPointToPoint.isend_call lib f count datatype dest tag comm
  fortran_raw_of (FortranCall.irecv count datatype source tag comm) =
      FPointToPoint.irecv_call lib f count datatype source tag comm
  fortran_raw_of (FortranCall.barrier comm) = FSynchronization.barrier_call lib f comm
  fortran_raw_of (FortranCall.ibarrier comm) = FSynchronization.ibarrier_call lib f comm
  fortran_raw_of (FortranCall.wait request) = FSynchronization.wait_call lib f request
  fortran_raw_of (FortranCall.ibcast count datatype root comm) =
      FCollectives.ibcast_call lib f count datatype root comm
  fortran_raw_of (FortranCall.igather sendcount sendtype recvcount recvtype root comm) =
      FCollectives.igather_call lib f sendcount sendtype recvcount recvtype root comm
  fortran_raw_of (FortranCall.iscatter sendcount sendtype recvcount recvtype root comm) =
      FCollectives.iscatter_call lib f sendcount sendtype recvcount recvtype root comm
  fortran_raw_of (FortranCall.ireduce count datatype op root comm) =
      FCollectives.ireduce_call lib f count datatype op root comm

  -- The call of C with the same arguments, as the code converts them: the integers and the datatypes
  -- from their values, the communicators and operations from their addresses.
  abbrev pub in_c : FortranCall → Call lib.mpi
  in_c FortranCall.init = Call.init
  in_c (FortranCall.init_thread required) = Call.init_thread required.value
  in_c (FortranCall.send count datatype dest tag comm) =
      Call.send count.value (f.type_f2c datatype.value) dest.value tag.value
        (f.comm_at comm.address)
  in_c (FortranCall.recv count datatype source tag comm) =
      Call.recv count.value (f.type_f2c datatype.value) source.value tag.value
        (f.comm_at comm.address)
  in_c (FortranCall.isend count datatype dest tag comm) =
      Call.isend count.value (f.type_f2c datatype.value) dest.value tag.value
        (f.comm_at comm.address)
  in_c (FortranCall.irecv count datatype source tag comm) =
      Call.irecv count.value (f.type_f2c datatype.value) source.value tag.value
        (f.comm_at comm.address)
  in_c (FortranCall.barrier comm) = Call.barrier (f.comm_at comm.address)
  in_c (FortranCall.ibarrier comm) = Call.ibarrier (f.comm_at comm.address)
  in_c (FortranCall.wait request) = Call.wait (f.request_f2c request.value)
  in_c (FortranCall.ibcast count datatype root comm) =
      Call.ibcast count.value (f.type_f2c datatype.value) root.value (f.comm_at comm.address)
  in_c (FortranCall.igather sendcount sendtype recvcount recvtype root comm) =
      Call.igather sendcount.value (f.type_f2c sendtype.value) recvcount.value
        (f.type_f2c recvtype.value) root.value (f.comm_at comm.address)
  in_c (FortranCall.iscatter sendcount sendtype recvcount recvtype root comm) =
      Call.iscatter sendcount.value (f.type_f2c sendtype.value) recvcount.value
        (f.type_f2c recvtype.value) root.value (f.comm_at comm.address)
  in_c (FortranCall.ireduce count datatype op root comm) =
      Call.ireduce count.value (f.type_f2c datatype.value) (f.op_at op.address) root.value
        (f.comm_at comm.address)

  -- Each function passes the struct that the C function passes for `in_c`.
  pub fortran_raw_of-in_c :
      ((v : I32) → lib.mpi.request_c2f (f.request_f2c v) ≡ v)
      → (call : FortranCall) (a : Reply lib.mpi) (rank : MpiRank)
      → fortran_raw_of call a rank ≡ raw_of lib (in_c call) a rank
  unfolding fortran_raw_of raw_of init_call init_thread_call send_call recv_call isend_call
      irecv_call barrier_call ibarrier_call wait_call ibcast_call igather_call iscatter_call
      ireduce_call FManagement.init_call FManagement.init_thread_call FPointToPoint.send_call
      FPointToPoint.recv_call FPointToPoint.isend_call FPointToPoint.irecv_call
      FSynchronization.barrier_call FSynchronization.ibarrier_call FSynchronization.wait_call
      FCollectives.ibcast_call FCollectives.igather_call FCollectives.iscatter_call
      FCollectives.ireduce_call
  fortran_raw_of-in_c back FortranCall.init a rank = refl
  fortran_raw_of-in_c back (FortranCall.init_thread required) a rank = refl
  fortran_raw_of-in_c back (FortranCall.send count datatype dest tag comm) a rank = refl
  fortran_raw_of-in_c back (FortranCall.recv count datatype source tag comm) a rank = refl
  fortran_raw_of-in_c back (FortranCall.isend count datatype dest tag comm) a rank = refl
  fortran_raw_of-in_c back (FortranCall.irecv count datatype source tag comm) a rank = refl
  fortran_raw_of-in_c back (FortranCall.barrier comm) a rank = refl
  fortran_raw_of-in_c back (FortranCall.ibarrier comm) a rank = refl
  fortran_raw_of-in_c back (FortranCall.wait request) a rank = rw (back request.value) refl
  fortran_raw_of-in_c back (FortranCall.ibcast count datatype root comm) a rank = refl
  fortran_raw_of-in_c back (FortranCall.igather sendcount sendtype recvcount recvtype root comm) a
        rank =
      refl
  fortran_raw_of-in_c back (FortranCall.iscatter sendcount sendtype recvcount recvtype root comm) a
        rank =
      refl
  fortran_raw_of-in_c back (FortranCall.ireduce count datatype op root comm) a rank = refl
