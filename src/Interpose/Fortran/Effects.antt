-- ===== src/Interpose/Fortran/Effects.antt =====
-- A call of a function for Fortran has the effect of a call of the C function.
use interpol.Base.{◌≡◌, ◌∙◌, refl, sym, ap}
use interpol.Types.{I32}
use interpol.Interpose.{Library, Reply, P, Process, ◌>>◌, pure, register}
use interpol.Aggregate.{SortEnvironment}
use interpol.Interpose.C.Management.{mpi_finalize, finalize_call}
use interpol.Interpose.Fortran.{Handles}
use interpol.Interpose.Program.{interposed, rank_from}
use interpol.Interpose.Program.Recorded.{interposed-eq}
use interpol.Interpose.Fortran.Agreement.{FortranCall, fortran_raw_of, in_c, fortran_raw_of-in_c}
use interpol.Interpose.Fortran.Management as FManagement
use interpol.Interpose.Fortran.PointToPoint as FPointToPoint
use interpol.Interpose.Fortran.Synchronization as FSynchronization
use interpol.Interpose.Fortran.Collectives as FCollectives

module _ (lib : Library) (f : Handles lib.mpi) where
  -- The function of a call; what it stores in `*ierr` is its result.
  unfoldable pub fortran_interposed : FortranCall → Reply lib.mpi → P I32
  fortran_interposed FortranCall.init reply = FManagement.mpi_init lib reply
  fortran_interposed (FortranCall.init_thread required) reply =
      FManagement.mpi_init_thread lib required reply
  fortran_interposed (FortranCall.send count datatype dest tag comm) reply =
      FPointToPoint.mpi_send lib f count datatype dest tag comm reply
  fortran_interposed (FortranCall.recv count datatype source tag comm) reply =
      FPointToPoint.mpi_recv lib f count datatype source tag comm reply
  fortran_interposed (FortranCall.isend count datatype dest tag comm) reply =
      FPointToPoint.mpi_isend lib f count datatype dest tag comm reply
  fortran_interposed (FortranCall.irecv count datatype source tag comm) reply =
      FPointToPoint.mpi_irecv lib f count datatype source tag comm reply
  fortran_interposed (FortranCall.barrier comm) reply =
      FSynchronization.mpi_barrier lib f comm reply
  fortran_interposed (FortranCall.ibarrier comm) reply =
      FSynchronization.mpi_ibarrier lib f comm reply
  fortran_interposed (FortranCall.wait request) reply =
      FSynchronization.mpi_wait lib f request reply
  fortran_interposed (FortranCall.ibcast count datatype root comm) reply =
      FCollectives.mpi_ibcast lib f count datatype root comm reply
  fortran_interposed (FortranCall.igather sendcount sendtype recvcount recvtype root comm) reply =
      FCollectives.mpi_igather lib f sendcount sendtype recvcount recvtype root comm reply
  fortran_interposed (FortranCall.iscatter sendcount sendtype recvcount recvtype root comm) reply =
      FCollectives.mpi_iscatter lib f sendcount sendtype recvcount recvtype root comm reply
  fortran_interposed (FortranCall.ireduce count datatype op root comm) reply =
      FCollectives.mpi_ireduce lib f count datatype op root comm reply

  fortran_interposed-eq :
      (call : FortranCall) (a : Reply lib.mpi) (p : Process)
      → fortran_interposed call a p
        ≡ (register lib a.env
                (fortran_raw_of lib f call a (rank_from lib (in_c lib f call) a p.current_rank))
              >> pure a.ret)
            (record p { current_rank = rank_from lib (in_c lib f call) a p.current_rank })
  unfolding fortran_interposed fortran_raw_of FManagement.mpi_init FManagement.mpi_init_thread
      FPointToPoint.mpi_send FPointToPoint.mpi_recv FPointToPoint.mpi_isend FPointToPoint.mpi_irecv
      FSynchronization.mpi_barrier FSynchronization.mpi_ibarrier FSynchronization.mpi_wait
      FCollectives.mpi_ibcast FCollectives.mpi_igather FCollectives.mpi_iscatter
      FCollectives.mpi_ireduce
  fortran_interposed-eq FortranCall.init reply p = refl
  fortran_interposed-eq (FortranCall.init_thread required) reply p = refl
  fortran_interposed-eq (FortranCall.send count datatype dest tag comm) reply p = refl
  fortran_interposed-eq (FortranCall.recv count datatype source tag comm) reply p = refl
  fortran_interposed-eq (FortranCall.isend count datatype dest tag comm) reply p = refl
  fortran_interposed-eq (FortranCall.irecv count datatype source tag comm) reply p = refl
  fortran_interposed-eq (FortranCall.barrier comm) reply p = refl
  fortran_interposed-eq (FortranCall.ibarrier comm) reply p = refl
  fortran_interposed-eq (FortranCall.wait request) reply p = refl
  fortran_interposed-eq (FortranCall.ibcast count datatype root comm) reply p = refl
  fortran_interposed-eq (FortranCall.igather sendcount sendtype recvcount recvtype root comm) reply
        p =
      refl
  fortran_interposed-eq (FortranCall.iscatter sendcount sendtype recvcount recvtype root comm) reply
        p =
      refl
  fortran_interposed-eq (FortranCall.ireduce count datatype op root comm) reply p = refl

  finalize-in_c :
      (sorting : SortEnvironment) (a : Reply lib.mpi) (p : Process)
      → FManagement.mpi_finalize lib sorting a p ≡ mpi_finalize lib sorting a p
  unfolding mpi_finalize finalize_call FManagement.mpi_finalize FManagement.finalize_call
  finalize-in_c sorting a p = refl

  -- If the MPI library gives back a Fortran request that it has converted: a call of any of the
  -- functions for Fortran but `MPI_Test` returns what the C function with the values of the
  -- arguments returns, and leaves the same state of the tracing (the rank, the vector, the files
  -- and the streams), where however the communicator and the operation are the handles that the
  -- addresses of the arguments make when they are cast. What the functions store in the program's
  -- buffers and its status, which they do not do alike, is not part of this.
  pub fortran_interposed-in_c :
      ((v : I32) → lib.mpi.request_c2f (f.request_f2c v) ≡ v)
      → (call : FortranCall) (sorting : SortEnvironment) (a : Reply lib.mpi) (p : Process)
      → (fortran_interposed call a p ≡ interposed lib (in_c lib f call) a p)
        × (FManagement.mpi_finalize lib sorting a p ≡ mpi_finalize lib sorting a p)
  fortran_interposed-in_c back call sorting a p =
      let rank = rank_from lib (in_c lib f call) a p.current_rank in
      (
        fortran_interposed-eq call a p
            ∙ ap (λ raw. (register lib a.env raw >> pure a.ret) (record p { current_rank = rank }))
                (fortran_raw_of-in_c lib f back call a rank)
            ∙ sym (interposed-eq lib (in_c lib f call) a p),
        finalize-in_c sorting a p,
      )
