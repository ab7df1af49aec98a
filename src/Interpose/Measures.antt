-- ===== src/Interpose/Measures.antt =====
-- The numbers that the interposed functions measure and compute.
use interpol.Base.{◌≡◌, ◌≢◌, refl, ap, ℕ, ◌+◌, ◌*◌, ◌%◌, ◌^◌, ◌<◌, arith, ◌∙◌}
use interpol.Base.Int.{pos}
use interpol.Types.{I32, MpiRank, U32}
use interpol.Event.{Event}
use interpol.MpiEvents.Collectives.{new_mpi_ibcast}
use interpol.Interpose.{Mpi, Library, Reply, elapsed, bytes, received}
use interpol.Dispatch.Record.{event_of}
use interpol.Interpose.C.Management.{init_call, init_thread_call}
use interpol.Interpose.C.PointToPoint.{send_call, recv_call, isend_call, irecv_call}
use interpol.Interpose.C.Synchronization.{barrier_call, ibarrier_call, test_call, wait_call}
use interpol.Interpose.C.Collectives.{ibcast_call, igather_call, iscatter_call, ireduce_call}
use interpol.Interpose.Program.{Call, raw_of}
use interpol.Interpose.Program.Recorded.{event_of-raw_of}

elapsed-add :
    (before d : ℕ) → before < 2 ^ 64 → d < 2 ^ 64 → elapsed before ((before + d) % 2 ^ 64) ≡ d
unfolding elapsed
elapsed-add before d h k = omega arith

pub bytes-eq-mul :
    (size count : ℕ) → size * count < 2 ^ 32 → bytes (pos size) (pos count) ≡ size * count
unfolding bytes
bytes-eq-mul size count h = omega arith

-- What is measured of a call that takes `d` cycles: nothing of the two initialisations.
abbrev pub duration_of : {mpi : Mpi} → Call mpi → ℕ → ℕ
duration_of Call.init d = 0
duration_of (Call.init_thread required) d = 0
duration_of call d = d

module _ (lib : Library) where
  -- A duration of less than 2^64 cycles is measured exactly, also if the counter wraps around.
  raw_of-duration :
      (call : Call lib.mpi) (a : Reply lib.mpi) (rank : MpiRank) (d : ℕ)
      → a.before < 2 ^ 64
      → d < 2 ^ 64
      → a.after ≡ (a.before + d) % 2 ^ 64
      → (raw_of lib call a rank).duration ≡ duration_of call d
  unfolding raw_of init_call init_thread_call send_call recv_call isend_call irecv_call barrier_call
      ibarrier_call test_call wait_call ibcast_call igather_call iscatter_call ireduce_call
  raw_of-duration Call.init a rank d h small e = refl
  raw_of-duration (Call.init_thread n) a rank d h small e = refl
  raw_of-duration (Call.send n t k tag c) a rank d h small e =
      ap (elapsed a.before) e ∙ elapsed-add a.before d h small
  raw_of-duration (Call.recv n t k tag c) a rank d h small e =
      ap (elapsed a.before) e ∙ elapsed-add a.before d h small
  raw_of-duration (Call.isend n t k tag c) a rank d h small e =
      ap (elapsed a.before) e ∙ elapsed-add a.before d h small
  raw_of-duration (Call.irecv n t k tag c) a rank d h small e =
      ap (elapsed a.before) e ∙ elapsed-add a.before d h small
  raw_of-duration (Call.barrier n) a rank d h small e =
      ap (elapsed a.before) e ∙ elapsed-add a.before d h small
  raw_of-duration (Call.ibarrier n) a rank d h small e =
      ap (elapsed a.before) e ∙ elapsed-add a.before d h small
  raw_of-duration (Call.test n) a rank d h small e =
      ap (elapsed a.before) e ∙ elapsed-add a.before d h small
  raw_of-duration (Call.wait n) a rank d h small e =
      ap (elapsed a.before) e ∙ elapsed-add a.before d h small
  raw_of-duration (Call.ibcast n t k tag) a rank d h small e =
      ap (elapsed a.before) e ∙ elapsed-add a.before d h small
  raw_of-duration (Call.igather n t k tag c x) a rank d h small e =
      ap (elapsed a.before) e ∙ elapsed-add a.before d h small
  raw_of-duration (Call.iscatter n t k tag c x) a rank d h small e =
      ap (elapsed a.before) e ∙ elapsed-add a.before d h small
  raw_of-duration (Call.ireduce n t k tag c) a rank d h small e =
      ap (elapsed a.before) e ∙ elapsed-add a.before d h small

  -- The number of bytes in the event of an `MPI_Ibcast`.
  abbrev broadcast : Event → U32
  broadcast (Event.ibcast e) = e.nb_bytes
  broadcast e = 0

  -- If two counts give different numbers of bytes for a datatype, two calls of `MPI_Ireduce` that
  -- differ in these counts only are recorded as the same event, whereas two such calls of
  -- `MPI_Ibcast` are recorded as different events.
  pub ireduce_count :
      (n m : I32) (t : lib.mpi.Datatype) (op : lib.mpi.Op) (root : I32) (c : lib.mpi.Comm)
      (a : Reply lib.mpi) (rank : MpiRank)
      → bytes (lib.mpi.type_size t) n ≢ bytes (lib.mpi.type_size t) m
      → (event_of (received lib.reads (raw_of lib (Call.ireduce n t op root c) a rank))
          ≡ event_of (received lib.reads (raw_of lib (Call.ireduce m t op root c) a rank)))
        × (event_of (received lib.reads (raw_of lib (Call.ibcast n t root c) a rank))
            ≢ event_of (received lib.reads (raw_of lib (Call.ibcast m t root c) a rank)))
  unfolding new_mpi_ibcast
  ireduce_count n m t op root c a rank differ = (
    rw
        (
          event_of-raw_of lib (Call.ireduce n t op root c) a rank,
          event_of-raw_of lib (Call.ireduce m t op root c) a rank,
        )
        refl,
    λ e. differ (
        ap broadcast (
          rw
            (
              event_of-raw_of lib (Call.ibcast n t root c) a rank,
              event_of-raw_of lib (Call.ibcast m t root c) a rank,
            )
            at e)),
  )
