-- ===== src/Interpose/Fortran/Finished.antt =====
-- `MPI_Test` in the two languages: what a call of either leaves in the trace.
use interpol.Base.{
  ◌≡◌, ◌≢◌, ◌∙◌, sym, ap, ◌*◌, ◌≤◌, ◌++◌, Bool, true, false, not, List, [], ◌∷◌, length, arith,
}
use interpol.Base.Int.{pos, is_zero}
use mathlib.Core.List.{append_cancel_left}
use interpol.Types.{MpiReq}
use interpol.Event.{Event}
use interpol.MpiEvents.Synchronization.{new_mpi_test}
use interpol.Builder.{IsBuilder}
use interpol.Json.{IsSerdeJson}
use interpol.Vector.{Vec, max_capacity}
use interpol.Vector.Generous.{IsGenerous}
use interpol.Machine.{Ctl, ret}
use interpol.Types.{I32}
use interpol.Call.Outcome.{IsSound}
use interpol.Interpose.{Library, Reply, Process, elapsed}
use interpol.Interpose.C.Synchronization.{test_call, mpi_test}
use interpol.Interpose.Fortran.{Ref, Handles}
use interpol.Interpose.Fortran.Synchronization as FSynchronization
use interpol.Interpose.Program.{Call, interposed}
use interpol.Interpose.Run.{items_of, interposed_complete}

-- What the first event says, if it is that of a test.
abbrev says_finished : List Event → Bool
says_finished (Event.test e ∷ es) = e.finished
says_finished es = false

module _ (lib : Library) where
  -- The reply to a test that has found its operation finished.
  abbrev found_finished : Reply lib.mpi → Reply lib.mpi
  found_finished a = record a { flag = pos 1 }

  -- A process whose vector is `v`, and that has got what PMPI returned.
  abbrev pub answered : Reply lib.mpi → Process → Vec Event → Ctl I32 × Process
  answered a p v = (ret a.ret, record p { machine = record p.machine { events = v } })

  -- The event of a test.
  abbrev pub tested : Reply lib.mpi → Process → MpiReq → Bool → Event
  tested a p req finished =
      Event.test (new_mpi_test p.current_rank req finished a.before (elapsed a.before a.after))

  -- The Fortran function works as that of C does for a test that has found the operation finished,
  -- of the request that PMPI has left.
  mpi_test-in_c :
      (f : Handles lib.mpi) (flag : Ref) (a : Reply lib.mpi) (p : Process)
      → flag.address ≢ 0
      → FSynchronization.mpi_test lib f flag a p
        ≡ interposed lib (Call.test a.request) (found_finished a) p
  unfolding interposed mpi_test test_call FSynchronization.mpi_test FSynchronization.test_call
  mpi_test-in_c f flag a p h = ground arith

  tested-ne :
      (a : Reply lib.mpi) (p : Process) (req req' : MpiReq) (es : List Event) (flag : Bool)
      → flag ≡ true
      → es ++ tested a p req true ∷ [] ≢ es ++ tested a p req' (not flag) ∷ []
  unfolding new_mpi_test
  tested-ne a p req req' es flag e same =
      let h = ap says_finished (append_cancel_left es _ _ same) in ground (arith, h, e)

  module _ (f : Handles lib.mpi) (law : IsBuilder lib.crates.builder)
      (json : IsSerdeJson lib.crates.json) where
    -- Given the documented behaviour of derive_builder and serde_json: from a sound state, while
    -- the allocator refuses nothing and there is room, and if the reference to the flag is not
    -- null, a call of `MPI_Test` returns what `PMPI_Test` did and puts one event into the vector,
    -- from Fortran and from C. But the Fortran one says that the operation is finished, whatever
    -- `PMPI_Test` stored in the flag, and names the request that `PMPI_Test` left; the C one says
    -- whether the flag is not 0, and names the request that was passed. So if the operation is not
    -- finished, the two languages leave different traces.
    pub mpi_test_differs :
        (flag : Ref) (request : lib.mpi.Request) (a : Reply lib.mpi) (p : Process)
        → IsSound p.machine
        → IsGenerous a.env.memory
        → 3 * length (items_of p) ≤ max_capacity
        → flag.address ≢ 0
        → (v w : Vec Event) × (FSynchronization.mpi_test lib f flag a p ≡ answered a p v)
          × (mpi_test lib request a p ≡ answered a p w)
          × (v.items ≡ items_of p ++ tested a p (lib.mpi.request_c2f a.request) true ∷ [])
          × (w.items
              ≡ items_of p ++ tested a p (lib.mpi.request_c2f request) (not (is_zero a.flag)) ∷ [])
          × (is_zero a.flag ≡ true → v.items ≢ w.items)
    unfolding interposed
    mpi_test_differs flag request a p h memory room reference =
        let (v, e, valid, items) =
          interposed_complete lib law json (Call.test a.request) (found_finished a) p h memory
            room in
        let (w, e', valid', items') =
          interposed_complete lib law json (Call.test request) a p h memory room in
        (
          v,
          w,
          mpi_test-in_c f flag a p reference ∙ e,
          e',
          items,
          items',
          λ unfinished same.
              tested-ne a p (lib.mpi.request_c2f a.request) (lib.mpi.request_c2f request)
                (items_of p) (is_zero a.flag) unfinished (sym items ∙ same ∙ items'),
        )
