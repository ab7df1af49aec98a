-- ===== src/Interpose/Finalize.antt =====
-- The end of a traced C program: `MPI_Finalize`.
use interpol.Base.{
  ◌≡◌, ◌∙◌, ap, refl, false, true, ◌+◌, ◌*◌, ◌≤◌, ◌++◌, some, List, [], ◌∷◌, Text, All, length,
  length-append, arith, if◌then◌else◌, Bool-cases, inl, inr,
}
use interpol.Base.Int.{ℤ, pos, is_zero}
use interpol.Types.{I32, MpiRank, MpiCallType}
use interpol.Event.{Event, box}
use interpol.MpiEvents.Management.{new_mpi_finalize}
use interpol.Builder.{IsBuilder}
use interpol.Json.{IsSerdeJson}
use interpol.Vector.{Vec, max_capacity}
use interpol.Vector.Generous.{IsGenerous}
use interpol.Machine.{Machine, Ctl, ret, fail, panic, abort}
use interpol.Dispatch.Record.{event_of}
use interpol.Call.{register_mpi_call}
use interpol.Call.Outcome.{IsSound, Handled, register_mpi_call-IsSound}
use interpol.Call.Finalize.{IsFaultless, written, finalize_written}
use interpol.Aggregate.{SortEnvironment, sort_all_traces}
use interpol.Aggregate.Faults.{Ends, sort_all_traces_others}
use interpol.Interpose.{
  Library, Reply, received, Process, P, ◌>>◌, >>=-eq-of_ret, pure, register, calling, seconds,
}
use interpol.Interpose.C.Management.{finalize_call, mpi_finalize}
use interpol.Interpose.Program.{Call, run_calls, recorded_all, rank_after}
use interpol.Interpose.Run.{Served, items_of, run_calls_complete, length-recorded_all}

-- The call ends with the code of `PMPI_Finalize`, or with the process aborted, or rank 0 panics.
abbrev pub Finalized : I32 → Process → Ctl I32 × Process → Type 0
Finalized code p (ret c, p') = (c ≡ code) × (p'.current_rank ≡ p.current_rank)
Finalized code p (fail e, p') = ⊥
Finalized code p (panic message, p') = p.current_rank ≡ pos 0
Finalized code p (abort, p') = Unit

is_zero→eq : (n : ℤ) → is_zero n ≡ true → n ≡ pos 0
is_zero→eq n h = ground arith

-- The event of the finalize.
abbrev pub finalized : (lib : Library) → Reply lib.mpi → MpiRank → Event
finalized lib a rank =
    Event.finalize (new_mpi_finalize rank a.before (seconds lib.doubles a.timeofday))

-- The merge, and the end of the wrapper, on the machine of rank 0.
merge-Finalized :
    (code : I32) (p q : Process) (r : Ctl (Unit {0}) × Machine)
    → Ends [] q.machine r
    → p.current_rank ≡ pos 0
    → q.current_rank ≡ p.current_rank
    → Finalized code p (((λ (q : Process). (r.0, record q { machine = r.1 })) >> pure code) q)
merge-Finalized code p q (ret _, m) ends zero same = (refl, same)
merge-Finalized code p q (fail e, m) ends zero same = ends
merge-Finalized code p q (panic e, m) ends zero same = zero
merge-Finalized code p q (abort, m) ends zero same = tt

module _ (lib : Library) (sorting : SortEnvironment) (a : Reply lib.mpi) where
  -- The wrapper after the registration.
  abbrev pub finish : MpiRank → P I32
  finish rank =
      (if is_zero rank
        then calling (sort_all_traces lib.crates.json lib.rayon sorting)
        else pure tt)
      >> pure a.ret

  finish-Finalized :
      (p q : Process)
      → q.current_rank ≡ p.current_rank
      → Finalized a.ret p (finish p.current_rank q)
  finish-Finalized p q same = elim (Bool-cases (is_zero p.current_rank)) [
    | inl zero ↦ rw zero (
        merge-Finalized a.ret p q (sort_all_traces lib.crates.json lib.rayon sorting q.machine)
          (sort_all_traces_others lib.crates.json lib.rayon sorting [] refl q.machine)
          (is_zero→eq p.current_rank zero) same)
    | inr other ↦ rw other (refl, same)
  ]

  register-Finalized :
      (p : Process) (r : Ctl (Unit {0}) × Machine)
      → Handled r
      → Finalized a.ret p
          (((λ (q : Process). (r.0, record q { machine = r.1 })) >> finish p.current_rank) p)
  register-Finalized p (ret _, m) h = finish-Finalized p (record p { machine = m }) refl
  register-Finalized p (fail e, m) h = h
  register-Finalized p (panic e, m) h = absurd h
  register-Finalized p (abort, m) h = tt

  -- Given the documented behaviour of derive_builder and serde_json, and as long as the standard
  -- streams can be written: whichever calls of the allocator and on the directory fail, and
  -- whatever the directory holds, `MPI_Finalize` from a sound state returns what `PMPI_Finalize`
  -- returned and leaves the rank as it was, or the process is aborted, or it panics on rank 0; on
  -- another rank it never panics.
  pub mpi_finalize-Finalized :
      IsBuilder lib.crates.builder
      → IsSerdeJson lib.crates.json
      → (p : Process) → IsSound p.machine
      → Finalized a.ret p (mpi_finalize lib sorting a p)
  unfolding mpi_finalize
  mpi_finalize-Finalized law json p h =
      register-Finalized p
        (register_mpi_call lib.crates a.env
          (received lib.reads (finalize_call lib a p.current_rank)) p.machine)
        (register_mpi_call-IsSound lib.crates law a.env
          (received lib.reads (finalize_call lib a p.current_rank)) json p.machine h)

  pub event_of-finalize_call :
      (rank : MpiRank)
      → event_of (received lib.reads (finalize_call lib a rank)) ≡ finalized lib a rank
  unfolding finalize_call event_of box
  event_of-finalize_call rank = refl

  pub kind-finalize_call :
      (rank : MpiRank) → (received lib.reads (finalize_call lib a rank)).kind ≡ MpiCallType.finalize
  unfolding finalize_call
  kind-finalize_call rank = refl

  -- On a rank that does not merge.
  mpi_finalize-written :
      IsBuilder lib.crates.builder
      → IsSerdeJson lib.crates.json
      → (p : Process) → IsSound p.machine
      → IsGenerous a.env.memory
      → IsFaultless a.env.files
      → 3 * length (items_of p) ≤ max_capacity
      → is_zero p.current_rank ≡ false
      → (w : Vec Event) × (t : Text) × (mpi_finalize lib sorting a p ≡ (
        ret a.ret,
        record p { machine = written p.current_rank t (record p.machine { events = w }) },
      ))
        × (w.items ≡ items_of p ++ finalized lib a p.current_rank ∷ [])
        × (lib.crates.json.to_string w.items ≡ some t)
  unfolding mpi_finalize finalize_call
  mpi_finalize-written law json p h memory files room other =
      let call = received lib.reads (finalize_call lib a p.current_rank) in
      let (w, t, e, items, back, valid, text) =
        finalize_written lib.crates law json a.env call p.machine h
          (kind-finalize_call p.current_rank) memory files room in
      (
        w,
        t,
        >>=-eq-of_ret (register lib a.env (finalize_call lib a p.current_rank))
              (λ _. finish p.current_rank) (ap (λ r. (r.0, record p { machine = r.1 })) e)
            ∙ ap
                (λ b.
                  ((if b
                        then calling (sort_all_traces lib.crates.json lib.rayon sorting)
                        else pure tt)
                      >> pure a.ret)
                    (record p {
                      machine = written p.current_rank t (record p.machine { events = w });
                    }))
                other,
        items ∙ ap (λ x. items_of p ++ x ∷ []) (event_of-finalize_call p.current_rank),
        text,
      )

  -- Given the documented behaviour of derive_builder and serde_json: if a program calls interposed
  -- C functions from a sound state, while nothing refuses memory or fails on the disk and there is
  -- room, and then `MPI_Finalize`, on a rank other than 0, it gets what `PMPI_Finalize` returned,
  -- and the only file that has changed is the rank's own, which holds the text of all events that
  -- its calls describe, in order, with that of the finalize at the end, after those that the vector
  -- held before.
  pub program_written :
      IsBuilder lib.crates.builder
      → IsSerdeJson lib.crates.json
      → (calls : List (Call lib.mpi × Reply lib.mpi)) (p : Process) → IsSound p.machine
      → All (Served lib) calls
      → IsGenerous a.env.memory
      → IsFaultless a.env.files
      → 3 * (length (items_of p) + length calls) ≤ max_capacity
      → is_zero (rank_after lib calls p.current_rank) ≡ false
      → (w : Vec Event) × (t : Text) × ((run_calls lib calls >> mpi_finalize lib sorting a) p ≡ (
        ret a.ret,
        record {
          current_rank = rank_after lib calls p.current_rank;
          machine =
              written (rank_after lib calls p.current_rank) t (record p.machine { events = w });
        },
      ))
        × (w.items
            ≡ (items_of p ++ recorded_all lib calls p.current_rank)
              ++ finalized lib a (rank_after lib calls p.current_rank) ∷ [])
        × (lib.crates.json.to_string w.items ≡ some t)
  program_written law json calls p h served memory files room other =
      let (v, e, valid, items) = run_calls_complete lib law json calls p h served room in
      let rank = rank_after lib calls p.current_rank in
      let q : Process = record { current_rank = rank; machine = record p.machine { events = v } } in
      let (w, t, e', items', text) =
        mpi_finalize-written law json q (record { valid = valid; clean = h.clean }) memory files
          (omega (
            arith,
            room,
            ap length items,
            length-append (items_of p) (recorded_all lib calls p.current_rank),
            length-recorded_all lib calls p.current_rank,
          ))
          other in
      (
        w,
        t,
        >>=-eq-of_ret (run_calls lib calls) (λ _. mpi_finalize lib sorting a) e ∙ e',
        items' ∙ ap (λ l. l ++ finalized lib a rank ∷ []) items,
        text,
      )
