-- ===== src/Interpose/Single.antt =====
-- A program of one process, from its first call to the merged trace.
use mathlib.Core.List.{Perm, append-nil}
use interpol.Base.{
  ◌≡◌, ◌∙◌, sym, ap, refl, subst, ◌+◌, ◌*◌, ◌≤◌, ◌++◌, none, some, List, [], ◌∷◌, Text, All, length,
  length-append, arith,
}
use interpol.Base.Int.{pos}
use interpol.Types.{MpiRank}
use interpol.Event.{Event, tsc}
use interpol.Builder.{IsBuilder}
use interpol.Json.{IsSerdeJson, restore_all, HasFiniteTime}
use interpol.Json.Restore.{restore_all-HasFiniteTime}
use interpol.Vector.{Vec, max_capacity}
use interpol.Vector.Generous.{IsGenerous}
use interpol.Machine.{Directory, Machine, ret}
use interpol.Files.{entries, lookup, put}
use interpol.Files.Laws.{put-absent}
use interpol.Serialize.{file_name}
use interpol.Call.Outcome.{IsSound}
use interpol.Call.Finalize.{IsFaultless, written, finalize_written}
use interpol.Aggregate.{result_name, IsRayon, IsSorted, SortEnvironment, sort_all_traces}
use interpol.Aggregate.Extension.{extension-file_name}
use interpol.Aggregate.Listing.{Listing, nil, traces, IsReadable, Listing-append}
use interpol.Aggregate.Sorted.{sort_all_traces-IsSorted}
use interpol.Interpose.{
  Library, Reply, received, Process, ◌>>◌, >>=-eq-of_ret, pure, register, calling,
}
use interpol.Interpose.C.Management.{finalize_call, mpi_finalize}
use interpol.Interpose.Program.{Call, run_calls, recorded_all, rank_after}
use interpol.Interpose.Run.{Served, items_of, run_calls_complete, length-recorded_all}
use interpol.Interpose.Finalize.{finalized, finish, kind-finalize_call, event_of-finalize_call}

module _ (lib : Library) (sorting : SortEnvironment) (a : Reply lib.mpi)
    (law : IsBuilder lib.crates.builder) (json : IsSerdeJson lib.crates.json) where
  -- `MPI_Finalize` on rank 0, up to the merge.
  finalize-merging :
      (p : Process)
      → IsSound p.machine
      → IsGenerous a.env.memory
      → IsFaultless a.env.files
      → 3 * length (items_of p) ≤ max_capacity
      → p.current_rank ≡ pos 0
      → (w : Vec Event) × (t : Text) × (mpi_finalize lib sorting a p
          ≡ (calling (sort_all_traces lib.crates.json lib.rayon sorting) >> pure a.ret)
              (record p { machine = written p.current_rank t (record p.machine { events = w }) }))
        × (w.items ≡ items_of p ++ finalized lib a p.current_rank ∷ [])
        × (lib.crates.json.from_str t ≡ restore_all lib.crates.json.reparse w.items)
  unfolding mpi_finalize finalize_call
  finalize-merging p h memory files room zero =
      let call = received lib.reads (finalize_call lib a p.current_rank) in
      let (w, t, e, items, back, valid, text) =
        finalize_written lib.crates law json a.env call p.machine h
          (kind-finalize_call lib sorting a p.current_rank) memory files room in
      (
        w,
        t,
        >>=-eq-of_ret (register lib a.env (finalize_call lib a p.current_rank))
              (λ _. finish lib sorting a p.current_rank)
              (ap (λ r. (r.0, record p { machine = r.1 })) e)
            ∙ ap
                (λ rank. finish lib sorting a rank (record p {
                  machine = written p.current_rank t (record p.machine { events = w });
                }))
                zero,
        items
            ∙ ap (λ x. items_of p ++ x ∷ []) (event_of-finalize_call lib sorting a p.current_rank),
        back,
      )

  -- The directory with the rank's new file.
  put-Listing :
      {d : Directory} {old_events es : List Event} (rank : MpiRank) (t : Text)
      → Listing lib.crates.json d old_events
      → lookup (file_name rank) d ≡ none
      → lib.crates.json.from_str t ≡ some es
      → Listing lib.crates.json (put (file_name rank) t d) (old_events ++ es)
  put-Listing {d} {old_events} {es} rank t l new e =
      let (ext, differs) = extension-file_name rank in
      subst (λ d. Listing lib.crates.json d (old_events ++ es))
        (sym (put-absent (file_name rank) t d new))
        (subst (λ r. Listing lib.crates.json (d ++ (file_name rank, t) ∷ []) (old_events ++ r))
          (append-nil es) (Listing-append l (traces differs ext e nil)))

  -- Given the documented behaviour of derive_builder, serde_json and rayon: if a program calls
  -- interposed C functions from a sound state, while nothing refuses memory or fails on the disk
  -- and there is room, and then `MPI_Finalize`, on rank 0 while no other process touches the
  -- directory, where that held only readable files and none of rank 0, and the times of all events
  -- are finite, then the program gets what `PMPI_Finalize` returned; and reading the result file
  -- gives what JSON gives back of a list that is in the order of the time stamps and is a
  -- permutation of the events that the directory held before and of those that were in the vector,
  -- that the calls describe, and of the finalize, as JSON gives them back.
  pub program_merged :
      IsRayon lib.rayon
      → (calls : List (Call lib.mpi × Reply lib.mpi)) (p : Process) → IsSound p.machine
      → All (Served lib) calls
      → IsGenerous a.env.memory
      → IsFaultless a.env.files
      → 3 * (length (items_of p) + length calls) ≤ max_capacity
      → rank_after lib calls p.current_rank ≡ pos 0
      → {old_events : List Event} → Listing lib.crates.json (entries p.machine.traces) old_events
      → lookup (file_name (pos 0)) (entries p.machine.traces) ≡ none
      → All HasFiniteTime
          ((items_of p ++ recorded_all lib calls p.current_rank) ++ finalized lib a (pos 0) ∷ [])
      → IsReadable sorting.reads
      → IsFaultless sorting.writes
      → (m : Machine) × (d : Directory) × (t : Text) × (es sorted : List Event) × ((run_calls lib
                calls
              >> mpi_finalize lib sorting a)
            p
          ≡ (ret a.ret, record { current_rank = pos 0; machine = m }))
        × (m.traces ≡ some d)
        × (lookup result_name d ≡ some t)
        × (lib.crates.json.from_str t ≡ restore_all lib.crates.json.reparse sorted)
        × IsSorted tsc sorted
        × Perm sorted (old_events ++ es)
        × (restore_all lib.crates.json.reparse (
              (items_of p ++ recorded_all lib calls p.current_rank) ++ finalized lib a (pos 0) ∷ [])
            ≡ some es)
  program_merged sorts calls p h served memory files room zero {old_events} listing new finite reads
        writes =
      let (v, e, valid, items) = run_calls_complete lib law json calls p h served room in
      let q : Process = record {
        current_rank = rank_after lib calls p.current_rank;
        machine = record p.machine { events = v };
      } in
      let (w, t0, e', items', back) =
        finalize-merging q (record { valid = valid; clean = h.clean }) memory files
          (omega (
            arith,
            room,
            ap length items,
            length-append (items_of p) (recorded_all lib calls p.current_rank),
            length-recorded_all lib calls p.current_rank,
          ))
          zero in
      let log =
        (items_of p ++ recorded_all lib calls p.current_rank) ++ finalized lib a (pos 0) ∷ [] in
      let all : w.items ≡ log =
        items'
        ∙ ap (λ l. l ++ finalized lib a q.current_rank ∷ []) items
        ∙ ap
            (λ rank.
              (items_of p ++ recorded_all lib calls p.current_rank) ++ finalized lib a rank ∷ [])
            zero in
      let (es, restored) = restore_all-HasFiniteTime lib.crates.json json log finite in
      let m1 = written q.current_rank t0 (record q.machine { events = w }) in
      let listed =
        put-Listing q.current_rank t0 listing
          (ap (λ rank. lookup (file_name rank) (entries p.machine.traces)) zero ∙ new)
          (back ∙ ap (restore_all lib.crates.json.reparse) all ∙ restored) in
      let (t, d, out, sorted, returned, found, read, ordered, perm, others) =
        sort_all_traces-IsSorted lib.crates.json json lib.rayon sorts sorting listed m1 refl reads
          writes in
      (
        record m1 { traces = some d; stdout = out },
        d,
        t,
        es,
        sorted,
        >>=-eq-of_ret (run_calls lib calls) (λ _. mpi_finalize lib sorting a) e
            ∙ e'
            ∙ >>=-eq-of_ret (calling (sort_all_traces lib.crates.json lib.rayon sorting))
                (λ _. pure a.ret) (ap (λ r. (r.0, record q { machine = r.1 })) returned)
            ∙ ap
                (λ rank. (
                  ret a.ret,
                  record {
                    current_rank = rank;
                    machine = record m1 { traces = some d; stdout = out };
                  },
                ))
                zero,
        refl,
        found,
        read,
        ordered,
        perm,
        restored,
      )
