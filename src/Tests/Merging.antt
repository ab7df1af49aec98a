-- ===== src/Tests/Merging.antt =====
-- The theorems on the directory and on the merge, each at a concrete input, with two ranks.
use mathlib.Core.List.{Perm}
use interpol.Base.{
  ◌≡◌, ◌++◌, refl, false, some, List, [], ◌∷◌, Text, All, map, arith, codes, text_eq,
}
use interpol.Base.Int.{show_int}
use interpol.Types.{is_finite}
use interpol.Event.{Event, tsc, box}
use interpol.Json.{restore_all, HasFiniteTime}
use interpol.MpiEvents.Management.{new_mpi_init, new_mpi_init_thread, new_mpi_finalize}
use interpol.Vector.Generous.{IsGenerous}
use interpol.Machine.{Directory, Machine, ret}
use interpol.Files.{entries, lookup}
use interpol.Serialize.{file_name}
use interpol.Dispatch.Record.{event_of}
use interpol.Call.Finalize.{IsFaultless}
use interpol.Aggregate.{result_name, extension, IsSorted, sort_all_traces}
use interpol.Aggregate.Listing.{Listing, nil, old, traces, other, IsReadable}
use interpol.Aggregate.Sorted.{sort_all_traces-IsSorted}
use interpol.Aggregate.Endings.{Ending, sort_all_traces-Ending}
use interpol.System.{rank_events, fresh, run_ranks, all_events}
use interpol.System.Contents.{lookup-run_ranks}
use interpol.System.Files.{IsRegular, AreNew, run_ranks-Listing}
use interpol.System.Merge.{sort_all_traces-run_ranks}
use interpol.Tests.Builders.{list_builder-IsBuilder}
use interpol.Tests.Json.{to_cells, cell_json-nil, cell_json, cell_json-IsSerdeJson}
use interpol.Tests.Sorter.{insertion_sort, insertion_sort-IsRayon}
use interpol.Tests.Data.{crates, generous, no_faults, sort_env, readable, rank0, rank1}

generous-ok : IsGenerous generous
generous-ok = record { reserves = λ n. (1, refl); boxes = refl; grows = λ n. (3, refl) }

no_faults-ok : IsFaultless no_faults
no_faults-ok = record { created = refl; opened = refl; wrote = refl }

pub readable-IsReadable : IsReadable readable
readable-IsReadable = record {
  listed = refl;
  found = λ n. refl;
  ended = refl;
  removed = λ n. refl;
  read = λ n. refl;
}

rank0-IsRegular : IsRegular rank0
rank0-IsRegular = record {
  granted = ((generous-ok, λ e. cc), ((generous-ok, λ e. cc), ((generous-ok, λ e. cc), tt)));
  generous = generous-ok;
  faultless = no_faults-ok;
  finalizes = refl;
  room = omega arith;
}

rank1-IsRegular : IsRegular rank1
rank1-IsRegular = record {
  granted = ((generous-ok, λ e. cc), ((generous-ok, λ e. cc), tt));
  generous = generous-ok;
  faultless = no_faults-ok;
  finalizes = refl;
  room = omega arith;
}

-- The result of an earlier run, an empty trace file of a rank that this run does not have, and a
-- log.
abbrev leftovers : Directory
leftovers =
    (result_name, codes "{}")
    ∷ (codes "rank7_traces.json", to_cells 0 [])
    ∷ (codes "run.log", [])
    ∷ []

leftovers-Listing : Listing cell_json leftovers []
unfolding extension
leftovers-Listing =
    old refl
      (traces {new = []} refl refl cell_json-nil (other {ext = codes "log"} refl refl refl nil))

ranks-AreNew : AreNew (rank0 ∷ rank1 ∷ []) leftovers
unfolding file_name show_int
ranks-AreNew = (refl, ((λ e. cc), tt), (refl, tt, tt))

ranks-HaveFiniteTime : All HasFiniteTime (all_events (rank0 ∷ rank1 ∷ []))
unfolding event_of is_finite box new_mpi_init new_mpi_init_thread new_mpi_finalize
ranks-HaveFiniteTime = (refl, (tt, (tt, (refl, (refl, (tt, (refl, tt)))))))

run_ranks-Listing_example :
    (d : Directory) × (es : List Event) × (run_ranks crates (rank0 ∷ rank1 ∷ []) (some leftovers)
      ≡ some d)
    × (restore_all cell_json.reparse (all_events (rank0 ∷ rank1 ∷ [])) ≡ some es)
    × Listing cell_json d es
run_ranks-Listing_example =
    run_ranks-Listing crates list_builder-IsBuilder cell_json-IsSerdeJson rank0 (rank1 ∷ [])
      (some leftovers) (rank0-IsRegular, (rank1-IsRegular, tt)) leftovers-Listing ranks-AreNew
      ranks-HaveFiniteTime

sort_all_traces-IsSorted_example :
    (t : Text) × (d' : Directory) × (out : List Text) × (sorted : List Event) × (sort_all_traces
        cell_json insertion_sort sort_env
        (fresh (some leftovers))
      ≡ (ret tt, record (fresh (some leftovers)) { traces = some d'; stdout = out }))
    × (lookup result_name d' ≡ some t)
    × (cell_json.from_str t ≡ restore_all cell_json.reparse sorted)
    × IsSorted tsc sorted
    × Perm sorted []
    × ((file : Text) → text_eq result_name file ≡ false → lookup file d' ≡ lookup file leftovers)
sort_all_traces-IsSorted_example =
    sort_all_traces-IsSorted cell_json cell_json-IsSerdeJson insertion_sort insertion_sort-IsRayon
      sort_env leftovers-Listing (fresh (some leftovers)) refl readable-IsReadable no_faults-ok

abbrev merging : Machine
merging = fresh (run_ranks crates (rank0 ∷ rank1 ∷ []) (some leftovers))

sort_all_traces-run_ranks_example :
    (t : Text) × (d' : Directory) × (out : List Text) × (es sorted : List Event) × (sort_all_traces
        cell_json insertion_sort sort_env merging
      ≡ (ret tt, record merging { traces = some d'; stdout = out }))
    × (lookup result_name d' ≡ some t)
    × (cell_json.from_str t ≡ restore_all cell_json.reparse sorted)
    × IsSorted tsc sorted
    × Perm sorted es
    × (restore_all cell_json.reparse (all_events (rank0 ∷ rank1 ∷ [])) ≡ some es)
    × (map tsc es ≡ map tsc (all_events (rank0 ∷ rank1 ∷ [])))
sort_all_traces-run_ranks_example =
    sort_all_traces-run_ranks crates list_builder-IsBuilder cell_json-IsSerdeJson insertion_sort
      insertion_sort-IsRayon sort_env rank0 (rank1 ∷ []) (some leftovers) merging
      (rank0-IsRegular, (rank1-IsRegular, tt)) leftovers-Listing ranks-AreNew ranks-HaveFiniteTime
      readable-IsReadable no_faults-ok refl

abbrev with_core : Directory
with_core = leftovers ++ (codes "core", []) ∷ []

sort_all_traces-Ending_example : Ending cell_json insertion_sort sort_env (fresh (some with_core))
sort_all_traces-Ending_example =
    sort_all_traces-Ending cell_json cell_json-IsSerdeJson insertion_sort sort_env
      (fresh (some with_core))

-- The file of an earlier run is there already.
abbrev stale : Directory
stale = (codes "rank1_traces.json", []) ∷ []

lookup-run_ranks_example :
    lookup
      (codes "rank1_traces.json")
      (entries (run_ranks crates (rank0 ∷ rank1 ∷ []) (some stale)))
    ≡ some (to_cells 0 (rank_events rank1))
unfolding file_name show_int
lookup-run_ranks_example =
    lookup-run_ranks crates list_builder-IsBuilder cell_json-IsSerdeJson (rank0 ∷ rank1 ∷ [])
      (some stale) (codes "rank1_traces.json") (rank0-IsRegular, (rank1-IsRegular, tt))
