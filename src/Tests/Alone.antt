-- ===== src/Tests/Alone.antt =====
-- A program of one process, from its calls to the merged trace.
use mathlib.Core.List.{Perm}
use interpol.Base.{All, List, [], ◌++◌, Text, ◌≡◌, refl, some, ◌∷◌, arith}
use interpol.Event.{Event, tsc}
use interpol.Types.{is_finite}
use interpol.MpiEvents.Management.{new_mpi_init, new_mpi_finalize}
use interpol.Json.{restore_all, HasFiniteTime}
use interpol.Machine.{Directory, Machine, ret}
use interpol.Files.{lookup}
use interpol.Aggregate.{result_name, IsSorted}
use interpol.Aggregate.Listing.{nil}
use interpol.Tests.Sorter.{insertion_sort-IsRayon}
use interpol.Tests.Merging.{readable-IsReadable}
use interpol.Interpose.Single.{program_merged}
use interpol.Base.Int.{pos, negsuc}
use interpol.Interpose.{Reply, ◌>>◌}
use interpol.Interpose.C.Management.{mpi_finalize}
use interpol.Interpose.Program.{Call, run_calls, recorded_all}
use interpol.Interpose.Finalize.{finalized}
use interpol.Tests.Builders.{list_builder-IsBuilder}
use interpol.Tests.Json.{cell_json-IsSerdeJson}
use interpol.Tests.Data.{crates, sort_env}
use interpol.Tests.Witnesses.{blank-IsSound, generous-IsGenerous, no_faults-IsFaultless}
use interpol.Tests.Interposed.{numbers, lib, answer, process}

-- A program of one process.
abbrev answer_0 : Reply numbers
answer_0 = record answer { rank = pos 0 }

abbrev alone : List (Call numbers × Reply numbers)
alone = (Call.init, answer_0) ∷ (Call.test (pos 77), answer_0) ∷ []

alone-HaveFiniteTime :
    All HasFiniteTime (recorded_all lib alone (negsuc 0) ++ finalized lib answer_0 (pos 0) ∷ [])
unfolding is_finite new_mpi_init new_mpi_finalize
alone-HaveFiniteTime = (refl, (tt, (refl, tt)))

program_merged_example :
    (m : Machine) × (d : Directory) × (t : Text) × (es sorted : List Event) × ((run_calls lib alone
          >> mpi_finalize lib sort_env answer_0)
        process
      ≡ (ret (pos 0), record { current_rank = pos 0; machine = m }))
    × (m.traces ≡ some d)
    × (lookup result_name d ≡ some t)
    × (crates.json.from_str t ≡ restore_all crates.json.reparse sorted)
    × IsSorted tsc sorted
    × Perm sorted es
    × (restore_all crates.json.reparse
          (recorded_all lib alone (negsuc 0) ++ finalized lib answer_0 (pos 0) ∷ [])
        ≡ some es)
program_merged_example =
    program_merged lib sort_env answer_0 list_builder-IsBuilder cell_json-IsSerdeJson
      insertion_sort-IsRayon alone process blank-IsSound
      (generous-IsGenerous, (generous-IsGenerous, tt)) generous-IsGenerous no_faults-IsFaultless
      (omega arith) refl nil refl alone-HaveFiniteTime readable-IsReadable no_faults-IsFaultless
