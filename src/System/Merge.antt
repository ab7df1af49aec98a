-- ===== src/System/Merge.antt =====
-- The whole program: the ranks, and the merge by rank 0.
use mathlib.Core.List.{Perm}
use interpol.Base.{◌++◌, ◌≡◌, ◌∙◌, Option, some, List, ◌∷◌, Text, map, All}
use interpol.Event.{Event, tsc}
use interpol.Builder.{IsBuilder}
use interpol.Json.{IsSerdeJson, restore_all, HasFiniteTime}
use interpol.Json.Restore.{map-tsc-restore_all}
use interpol.Machine.{Directory, Machine, ret}
use interpol.Files.{entries, lookup}
use interpol.Dispatch.{Crates}
use interpol.Call.Finalize.{IsFaultless}
use interpol.Aggregate.{result_name, Rayon, IsRayon, IsSorted, SortEnvironment, sort_all_traces}
use interpol.Aggregate.Listing.{Listing, IsReadable}
use interpol.Aggregate.Sorted.{sort_all_traces-IsSorted}
use interpol.System.{Rank, run_ranks, all_events}
use interpol.System.Files.{IsRegular, AreNew, run_ranks-Listing}

module _ (crates : Crates) (law : IsBuilder crates.builder) (json : IsSerdeJson crates.json)
    (rayon : Rayon) (sorts : IsRayon rayon) where
  -- Given the documented behaviour of derive_builder, serde_json and rayon: if the ranks of a
  -- program (at least one) get the memory and the room for their events, have different numbers and
  -- no files yet, and record finite times, if the directory, where there is one, held only readable
  -- files, and if no call of the operating system fails, then after their finalizes
  -- `sort_all_traces` returns, and reading the result file gives what JSON gives back of a list
  -- that is in the order of the time stamps and is a permutation of the events that the directory
  -- held before and of those of all ranks as JSON gives them back, which have the time stamps of
  -- the ranks' events.
  pub sort_all_traces-run_ranks :
      (env : SortEnvironment) (r : Rank) (rs : List Rank) (dir : Option Directory)
      {old_events : List Event} (s : Machine)
      → All IsRegular (r ∷ rs)
      → Listing crates.json (entries dir) old_events
      → AreNew (r ∷ rs) (entries dir)
      → All HasFiniteTime (all_events (r ∷ rs))
      → IsReadable env.reads
      → IsFaultless env.writes
      → s.traces ≡ run_ranks crates (r ∷ rs) dir
      → (t : Text) × (d' : Directory) × (out : List Text) × (es sorted : List Event)
        × (sort_all_traces crates.json rayon env s
            ≡ (ret tt, record s { traces = some d'; stdout = out }))
        × (lookup result_name d' ≡ some t)
        × (crates.json.from_str t ≡ restore_all crates.json.reparse sorted)
        × IsSorted tsc sorted
        × Perm sorted (old_events ++ es)
        × (restore_all crates.json.reparse (all_events (r ∷ rs)) ≡ some es)
        × (map tsc es ≡ map tsc (all_events (r ∷ rs)))
  sort_all_traces-run_ranks env r rs dir s h l new finite reads writes e =
      let (d1, es, ran, restored, l1) = run_ranks-Listing crates law json r rs dir h l new finite in
      let (t, d', out, sorted, returned, found, back, ordered, perm, others) =
        sort_all_traces-IsSorted crates.json json rayon sorts env l1 s (e ∙ ran) reads writes in
      (
        t,
        d',
        out,
        es,
        sorted,
        returned,
        found,
        back,
        ordered,
        perm,
        restored,
        map-tsc-restore_all crates.json.reparse (all_events (r ∷ rs)) restored,
      )
