-- ===== src/Tests/Barrier.antt =====
-- The theorems on the finalizes at once, with two ranks whose calls on the directory alternate.
use mathlib.Core.List.{Perm}
use interpol.Event.{Event, tsc, box}
use interpol.Types.{is_finite}
use interpol.MpiEvents.Management.{new_mpi_init, new_mpi_init_thread, new_mpi_finalize}
use interpol.MpiEvents.PointToPoint.{new_mpi_isend}
use interpol.MpiEvents.Synchronization.{new_mpi_wait}
use interpol.MpiEvents.Collectives.{new_mpi_ireduce}
use interpol.Json.{restore, restore_all, HasFiniteTime}
use interpol.Machine.{Directory, Machine, ret}
use interpol.Dispatch.Record.{event_of}
use interpol.Aggregate.{result_name, IsSorted, sort_all_traces}
use interpol.Aggregate.Listing.{nil}
use interpol.System.Barrier.Order.{collected, upto}
use interpol.System.Barrier.Merge.{AreLogs, sort_all_traces-Reach, read_back, read_back_unique}
use interpol.System.Barrier.Refinement.{CanArrive, serialize-CanArrive}
use interpol.Aggregate.Unique.{time_stamps}
use interpol.Tests.Json.{to_cells, cell_json, cell_json-IsSerdeJson}
use interpol.Tests.Sorter.{insertion_sort, insertion_sort-IsRayon}
use interpol.Tests.Merging.{readable-IsReadable}
use interpol.Base.{
  IsDistinct, List, update, ◌≡◌, refl, ℕ, zero, suc, ◌<◌, true, false, none, some, All, Text,
  text_eq, arith,
}
use interpol.Base.Int.{pos}
use interpol.Files.{entries, lookup, create_dir_all, open_truncated, write_text, put}
use interpol.Serialize.{file_name, serialize}
use interpol.System.{fresh, rank_events}
use interpol.System.Barrier.{
  released, arrived, created, opened, made, Ranks, Finalizing, create, open_file, write, release,
  Reach, here, next, has_arrived, at_start,
}
use interpol.System.Barrier.Invariant.{AreRegular, name_of, Reach-complete}
use interpol.Tests.Data.{no_faults, sort_env, rank0, rank1}
use interpol.Tests.Witnesses.{no_faults-IsFaultless}

abbrev logs : ℕ → List Event
logs zero = rank_events rank0
logs (suc i) = rank_events rank1

abbrev two : Ranks
two = record {
  count = 2;
  rank = λ i. pos i;
  text = λ i. to_cells 0 (logs i);
  faults = λ i. no_faults;
}

two-AreRegular : AreRegular two
two-AreRegular = record {
  distinct = λ i j hi hj e. ground arith;
  faultless = λ i hi. no_faults-IsFaultless;
}

all_arrived :
    (s : Finalizing)
    → has_arrived (s.pc 0) ≡ true
    → has_arrived (s.pc 1) ≡ true
    → (j : ℕ) → j < 2
    → has_arrived (s.pc j) ≡ true
all_arrived s h k zero lt = h
all_arrived s h k (suc zero) lt = k
all_arrived s h k (suc (suc j)) lt = absurd (omega arith)

-- Both have written, and rank 0 has left the barrier.
abbrev s1 : Finalizing
s1 = made (at_start none) 0 created (create_dir_all no_faults (fresh none))

abbrev s2 : Finalizing
s2 = made s1 1 created (create_dir_all no_faults (fresh s1.traces))

abbrev s3 : Finalizing
s3 = made s2 1 opened (open_truncated no_faults (file_name (pos 1)) (fresh s2.traces))

abbrev s4 : Finalizing
s4 = made s3 0 opened (open_truncated no_faults (file_name (pos 0)) (fresh s3.traces))

abbrev s5 : Finalizing
s5 =
    made s4 0 arrived
      (write_text no_faults (file_name (pos 0)) (to_cells 0 (logs 0)) (fresh s4.traces))

abbrev s6 : Finalizing
s6 =
    made s5 1 arrived
      (write_text no_faults (file_name (pos 1)) (to_cells 0 (logs 1)) (fresh s5.traces))

abbrev s7 : Finalizing
s7 = record s6 { pc = update s6.pc 0 released }

r6 : Reach two none s6
unfolding create_dir_all open_truncated write_text put
r6 =
    let r1 : Reach two none s1 = next here (create 0 (omega arith) refl) in
    let r2 : Reach two none s2 = next r1 (create 1 (omega arith) refl) in
    let r3 : Reach two none s3 = next r2 (open_file 1 (omega arith) refl) in
    let r4 : Reach two none s4 = next r3 (open_file 0 (omega arith) refl) in
    let r5 : Reach two none s5 = next r4 (write 0 (omega arith) refl) in
    next r5 (write 1 (omega arith) refl)

r7 : Reach two none s7
unfolding create_dir_all open_truncated write_text put
r7 = next {s = s6} r6 (release 0 (omega arith) refl (all_arrived s6 refl refl))

Reach-complete_example :
    ((j : ℕ) → j < 2 → lookup (name_of two j) (entries s7.traces) ≡ some (to_cells 0 (logs j)))
    × ((file : Text)
        → ((j : ℕ) → j < 2 → text_eq (name_of two j) file ≡ false)
        → lookup file (entries s7.traces) ≡ lookup file (entries none))
Reach-complete_example = Reach-complete two-AreRegular r7 0 (omega arith) refl

logs-HaveFiniteTime : (i : ℕ) → All HasFiniteTime (logs i)
unfolding event_of is_finite box new_mpi_init new_mpi_init_thread new_mpi_finalize
logs-HaveFiniteTime zero = (refl, (tt, (tt, (refl, tt))))
logs-HaveFiniteTime (suc i) = (refl, (tt, (refl, tt)))

two-AreLogs : AreLogs cell_json two logs
two-AreLogs = record { serialized = λ i lt. refl; finite = λ i lt. logs-HaveFiniteTime i }

abbrev merging : Machine
merging = fresh s7.traces

sort_all_traces-Reach_example :
    (t : Text) × (d : Directory) × (out : List Text) × (es sorted : List Event) × (sort_all_traces
        cell_json insertion_sort sort_env merging
      ≡ (ret tt, record merging { traces = some d; stdout = out }))
    × (lookup result_name d ≡ some t)
    × (cell_json.from_str t ≡ restore_all cell_json.reparse sorted)
    × IsSorted tsc sorted
    × Perm sorted es
    × (restore_all cell_json.reparse (collected logs (upto 2)) ≡ some es)
sort_all_traces-Reach_example =
    sort_all_traces-Reach cell_json-IsSerdeJson two-AreLogs insertion_sort insertion_sort-IsRayon
      sort_env two-AreRegular nil (λ i lt. refl) r7 0 (omega arith) refl readable-IsReadable
      no_faults-IsFaultless merging refl

-- The other order: rank 1 has written before rank 0 comes, and is the first behind the barrier.
abbrev u1 : Finalizing
u1 = made (at_start none) 1 created (create_dir_all no_faults (fresh none))

abbrev u2 : Finalizing
u2 = made u1 1 opened (open_truncated no_faults (file_name (pos 1)) (fresh u1.traces))

abbrev u3 : Finalizing
u3 =
    made u2 1 arrived
      (write_text no_faults (file_name (pos 1)) (to_cells 0 (logs 1)) (fresh u2.traces))

abbrev u4 : Finalizing
u4 = made u3 0 created (create_dir_all no_faults (fresh u3.traces))

abbrev u5 : Finalizing
u5 = made u4 0 opened (open_truncated no_faults (file_name (pos 0)) (fresh u4.traces))

abbrev u6 : Finalizing
u6 =
    made u5 0 arrived
      (write_text no_faults (file_name (pos 0)) (to_cells 0 (logs 0)) (fresh u5.traces))

abbrev u7 : Finalizing
u7 = record u6 { pc = update u6.pc 1 released }

q6 : Reach two none u6
unfolding create_dir_all open_truncated write_text put
q6 =
    let q1 : Reach two none u1 = next here (create 1 (omega arith) refl) in
    let q2 : Reach two none u2 = next q1 (open_file 1 (omega arith) refl) in
    let q3 : Reach two none u3 = next q2 (write 1 (omega arith) refl) in
    let q4 : Reach two none u4 = next q3 (create 0 (omega arith) refl) in
    let q5 : Reach two none u5 = next q4 (open_file 0 (omega arith) refl) in
    next q5 (write 0 (omega arith) refl)

q7 : Reach two none u7
unfolding create_dir_all open_truncated write_text put
q7 = next {s = u6} q6 (release 1 (omega arith) refl (all_arrived u6 refl refl))

all_logs-restored :
    restore_all cell_json.reparse (collected logs (upto 2)) ≡ some (collected logs (upto 2))
unfolding restore_all restore event_of is_finite box new_mpi_init new_mpi_init_thread
    new_mpi_finalize
all_logs-restored = refl

all_logs-IsDistinct : IsDistinct (time_stamps (collected logs (upto 2)))
unfolding tsc event_of box new_mpi_init new_mpi_init_thread new_mpi_finalize new_mpi_isend
    new_mpi_wait new_mpi_ireduce
all_logs-IsDistinct = (refl, (refl, (refl, (refl, (refl, (refl, (refl, tt)))))))

abbrev merging_1 : Machine
merging_1 = fresh u7.traces

read_back_unique_example :
    read_back cell_json (sort_all_traces cell_json insertion_sort sort_env merging)
    ≡ read_back cell_json (sort_all_traces cell_json insertion_sort sort_env merging_1)
read_back_unique_example =
    read_back_unique cell_json-IsSerdeJson two-AreLogs insertion_sort insertion_sort
      insertion_sort-IsRayon insertion_sort-IsRayon sort_env sort_env two-AreRegular nil
      (λ i lt. refl) (collected logs (upto 2)) all_logs-restored all_logs-IsDistinct r7 q7 0 1
      (omega arith) (omega arith) refl refl readable-IsReadable readable-IsReadable
      no_faults-IsFaultless no_faults-IsFaultless merging merging_1 refl refl

-- Rank 1 finalizes while rank 0 has made the directory.
serialize-CanArrive_example :
    CanArrive two 1
      (omega arith)
      s1
      (serialize cell_json no_faults
        (pos 1)
        (record (fresh s1.traces) { events = record { items = logs 1; capacity = 4 } })).1.traces
serialize-CanArrive_example =
    serialize-CanArrive two 1 (omega arith) cell_json
      (record (fresh s1.traces) { events = record { items = logs 1; capacity = 4 } }) refl s1 refl
      refl
