-- ===== src/Aggregate.antt =====
-- `sort_all_traces`, `deserialize_all_traces` and `write_all_traces` of
-- interpol-rs/src/interpol.rs: rank 0 merges the files of all ranks, sorts the events by time stamp
-- and writes the result.
pub mod Extension
pub mod Faults
pub mod Listing
pub mod Passes
pub mod Endings
pub mod Stops
pub mod Sorted
pub mod Unique
use interpol.Base.{
  ◌++◌, ◌==◌, ◌≤◌, ℕ, if◌then◌else◌, Option, none, some, List, [], ◌∷◌, Text, text_eq, codes, All,
}
use mathlib.Core.List.{Perm}
use interpol.Error.{InterpolError, IoError, from_io, show_error}
use interpol.Event.{Event, tsc}
use interpol.Json.{SerdeJson}
use interpol.Machine.{
  Directory, Machine, Ctl, ret, fail, panic, abort, M, ◌>>=◌, ◌>>◌, pure, expect, io, print,
  println, eprintln,
}
use interpol.Files.{WriteFaults, remove, open_truncated, write_text}

abbrev pub result_name : Text
result_name = codes "interpol_traces.json"

-- The failures of the calls of the operating system while the directory is read, by the file. The
-- listing may give an error in the place of each entry, and one after the last.
pub record ReadFaults : Type 0 where
  pub read_dir : Option IoError
  pub not_found : IoError
  pub entry : Text → Option IoError
  pub after_last : Option IoError
  pub remove_file : Text → Option IoError
  pub read_to_string : Text → Option IoError

-- `slice::par_sort_unstable_by_key` of the crate `rayon`, with the documented behaviour.
pub record Rayon : Type 0 where
  pub par_sort_unstable_by_key : (Event → ℕ) → List Event → List Event

abbrev pub IsSorted : (Event → ℕ) → List Event → Type 0
IsSorted key [] = Unit
IsSorted key (x ∷ xs) = All (λ y. key x ≤ key y) xs × IsSorted key xs

pub record IsRayon (rayon : Rayon) : Type 0 where
  pub sorted :
      (key : Event → ℕ) (l : List Event) → IsSorted key (rayon.par_sort_unstable_by_key key l)
  pub perm : (key : Event → ℕ) (l : List Event) → Perm (rayon.par_sort_unstable_by_key key l) l

-- What stands before and after the last dot.
unfoldable pub split_last_dot : Text → Option (Text × Text)
split_last_dot [] = none
split_last_dot (c ∷ s) = elim (split_last_dot s) [
  | some (before, after) ↦ some (c ∷ before, after)
  | none ↦ if c == b'.' then some ([], s) else none
]

abbrev suffix : Option (Text × Text) → Option Text
suffix none = none
suffix (some ([], after)) = none
suffix (some (c ∷ before, after)) = some after

-- `Path::extension`
unfoldable pub extension : Text → Option Text
unfolding split_last_dot
extension name = if text_eq name (codes "..") then none else suffix (split_last_dot name)

-- The file of that name taken out of the directory.
abbrev pub without : Text → Machine → Machine
without name s = record s { traces = elim s.traces [ none ↦ none | some d ↦ some (remove name d) ] }

-- One entry of the loop, `all_traces` so far, and the rest of the loop.
unfoldable pub read_entry :
    SerdeJson
    → ReadFaults
    → Text
    → Text
    → List Event
    → (List Event → M (List Event))
    → M (List Event)
unfolding extension
read_entry json faults name contents all rest = do
  io (faults.entry name)
  if text_eq name result_name
      then (do io (faults.remove_file name); λ s. rest all (without name s))
      else (do
        ext ← expect "called `Option::unwrap()` on a `None` value" (extension name)
        if text_eq ext (codes "json")
            then (do
              io (faults.read_to_string name)
              deserialized ←
                  expect "failed to deserialize trace file contents" (json.from_str contents)
              rest (all ++ deserialized))
            else rest all)

-- The loop over the entries of the directory, as they were listed.
unfoldable pub read_entries : SerdeJson → ReadFaults → Directory → List Event → M (List Event)
unfolding read_entry
read_entries json faults [] all = do io faults.after_last; pure all
read_entries json faults ((name, contents) ∷ d) all =
    read_entry json faults name contents all (read_entries json faults d)

unfoldable pub deserialize_all_traces : SerdeJson → ReadFaults → M (List Event)
deserialize_all_traces json faults = do
  io faults.read_dir
  λ s. elim s.traces [
    | none ↦ (fail (from_io faults.not_found), s)
    | some d ↦ read_entries json faults d [] s
  ]

unfoldable pub write_all_traces : WriteFaults → Text → M (Unit {0})
write_all_traces faults serialized_traces = do
  open_truncated faults result_name
  write_text faults result_name serialized_traces

-- What the environment answers during one call: the variable `INTERPOL_OUTPUT`, the time that the
-- sort takes as it is printed, and the failures on the disk.
pub record SortEnvironment : Type 0 where
  pub reads : ReadFaults
  pub writes : WriteFaults
  pub interpol_output : Option Text
  pub elapsed : Text

-- `Err(e) => panic!("{e}")`
abbrev pub or_panic : {A : Type 0} → Ctl A × Machine → Ctl A × Machine
or_panic (ret a, s) = (ret a, s)
or_panic (fail e, s) = (panic (show_error e), s)
or_panic (panic p, s) = (panic p, s)
or_panic (abort, s) = (abort, s)

-- `Err(e) => eprintln!("{e}")`
abbrev pub or_eprintln : Ctl (Unit {0}) × Machine → Ctl (Unit {0}) × Machine
or_eprintln (ret _, s) = (ret tt, s)
or_eprintln (fail e, s) = eprintln (show_error e) s
or_eprintln (panic p, s) = (panic p, s)
or_eprintln (abort, s) = (abort, s)

-- The two formats, by the value of `INTERPOL_OUTPUT`.
unfoldable pub serialize_sorted : SerdeJson → Option Text → List Event → M Text
serialize_sorted json (some val) all =
    if text_eq val (codes "readable")
    then (do
      println (codes "[interpol]: serializing all traces (pretty print)")
      expect "failed to serialize all traces" (json.to_string_pretty all))
    else (do
      println (codes "[interpol]: serializing all traces (compressed print)")
      expect "failed to serialize all traces" (json.to_string all))
serialize_sorted json none all = do
  println (codes "[interpol]: serializing all traces (compressed print)")
  expect "failed to serialize all traces" (json.to_string all)

abbrev pub write_or_report : SortEnvironment → Text → M (Unit {0})
write_or_report env serialized_traces s =
    or_eprintln (write_all_traces env.writes serialized_traces s)

-- What `sort_all_traces` does with the events that were read.
unfoldable pub sort_and_write : SerdeJson → Rayon → SortEnvironment → List Event → M (Unit {0})
sort_and_write json rayon env all_traces = do
  print (codes "[interpol]: sorting traces... ")
  let sorted = rayon.par_sort_unstable_by_key tsc all_traces
  println (codes "finished in " ++ env.elapsed)
  serialized_traces ← serialize_sorted json env.interpol_output sorted
  write_or_report env serialized_traces

unfoldable pub sort_all_traces : SerdeJson → Rayon → SortEnvironment → M (Unit {0})
unfolding sort_and_write
sort_all_traces json rayon env = do
  println (codes "[interpol]: deserializing traces for each rank")
  all_traces ← λ s. or_panic (deserialize_all_traces json env.reads s)
  sort_and_write json rayon env all_traces
