-- ===== src/Aggregate/Passes.antt =====
-- The loop of `deserialize_all_traces` over entries that it reads, and what it leaves in the
-- directory.
use interpol.Files.Laws.{lookup-remove}
use interpol.Base.{
  inl, inr, Bool-cases, text_eq→eq, ◌++◌, ◌≡◌, ◌∙◌, sym, ap, refl, true, false, if◌then◌else◌, none,
  some, List, [], ◌∷◌, Text, text_eq, codes, arith,
}
use mathlib.Core.List.{append_assoc, append-nil}
use interpol.Event.{Event}
use interpol.Json.{SerdeJson}
use interpol.Machine.{Directory, Machine, Ctl, M}
use interpol.Files.{remove, lookup}
use interpol.Aggregate.{
  result_name, without, extension, ReadFaults, read_entry, read_entries, deserialize_all_traces,
}

-- Entries that the loop gets past, with the events of the trace files among them, in the order of
-- the listing. A result of an earlier run and files of other types hold none.
pub data Passes (json : SerdeJson) (faults : ReadFaults) : Directory → List Event → Type 0 where
  nil : Passes json faults [] []
  old :
      {name contents : Text} {d : Directory} {es : List Event}
      → faults.entry name ≡ none
      → text_eq name result_name ≡ true
      → faults.remove_file name ≡ none
      → Passes json faults d es
      → Passes json faults ((name, contents) ∷ d) es
  traces :
      {name contents ext : Text} {new : List Event} {d : Directory} {es : List Event}
      → faults.entry name ≡ none
      → text_eq name result_name ≡ false
      → extension name ≡ some ext
      → text_eq ext (codes "json") ≡ true
      → faults.read_to_string name ≡ none
      → json.from_str contents ≡ some new
      → Passes json faults d es
      → Passes json faults ((name, contents) ∷ d) (new ++ es)
  other :
      {name contents ext : Text} {d : Directory} {es : List Event}
      → faults.entry name ≡ none
      → text_eq name result_name ≡ false
      → extension name ≡ some ext
      → text_eq ext (codes "json") ≡ false
      → Passes json faults d es
      → Passes json faults ((name, contents) ∷ d) es

-- The directory after the entries of a listing have been visited.
abbrev pub purged : Directory → Directory → Directory
purged [] dir = dir
purged ((name, contents) ∷ d) dir =
    purged d (if text_eq name result_name then remove name dir else dir)

module _ (json : SerdeJson) (faults : ReadFaults) where
  -- One entry of each sort.
  read_entry-old :
      (name contents : Text) (all : List Event) (rest : List Event → M (List Event)) (s : Machine)
      → faults.entry name ≡ none
      → text_eq name result_name ≡ true
      → faults.remove_file name ≡ none
      → read_entry json faults name contents all rest s ≡ rest all (without name s)
  unfolding read_entry
  read_entry-old name contents all rest s found same removed = ground arith

  read_entry-traces :
      (name contents ext : Text) (all new : List Event) (rest : List Event → M (List Event))
      (s : Machine)
      → faults.entry name ≡ none
      → text_eq name result_name ≡ false
      → extension name ≡ some ext
      → text_eq ext (codes "json") ≡ true
      → faults.read_to_string name ≡ none
      → json.from_str contents ≡ some new
      → read_entry json faults name contents all rest s ≡ rest (all ++ new) s
  unfolding read_entry
  read_entry-traces name contents ext all new rest s found differs e is_json read back =
      ground arith

  read_entry-other :
      (name contents ext : Text) (all : List Event) (rest : List Event → M (List Event))
      (s : Machine)
      → faults.entry name ≡ none
      → text_eq name result_name ≡ false
      → extension name ≡ some ext
      → text_eq ext (codes "json") ≡ false
      → read_entry json faults name contents all rest s ≡ rest all s
  unfolding read_entry
  read_entry-other name contents ext all rest s found differs e foreign = ground arith

  module _ (after : Directory) where
    -- The loop before the entries `after`.
    abbrev pub going : List Event → Machine → Directory → Ctl (List Event) × Machine
    going all s dir = read_entries json faults after all (record s { traces = some dir })

    -- The loop takes up the events of the entries and goes on.
    pub read_entries-Passes :
        {d : Directory} {es : List Event}
        → Passes json faults d es
        → (all : List Event) (s : Machine) (dir : Directory) → s.traces ≡ some dir
        → read_entries json faults (d ++ after) all s ≡ going (all ++ es) s (purged d dir)
    unfolding read_entries
    read_entries-Passes nil all s dir e = ground (arith, append-nil all)
    read_entries-Passes (old {name} {contents} {d} {es} found same removed l) all s dir e =
        read_entry-old name contents all (read_entries json faults (d ++ after)) s found same
          removed
        ∙ read_entries-Passes l all (without name s) (remove name dir) (ground arith)
        ∙ ap (λ b. going (all ++ es) s (purged d (if b then remove name dir else dir))) (sym same)
    read_entries-Passes
          (traces {name} {contents} {ext} {new} {d} {es} found differs e' is_json read back l) all s
          dir e =
        read_entry-traces name contents ext all new (read_entries json faults (d ++ after)) s found
          differs e' is_json read back
        ∙ read_entries-Passes l (all ++ new) s dir e
        ∙ ap (λ l. going l s (purged d dir)) (append_assoc all new es)
        ∙ ap (λ b. going (all ++ (new ++ es)) s (purged d (if b then remove name dir else dir)))
            (sym differs)
    read_entries-Passes (other {name} {contents} {ext} {d} {es} found differs e' foreign l) all s
          dir e =
        read_entry-other name contents ext all (read_entries json faults (d ++ after)) s found
          differs e' foreign
        ∙ read_entries-Passes l all s dir e
        ∙ ap (λ b. going (all ++ es) s (purged d (if b then remove name dir else dir)))
            (sym differs)

    pub deserialize_all_traces-Passes :
        {d : Directory} {es : List Event}
        → faults.read_dir ≡ none
        → Passes json faults d es
        → (s : Machine) → s.traces ≡ some (d ++ after)
        → deserialize_all_traces json faults s ≡ going es s (purged d (d ++ after))
    unfolding deserialize_all_traces
    deserialize_all_traces-Passes {d} listed l s e =
        ground (arith, read_entries-Passes l [] s (d ++ after) e)

-- The loop removes no file but the result of an earlier run.
pub lookup-purged :
    (file : Text) (d dir : Directory)
    → text_eq result_name file ≡ false
    → lookup file (purged d dir) ≡ lookup file dir
lookup-purged file [] dir h = refl
lookup-purged file ((name, contents) ∷ d) dir h = elim (Bool-cases (text_eq name result_name)) [
  | inl same ↦ rw same (
      lookup-purged file d (remove name dir) h
      ∙ lookup-remove name file dir
          (ap (λ n. text_eq n file) (text_eq→eq name result_name same) ∙ h))
  | inr differs ↦ rw differs (lookup-purged file d dir h)
]
