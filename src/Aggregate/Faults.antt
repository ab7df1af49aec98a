-- ===== src/Aggregate/Faults.antt =====
-- What the merge does to the other files, whichever calls of the operating system fail.
use interpol.Base.{
  Option, ◌≡◌, ◌∙◌, refl, true, false, List, [], ◌∷◌, Text, text_eq, text_eq_iff, codes, arith,
  ◌++◌, Bool-cases, Option-cases, inl, inr,
}
use interpol.Event.{Event, tsc}
use interpol.Json.{SerdeJson}
use interpol.Machine.{Directory, Machine, Ctl, ret, fail, panic, abort, M, ◌>>=◌}
use interpol.Files.{WriteFaults, entries, lookup, open_truncated, write_text}
use interpol.Files.Laws.{lookup-put, lookup-remove}
use interpol.Aggregate.{
  result_name, without, ReadFaults, Rayon, SortEnvironment, read_entry, read_entries,
  deserialize_all_traces, write_all_traces, or_panic, or_eprintln, serialize_sorted,
  write_or_report, sort_and_write, sort_all_traces,
}

-- A step that ends with these contents of a file and this vector, and does not abort the process.
abbrev Keeps : {A : Type 0} → Text → Machine → Ctl A × Machine → Type 0
Keeps file s (abort, s') = ⊥
Keeps file s (_, s') =
    (lookup file (entries s'.traces) ≡ lookup file (entries s.traces)) × (s'.events ≡ s.events)

-- An entry point that ends for its caller: it returns or panics.
abbrev pub Ends : Text → Machine → Ctl (Unit {0}) × Machine → Type 0
Ends file s (fail e, s') = ⊥
Ends file s (abort, s') = ⊥
Ends file s (_, s') =
    (lookup file (entries s'.traces) ≡ lookup file (entries s.traces)) × (s'.events ≡ s.events)

module _ (json : SerdeJson) (faults : ReadFaults) (file : Text)
    (other : text_eq result_name file ≡ false) where
  without-lookup :
      (name : Text) (s : Machine)
      → text_eq name result_name ≡ true
      → lookup file (entries (without name s).traces) ≡ lookup file (entries s.traces)
  without-lookup name s same = grind (arith, lookup-remove, text_eq_iff)

  without-Keeps :
      {A : Type 0} (name : Text) (s : Machine)
      → text_eq name result_name ≡ true
      → (r : Ctl A × Machine) → Keeps file (without name s) r
      → Keeps file s r
  without-Keeps name s same (abort, s') h = h
  without-Keeps name s same (ret _, s') h = (h.0 ∙ without-lookup name s same, h.1)
  without-Keeps name s same (fail _, s') h = (h.0 ∙ without-lookup name s same, h.1)
  without-Keeps name s same (panic _, s') h = (h.0 ∙ without-lookup name s same, h.1)

  read_entry-Keeps :
      (name contents : Text) (all : List Event) (rest : List Event → M (List Event))
      → ((all : List Event) (s : Machine) → Keeps file s (rest all s))
      → (s : Machine) → Keeps file s (read_entry json faults name contents all rest s)
  unfolding read_entry
  read_entry-Keeps name contents all rest next s = elim (Bool-cases (text_eq name result_name)) [
    | inl same ↦
        ground
          (arith, without-Keeps name s same (rest all (without name s)) (next all (without name s)))
    | inr differs ↦ elim (Option-cases (json.from_str contents)) [
      | inl unread ↦ ground (arith, next all s)
      | inr (new, e) ↦ ground (arith, next all s, next (all ++ new) s)
    ]
  ]

  read_entries-Keeps :
      (d : Directory) (all : List Event) (s : Machine)
      → Keeps file s (read_entries json faults d all s)
  unfolding read_entries
  read_entries-Keeps [] all s = ground arith
  read_entries-Keeps ((name, contents) ∷ d) all s =
      read_entry-Keeps name contents all (read_entries json faults d) (read_entries-Keeps d) s

  deserialize_all_traces-Keeps : (s : Machine) → Keeps file s (deserialize_all_traces json faults s)
  unfolding deserialize_all_traces
  deserialize_all_traces-Keeps s = grind (arith, read_entries-Keeps)

write_all_traces-Keeps :
    (faults : WriteFaults) (file t : Text)
    → text_eq result_name file ≡ false
    → (s : Machine) → Keeps file s (write_all_traces faults t s)
unfolding write_all_traces open_truncated write_text
write_all_traces-Keeps faults file t other s = grind (arith, lookup-put)

-- An `Err` that is printed or made a panic.
or_eprintln-Ends :
    (file : Text) (s : Machine) (r : Ctl (Unit {0}) × Machine)
    → Keeps file s r
    → Ends file s (or_eprintln r)
or_eprintln-Ends file s (ret _, t) h = h
or_eprintln-Ends file s (fail e, t) h = h
or_eprintln-Ends file s (panic p, t) h = h
or_eprintln-Ends file s (abort, t) h = h

Ends-trans :
    (file : Text) (s t : Machine) (r : Ctl (Unit {0}) × Machine)
    → lookup file (entries t.traces) ≡ lookup file (entries s.traces)
    → t.events ≡ s.events
    → Ends file t r
    → Ends file s r
Ends-trans file s t (ret _, u) d v h = (h.0 ∙ d, h.1 ∙ v)
Ends-trans file s t (fail e, u) d v h = h
Ends-trans file s t (panic p, u) d v h = (h.0 ∙ d, h.1 ∙ v)
Ends-trans file s t (abort, u) d v h = h

or_panic-Ends :
    (file : Text) (s : Machine) (r : Ctl (List Event) × Machine) (k : List Event → M (Unit {0}))
    → Keeps file s r
    → ((es : List Event) (t : Machine) → Ends file t (k es t))
    → Ends file s (((λ (t : Machine). or_panic r) >>= k) s)
or_panic-Ends file s (ret es, t) k h next = Ends-trans file s t (k es t) h.0 h.1 (next es t)
or_panic-Ends file s (fail e, t) k h next = h
or_panic-Ends file s (panic p, t) k h next = h
or_panic-Ends file s (abort, t) k h next = h

module _ (json : SerdeJson) (rayon : Rayon) (env : SortEnvironment) (file : Text)
    (other : text_eq result_name file ≡ false) where
  write_or_report-Ends : (t : Text) (s : Machine) → Ends file s (write_or_report env t s)
  write_or_report-Ends t s =
      or_eprintln-Ends file s (write_all_traces env.writes t s)
        (write_all_traces-Keeps env.writes file t other s)

  serialize_sorted-Ends :
      (output : Option Text) (es : List Event) (s : Machine)
      → Ends file s ((serialize_sorted json output es >>= write_or_report env) s)
  unfolding serialize_sorted
  serialize_sorted-Ends output es s = grind (arith, write_or_report-Ends)

  sort_and_write-Ends :
      (es : List Event) (s : Machine) → Ends file s (sort_and_write json rayon env es s)
  unfolding sort_and_write
  sort_and_write-Ends es s =
      let s' = record s {
        stdout =
            (s.stdout ++ codes "[interpol]: sorting traces... " ∷ [])
            ++ (codes "finished in " ++ env.elapsed) ∷ [];
      } in
      Ends-trans file s s' (sort_and_write json rayon env es s) refl refl
        (serialize_sorted-Ends env.interpol_output (rayon.par_sort_unstable_by_key tsc es) s')

  pub sort_all_traces_others : (s : Machine) → Ends file s (sort_all_traces json rayon env s)
  unfolding sort_all_traces
  sort_all_traces_others s =
      let s' = record s {
        stdout = s.stdout ++ codes "[interpol]: deserializing traces for each rank" ∷ [];
      } in
      Ends-trans file s s' (sort_all_traces json rayon env s) refl refl (
        or_panic-Ends file s' (deserialize_all_traces json env.reads s')
          (sort_and_write json rayon env)
          (deserialize_all_traces-Keeps json env.reads file other s') sort_and_write-Ends)
