-- ===== src/Aggregate/Stops.antt =====
-- The first entry of the directory that `deserialize_all_traces` does not get past.
use interpol.Base.{
  ◌++◌, ◌≡◌, ◌∙◌, sym, ap, refl, true, false, none, some, ◌⊎◌, inl, inr, List, [], ◌∷◌, Text,
  text_eq, codes, arith, Bool-cases, Option-cases,
}
use interpol.Error.{IoError, from_io, show_error}
use interpol.Event.{Event}
use interpol.Json.{SerdeJson}
use interpol.Machine.{Directory, Machine, panic, M}
use interpol.Aggregate.{
  result_name, extension, ReadFaults, or_panic, read_entry, read_entries, deserialize_all_traces,
}
use interpol.Aggregate.Passes.{Passes, purged, deserialize_all_traces-Passes}

-- An entry that the loop does not get past, with the message of the panic.
pub data Stops (json : SerdeJson) (faults : ReadFaults) (name contents : Text) : Text → Type 0 where
  entry_refused :
      {e : IoError}
      → faults.entry name ≡ some e
      → Stops json faults name contents (show_error (from_io e))
  remove_refused :
      {e : IoError}
      → faults.entry name ≡ none
      → text_eq name result_name ≡ true
      → faults.remove_file name ≡ some e
      → Stops json faults name contents (show_error (from_io e))
  bare :
      faults.entry name ≡ none
      → text_eq name result_name ≡ false
      → extension name ≡ none
      → Stops json faults name contents (codes "called `Option::unwrap()` on a `None` value")
  read_refused :
      {ext : Text} {e : IoError}
      → faults.entry name ≡ none
      → text_eq name result_name ≡ false
      → extension name ≡ some ext
      → text_eq ext (codes "json") ≡ true
      → faults.read_to_string name ≡ some e
      → Stops json faults name contents (show_error (from_io e))
  garbled :
      {ext : Text}
      → faults.entry name ≡ none
      → text_eq name result_name ≡ false
      → extension name ≡ some ext
      → text_eq ext (codes "json") ≡ true
      → faults.read_to_string name ≡ none
      → json.from_str contents ≡ none
      → Stops json faults name contents (codes "failed to deserialize trace file contents")

module _ (json : SerdeJson) (faults : ReadFaults) where
  read_entry-Stops :
      {name contents message : Text}
      → Stops json faults name contents message
      → (all : List Event) (rest : List Event → M (List Event)) (s : Machine)
      → or_panic (read_entry json faults name contents all rest s) ≡ (panic message, s)
  unfolding read_entry
  read_entry-Stops (entry_refused found) all rest s = ground arith
  read_entry-Stops (remove_refused found same removed) all rest s = ground arith
  read_entry-Stops (bare found differs e) all rest s = ground arith
  read_entry-Stops (read_refused found differs e is_json read) all rest s = ground arith
  read_entry-Stops (garbled found differs e is_json read back) all rest s = ground arith

  -- The loop gets past an entry with some events, or stops at it.
  abbrev Verdict : Text → Text → Type 0
  Verdict name contents =
      ((new : List Event) × ((d : Directory) (es : List Event)
          → Passes json faults d es
          → Passes json faults ((name, contents) ∷ d) (new ++ es)))
      ⊎ ((message : Text) × Stops json faults name contents message)

  json-Verdict :
      (name contents ext : Text)
      → faults.entry name ≡ none
      → text_eq name result_name ≡ false
      → extension name ≡ some ext
      → text_eq ext (codes "json") ≡ true
      → Verdict name contents
  json-Verdict name contents ext found differs e is_json =
      elim (Option-cases (faults.read_to_string name)) [
        | inr (error, refused) ↦ inr (_, read_refused found differs e is_json refused)
        | inl read ↦ elim (Option-cases (json.from_str contents)) [
          | inl back ↦ inr (_, garbled found differs e is_json read back)
          | inr (new, back) ↦ inl (new, λ d es l. Passes.traces found differs e is_json read back l)
        ]
      ]

  entry-Verdict : (name contents : Text) → Verdict name contents
  entry-Verdict name contents = elim (Option-cases (faults.entry name)) [
    | inr (error, refused) ↦ inr (_, entry_refused refused)
    | inl found ↦ elim (Bool-cases (text_eq name result_name)) [
      | inl same ↦ elim (Option-cases (faults.remove_file name)) [
        | inr (error, refused) ↦ inr (_, remove_refused found same refused)
        | inl removed ↦ inl ([], λ d es l. Passes.old found same removed l)
      ]
      | inr differs ↦ elim (Option-cases (extension name)) [
        | inl none_there ↦ inr (_, bare found differs none_there)
        | inr (ext, e) ↦ elim (Bool-cases (text_eq ext (codes "json"))) [
          | inl is_json ↦ json-Verdict name contents ext found differs e is_json
          | inr foreign ↦ inl ([], λ d es l. Passes.other found differs e foreign l)
        ]
      ]
    ]
  ]

  -- The first entry that the loop does not get past.
  pub record Stopped (d : Directory) : Type 0 where
    pub before : Directory
    pub events : List Event
    pub passes : Passes json faults before events
    pub name : Text
    pub contents : Text
    pub message : Text
    pub stops : Stops json faults name contents message
    pub after : Directory
    pub listing : d ≡ before ++ (name, contents) ∷ after

  Stopped-cons :
      {name contents : Text} {d : Directory} (new : List Event)
      → ((d : Directory) (es : List Event)
          → Passes json faults d es
          → Passes json faults ((name, contents) ∷ d) (new ++ es))
      → Stopped d
      → Stopped ((name, contents) ∷ d)
  Stopped-cons {name} {contents} {d} new past first = record {
    before = (name, contents) ∷ first.before;
    events = new ++ first.events;
    passes = past first.before first.events first.passes;
    name = first.name;
    contents = first.contents;
    message = first.message;
    stops = first.stops;
    after = first.after;
    listing = ap (λ l. (name, contents) ∷ l) first.listing;
  }

  pub Directory-cases : (d : Directory) → ((es : List Event) × Passes json faults d es) ⊎ Stopped d
  Directory-cases [] = inl ([], Passes.nil)
  Directory-cases ((name, contents) ∷ d) = elim (entry-Verdict name contents) [
    | inr (message, h) ↦ inr (record {
      before = [];
      events = [];
      passes = Passes.nil;
      name = name;
      contents = contents;
      message = message;
      stops = h;
      after = d;
      listing = refl;
    })
    | inl (new, past) ↦ elim (Directory-cases d) [
      | inl (es, l) ↦ inl (new ++ es, past d es l)
      | inr first ↦ inr (Stopped-cons new past first)
    ]
  ]

  -- Up to the panic.
  pub deserialize_all_traces-Stopped :
      (d : Directory) (s : Machine) (first : Stopped d)
      → faults.read_dir ≡ none
      → s.traces ≡ some d
      → or_panic (deserialize_all_traces json faults s)
        ≡ (panic first.message, record s { traces = some (purged first.before d) })
  unfolding read_entries
  deserialize_all_traces-Stopped d s first listed e =
      let rest = (first.name, first.contents) ∷ first.after in
      ap or_panic (
        deserialize_all_traces-Passes json faults rest listed first.passes s
          (e ∙ ap some first.listing))
      ∙ read_entry-Stops first.stops first.events (read_entries json faults first.after)
          (record s { traces = some (purged first.before (first.before ++ rest)) })
      ∙ ap (λ dir. (panic first.message, record s { traces = some (purged first.before dir) }))
          (sym first.listing)
