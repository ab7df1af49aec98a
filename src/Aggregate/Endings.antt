-- ===== src/Aggregate/Endings.antt =====
-- How `sort_all_traces` ends, by what the directory holds and which calls of the operating system
-- fail while it is read.
use interpol.Base.{
  ◌++◌, ◌≡◌, refl, ◌∙◌, sym, ap, none, some, take, inl, inr, List, [], ◌∷◌, Text, codes, arith,
  Option-cases,
}
use mathlib.Core.List.{append-nil}
use interpol.Error.{IoError, from_io, show_error}
use interpol.Event.{Event, tsc}
use interpol.Json.{SerdeJson, IsSerdeJson, restore_all}
use interpol.Files.{WriteFaults, put, open_truncated, write_text}
use interpol.Files.Laws.{put-put}
use interpol.Aggregate.Sorted.{serialize_sorted-IsSerdeJson}
use interpol.Machine.{Directory, Machine, Ctl, ret, panic, >>=-eq-of_panic, >>=-eq-of_ret}
use interpol.Aggregate.{
  result_name, Rayon, SortEnvironment, or_panic, read_entries, deserialize_all_traces,
  write_all_traces, serialize_sorted, write_or_report, sort_and_write, sort_all_traces,
}
use interpol.Aggregate.Passes.{Passes, purged, deserialize_all_traces-Passes}
use interpol.Aggregate.Stops.{Stopped, Directory-cases, deserialize_all_traces-Stopped}

abbrev start_message : Text
start_message = codes "[interpol]: deserializing traces for each rank"

-- The state after the first line of output.
abbrev pub begun : Machine → Machine
begun s = record s { stdout = s.stdout ++ start_message ∷ [] }

-- What the write of the result leaves, and what it prints of a failure.
abbrev pub left : WriteFaults → Text → Directory → Directory
left faults t d = elim faults.open_file [
  | some e ↦ d
  | none ↦ elim faults.write [
    | none ↦ put result_name t d
    | some (count, e) ↦ put result_name (take count t) d
  ]
]

abbrev pub complaints : WriteFaults → List Text
complaints faults = elim faults.open_file [
  | some e ↦ show_error (from_io e) ∷ []
  | none ↦ elim faults.write [ none ↦ [] | some (count, e) ↦ show_error (from_io e) ∷ [] ]
]

abbrev wrote : Machine → Directory → List Text → Ctl (Unit {0}) × Machine
wrote s d errors = (ret tt, record s { traces = some d; stderr = s.stderr ++ errors })

write_or_report-left :
    (env : SortEnvironment) (t : Text) (s : Machine) (d : Directory)
    → s.traces ≡ some d
    → write_or_report env t s ≡ wrote s (left env.writes t d) (complaints env.writes)
unfolding write_all_traces open_truncated write_text
write_or_report-left env t s d e = elim (Option-cases env.writes.open_file) [
  | inr (error, h) ↦ ground arith
  | inl opened ↦ elim (Option-cases env.writes.write) [
    | inr ((count, error), h) ↦ ground (arith, put-put result_name (take count t) [] d)
    | inl h ↦ ground (arith, append-nil s.stderr, put-put result_name t [] d)
  ]
]

-- The ways in which the merge ends.
pub data Ending (json : SerdeJson) (rayon : Rayon) (env : SortEnvironment) (s : Machine)
    : Type 0 where
  refused :
      {e : IoError}
      → env.reads.read_dir ≡ some e
      → sort_all_traces json rayon env s ≡ (panic (show_error (from_io e)), begun s)
      → Ending json rayon env s
  missing :
      env.reads.read_dir ≡ none
      → s.traces ≡ none
      → sort_all_traces json rayon env s
        ≡ (panic (show_error (from_io env.reads.not_found)), begun s)
      → Ending json rayon env s
  stopped :
      {d : Directory}
      → env.reads.read_dir ≡ none
      → s.traces ≡ some d
      → (first : Stopped json env.reads d)
      → sort_all_traces json rayon env s
        ≡ (panic first.message, record (begun s) { traces = some (purged first.before d) })
      → Ending json rayon env s
  cut_off :
      {d : Directory} {es : List Event} {e : IoError}
      → env.reads.read_dir ≡ none
      → s.traces ≡ some d
      → Passes json env.reads d es
      → env.reads.after_last ≡ some e
      → sort_all_traces json rayon env s
        ≡ (panic (show_error (from_io e)), record (begun s) { traces = some (purged d d) })
      → Ending json rayon env s
  merged :
      {d : Directory} {es : List Event}
      → env.reads.read_dir ≡ none
      → s.traces ≡ some d
      → Passes json env.reads d es
      → env.reads.after_last ≡ none
      → (t : Text) (out : List Text)
      → json.from_str t ≡ restore_all json.reparse (rayon.par_sort_unstable_by_key tsc es)
      → sort_all_traces json rayon env s ≡ (
        ret tt,
        record s {
          traces = some (left env.writes t (purged d d));
          stdout = out;
          stderr = s.stderr ++ complaints env.writes;
        },
      )
      → Ending json rayon env s

module _ (json : SerdeJson) (law : IsSerdeJson json) (rayon : Rayon) (env : SortEnvironment) where
  -- The sort, the text and the write.
  sort_and_write-left :
      (es : List Event) (s : Machine) (d : Directory)
      → s.traces ≡ some d
      → (t : Text) × (out : List Text) × (sort_and_write json rayon env es s
          ≡ wrote (record s { stdout = out }) (left env.writes t d) (complaints env.writes))
        × (json.from_str t ≡ restore_all json.reparse (rayon.par_sort_unstable_by_key tsc es))
  unfolding sort_and_write
  sort_and_write-left es s d e =
      let sorted = rayon.par_sort_unstable_by_key tsc es in
      let s' = record s {
        stdout =
            (s.stdout ++ codes "[interpol]: sorting traces... " ∷ [])
            ++ (codes "finished in " ++ env.elapsed) ∷ [];
      } in
      let (t, line, serialized, back) =
        serialize_sorted-IsSerdeJson json law env.interpol_output sorted s' in
      (
        t,
        s'.stdout ++ line ∷ [],
        >>=-eq-of_ret (serialize_sorted json env.interpol_output sorted) (write_or_report env)
              serialized
            ∙ write_or_report-left env t (record s' { stdout = s'.stdout ++ line ∷ [] }) d e,
        back,
      )

  -- The listing ends without an error.
  read_entries-ended :
      (es : List Event) (s : Machine)
      → env.reads.after_last ≡ none
      → read_entries json env.reads [] es s ≡ (ret es, s)
  unfolding read_entries
  read_entries-ended es s ended = ground arith

  sort_all_traces-passed :
      (s : Machine) (d : Directory) (es : List Event)
      → env.reads.read_dir ≡ none
      → s.traces ≡ some d
      → Passes json env.reads d es
      → env.reads.after_last ≡ none
      → sort_all_traces json rayon env s
        ≡ sort_and_write json rayon env es (record (begun s) { traces = some (purged d d) })
  unfolding sort_all_traces read_entries
  sort_all_traces-passed s d es listed e l ended =
      >>=-eq-of_ret (λ r. or_panic (deserialize_all_traces json env.reads r))
        (sort_and_write json rayon env)
        (ap or_panic (
          deserialize_all_traces-Passes json env.reads [] listed l (begun s)
            (e ∙ ap some (sym (append-nil d)))
          ∙ read_entries-ended es (record (begun s) { traces = some (purged d (d ++ [])) }) ended
          ∙ ap (λ dir. (ret es, record (begun s) { traces = some (purged d dir) })) (append-nil d)))

  sort_all_traces-failed :
      (s : Machine) {message : Text} {s' : Machine}
      → or_panic (deserialize_all_traces json env.reads (begun s)) ≡ (panic message, s')
      → sort_all_traces json rayon env s ≡ (panic message, s')
  unfolding sort_all_traces
  sort_all_traces-failed s e =
      >>=-eq-of_panic (λ r. or_panic (deserialize_all_traces json env.reads r))
        (sort_and_write json rayon env) e

  -- An error of the listing after its last entry.
  sort_all_traces-cut_off :
      (s : Machine) (d : Directory) (es : List Event) (e : IoError)
      → env.reads.read_dir ≡ none
      → s.traces ≡ some d
      → Passes json env.reads d es
      → env.reads.after_last ≡ some e
      → sort_all_traces json rayon env s
        ≡ (panic (show_error (from_io e)), record (begun s) { traces = some (purged d d) })
  unfolding read_entries
  sort_all_traces-cut_off s d es e listed there l h = sort_all_traces-failed s (
      ap or_panic (
        deserialize_all_traces-Passes json env.reads [] listed l (begun s)
          (there ∙ ap some (sym (append-nil d))))
      ∙ ground (arith, h, append-nil d))

  -- Given the documented behaviour of serde_json, and as long as the standard streams can be
  -- written: whatever the directory holds and whichever calls on it fail, `sort_all_traces` ends in
  -- one of five ways. If the directory cannot be listed, or is not there, it panics with that
  -- error. If it cannot get past some entry, since a call on the entry is refused, the name has no
  -- extension, or a `.json` file does not hold traces, it panics with the message for the first
  -- such entry, and in the directory only a result listed before that entry is gone. If the listing
  -- gives an error after its last entry, it panics with that error, and only a result is gone.
  -- Otherwise it returns, and its text reads as what JSON gives back of the events of all `.json`
  -- files but the result, in the order that rayon's sort puts them in; the result file holds the
  -- text, or as much of it as was written before a write failed, or, if it could not be opened, the
  -- directory is as it was after the reading; and a failure of these calls is printed on the
  -- standard error.
  pub sort_all_traces-Ending : (s : Machine) → Ending json rayon env s
  unfolding sort_all_traces deserialize_all_traces
  sort_all_traces-Ending s = elim (Option-cases env.reads.read_dir) [
    | inr (e, h) ↦ Ending.refused h (sort_all_traces-failed s (ground arith))
    | inl listed ↦ elim (Option-cases s.traces) [
      | inl none_there ↦ Ending.missing listed none_there (sort_all_traces-failed s (ground arith))
      | inr (d, there) ↦ elim (Directory-cases json env.reads d) [
        | inl (es, l) ↦ elim (Option-cases env.reads.after_last) [
          | inl ended ↦
              let (t, out, written, back) =
                sort_and_write-left es (record (begun s) { traces = some (purged d d) })
                  (purged d d) refl in
              Ending.merged listed there l ended t out back
                (sort_all_traces-passed s d es listed there l ended ∙ written)
          | inr (e, h) ↦
              Ending.cut_off listed there l h (sort_all_traces-cut_off s d es e listed there l h)
        ]
        | inr first ↦ Ending.stopped listed there first (
            sort_all_traces-failed s
              (deserialize_all_traces-Stopped json env.reads d (begun s) first listed there))
      ]
    ]
  ]
