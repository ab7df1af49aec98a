-- ===== src/Aggregate/Sorted.antt =====
-- What `sort_all_traces` writes.
use interpol.Base.{
  ◌++◌, ◌≡◌, ◌∙◌, ap, refl, false, if◌then◌else◌, Option, none, some, List, [], ◌∷◌, Text, text_eq,
  text_eq_self, codes, arith, Bool-cases, inl, inr,
}
use mathlib.Core.List.{Perm}
use interpol.Event.{Event, tsc}
use interpol.Json.{SerdeJson, IsSerdeJson, restore_all}
use interpol.Machine.{Directory, Machine, ret, >>=-eq-of_ret}
use interpol.Files.{WriteFaults, put, lookup, open_truncated, write_text}
use interpol.Files.Laws.{put-put, lookup-put}
use interpol.Call.Finalize.{IsFaultless}
use interpol.Aggregate.{
  result_name, Rayon, IsRayon, IsSorted, SortEnvironment, or_panic, or_eprintln,
  deserialize_all_traces, write_all_traces, serialize_sorted, sort_and_write, write_or_report,
  sort_all_traces,
}
use interpol.Aggregate.Listing.{Listing, IsReadable, deserialize_all_traces-Listing}
use interpol.Aggregate.Passes.{purged, lookup-purged}

write_all_traces_faultless :
    (faults : WriteFaults) (t : Text) (s : Machine) (d : Directory)
    → IsFaultless faults
    → s.traces ≡ some d
    → write_all_traces faults t s ≡ (ret tt, record s { traces = some (put result_name t d) })
unfolding write_all_traces open_truncated write_text
write_all_traces_faultless faults t s d h e = ground (arith, put-put result_name t [] d)

-- In either format the text is one that is read back, and it goes with one line on the output.
pub serialize_sorted-IsSerdeJson :
    (json : SerdeJson) (law : IsSerdeJson json) (output : Option Text) (all : List Event)
    (s : Machine)
    → (t : Text) × (line : Text) × (serialize_sorted json output all s
        ≡ (ret t, record s { stdout = s.stdout ++ line ∷ [] }))
      × (json.from_str t ≡ restore_all json.reparse all)
unfolding serialize_sorted
serialize_sorted-IsSerdeJson json law none all s =
    let (t, e) = law.to_string_total all in
    (
      t,
      codes "[interpol]: serializing all traces (compressed print)",
      rw e refl,
      law.from_str-to_string all t e,
    )
serialize_sorted-IsSerdeJson json law (some val) all s =
    elim (Bool-cases (text_eq val (codes "readable"))) [
      | inl readable ↦
          let (t, e) = law.to_string_pretty_total all in
          (
            t,
            codes "[interpol]: serializing all traces (pretty print)",
            rw (readable, e) refl,
            law.from_str-to_string_pretty all t e,
          )
      | inr other ↦
          let (t, e) = law.to_string_total all in
          (
            t,
            codes "[interpol]: serializing all traces (compressed print)",
            rw (other, e) refl,
            law.from_str-to_string all t e,
          )
    ]

module _ (json : SerdeJson) (law : IsSerdeJson json) (rayon : Rayon) (sorts : IsRayon rayon)
    (env : SortEnvironment) where
  sort_and_write_lem :
      (es : List Event) (s : Machine) (d : Directory)
      → IsFaultless env.writes
      → s.traces ≡ some d
      → (t : Text) × (out : List Text) × (sort_and_write json rayon env es s
          ≡ (ret tt, record s { traces = some (put result_name t d); stdout = out }))
        × (json.from_str t ≡ restore_all json.reparse (rayon.par_sort_unstable_by_key tsc es))
  unfolding sort_and_write
  sort_and_write_lem es s d writes e =
      let sorted = rayon.par_sort_unstable_by_key tsc es in
      let s' = record s {
        stdout =
            (s.stdout ++ codes "[interpol]: sorting traces... " ∷ [])
            ++ (codes "finished in " ++ env.elapsed) ∷ [];
      } in
      let (t, line, serialized, back) =
        serialize_sorted-IsSerdeJson json law env.interpol_output sorted s' in
      (
        t,
        s'.stdout ++ line ∷ [],
        >>=-eq-of_ret (serialize_sorted json env.interpol_output sorted) (write_or_report env)
              serialized
            ∙ ap or_eprintln (
                write_all_traces_faultless env.writes t
                  (record s' { stdout = s'.stdout ++ line ∷ [] }) d writes e),
        back,
      )

  -- Given the documented behaviour of serde_json and rayon: from a readable directory, and while no
  -- call of the operating system fails, `sort_all_traces` returns; reading the result file, in
  -- either format, gives what JSON gives back of a list that is in the order of the time stamps and
  -- is a permutation of the events of the trace files; and every other file is as it was.
  pub sort_all_traces-IsSorted :
      {d : Directory} {es : List Event}
      → Listing json d es
      → (s : Machine) → s.traces ≡ some d
      → IsReadable env.reads
      → IsFaultless env.writes
      → (t : Text) × (d' : Directory) × (out : List Text) × (sorted : List Event) × (sort_all_traces
            json rayon env s
          ≡ (ret tt, record s { traces = some d'; stdout = out }))
        × (lookup result_name d' ≡ some t)
        × (json.from_str t ≡ restore_all json.reparse sorted)
        × IsSorted tsc sorted
        × Perm sorted es
        × ((file : Text) → text_eq result_name file ≡ false → lookup file d' ≡ lookup file d)
  unfolding sort_all_traces
  sort_all_traces-IsSorted {d} {es} l s e reads writes =
      let s' = record s {
        stdout = s.stdout ++ codes "[interpol]: deserializing traces for each rank" ∷ [];
      } in
      let read = deserialize_all_traces-Listing json env.reads reads l s' e in
      let (t, out, done, back) =
        sort_and_write_lem es (record s' { traces = some (purged d d) }) (purged d d) writes refl in
      (
        t,
        put result_name t (purged d d),
        out,
        rayon.par_sort_unstable_by_key tsc es,
        >>=-eq-of_ret (λ r. or_panic (deserialize_all_traces json env.reads r))
              (sort_and_write json rayon env) (ap or_panic read)
            ∙ done,
        lookup-put result_name result_name t (purged d d)
            ∙ ap (λ b. if b then some t else lookup result_name (purged d d))
                (text_eq_self result_name),
        back,
        sorts.sorted tsc es,
        sorts.perm tsc es,
        λ file h.
            lookup-put result_name file t (purged d d)
            ∙ ap (λ b. if b then some t else lookup file (purged d d)) h
            ∙ lookup-purged file d d h,
      )
