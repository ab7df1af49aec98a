-- ===== src/Call/Finalize.antt =====
-- What the finalize of a rank leaves on the disk.
use interpol.Base.{
  ◌*◌, ◌≤◌, ◌<◌, ◌++◌, ◌≡◌, ◌∙◌, ap, some, none, [], ◌∷◌, arith, length, Text, codes,
}
use interpol.Base.Int.{show_int}
use interpol.Types.{MpiCallType, MpiRank}
use interpol.Error.{TryReserveError, from_try_reserve}
use interpol.Event.{Event}
use interpol.Builder.{IsBuilder}
use interpol.Json.{SerdeJson, IsSerdeJson, restore_all}
use interpol.Vector.{Vec, max_capacity, IsValid}
use interpol.Vector.Growth.{register_refused}
use interpol.Vector.Generous.{IsGenerous, register-IsGenerous}
use interpol.Machine.{Machine, ret, fail, >>=-eq-of_ret, >>=-eq-of_fail}
use interpol.Files.{WriteFaults, entries, put, create_dir_all, open_truncated, write_text}
use interpol.Files.Laws.{put-put}
use interpol.Register.{landed, append}
use interpol.Serialize.{file_name, serialize}
use interpol.Dispatch.{MpiCall, Crates, Environment}
use interpol.Dispatch.Record.{event_of, body}
use interpol.Call.{report, reported, register_mpi_call}
use interpol.Call.Outcome.{IsSound, register_mpi_call-eq}

-- No call of the operating system fails.
pub record IsFaultless (faults : WriteFaults) : Type 0 where
  pub created : faults.create_dir ≡ none
  pub opened : faults.open_file ≡ none
  pub wrote : faults.write ≡ none

abbrev pub announced : MpiRank → Text
announced rank = codes "[interpol]: serializing traces for rank " ++ show_int rank

-- The state after a rank's traces have been written as `t`.
abbrev pub written : MpiRank → Text → Machine → Machine
written rank t s = record s {
  traces = some (put (file_name rank) t (entries s.traces));
  stdout = s.stdout ++ announced rank ∷ [];
}

serialize_faultless :
    (json : SerdeJson) (faults : WriteFaults) (rank : MpiRank) (s : Machine) (t : Text)
    → IsFaultless faults
    → json.to_string s.events.items ≡ some t
    → serialize json faults rank s ≡ (ret tt, written rank t s)
unfolding serialize create_dir_all open_truncated write_text
serialize_faultless json faults rank s t h e =
    ground (arith, put-put (file_name rank) t [] (entries s.traces))

module _ (crates : Crates) (law : IsBuilder crates.builder) (json : IsSerdeJson crates.json)
    (env : Environment) (call : MpiCall) where
  body-written :
      (s : Machine) (v : Vec Event) (t : Text)
      → append env.memory (event_of call) s ≡ (ret tt, record s { events = v })
      → IsFaultless env.files
      → crates.json.to_string v.items ≡ some t
      → body crates env call MpiCallType.finalize (event_of call) s
        ≡ (ret tt, written call.current_rank t (record s { events = v }))
  body-written s v t appended files e =
      >>=-eq-of_ret (append env.memory (event_of call))
        (λ _. serialize crates.json env.files call.current_rank) appended
      ∙ serialize_faultless crates.json env.files call.current_rank (record s { events = v }) t
          files e

  -- Given the documented behaviour of derive_builder and serde_json: a finalize from a sound state,
  -- while nothing refuses memory or fails on the disk and there is room, returns; the vector is
  -- valid and has got the finalize's event, and the rank's file, put into the directory, holds the
  -- text of the whole vector and reads as what JSON gives back of it. Nothing else has changed but
  -- a line on the standard output.
  pub finalize_written :
      (s : Machine)
      → IsSound s
      → call.kind ≡ MpiCallType.finalize
      → IsGenerous env.memory
      → IsFaultless env.files
      → 3 * length s.events.items ≤ max_capacity
      → (v : Vec Event) × (t : Text) × (register_mpi_call crates env call s
          ≡ (ret tt, written call.current_rank t (record s { events = v })))
        × (v.items ≡ s.events.items ++ event_of call ∷ [])
        × (crates.json.from_str t ≡ restore_all crates.json.reparse v.items)
        × IsValid v
        × (crates.json.to_string v.items ≡ some t)
  unfolding append
  finalize_written s h kind memory files room =
      let (v, e, facts) =
        register-IsGenerous env.memory memory s.events (event_of call) h.valid room in
      let (t, te) = json.to_string_total v.items in
      (
        v,
        t,
        register_mpi_call-eq crates law env call json s h
            ∙ ap (λ k. reported call.current_rank (body crates env call k (event_of call) s)) kind
            ∙ ap (reported call.current_rank) (body-written s v t (ap (landed s) e) files te),
        facts.1,
        json.from_str-to_string v.items t te,
        facts.0,
        te,
      )

  body-refused :
      (s : Machine) (e : TryReserveError)
      → append env.memory (event_of call) s ≡ (fail (from_try_reserve e), s)
      → body crates env call MpiCallType.finalize (event_of call) s ≡ (fail (from_try_reserve e), s)
  body-refused s e refusal =
      >>=-eq-of_fail (append env.memory (event_of call))
        (λ _. serialize crates.json env.files call.current_rank) refusal

  -- Given the documented behaviour of derive_builder and serde_json: a finalize from a sound state
  -- whose reservation is needed, could be had in a `Vec`, and is refused by the allocator returns
  -- and writes no file: the only change is one line on the standard error, and the events of the
  -- rank do not reach the disk.
  pub finalize_refused :
      (s : Machine)
      → IsSound s
      → call.kind ≡ MpiCallType.finalize
      → s.events.capacity < 3 * length s.events.items
      → 3 * length s.events.items ≤ max_capacity
      → env.memory.reserve (3 * length s.events.items) ≡ none
      → register_mpi_call crates env call s ≡ (
        ret tt,
        record s {
          stderr =
              s.stderr
              ++ report call.current_rank (from_try_reserve TryReserveError.alloc_error) ∷ [];
        },
      )
  unfolding append
  finalize_refused s h kind full room none_left =
      register_mpi_call-eq crates law env call json s h
      ∙ ap (λ k. reported call.current_rank (body crates env call k (event_of call) s)) kind
      ∙ ap (reported call.current_rank) (
          body-refused s TryReserveError.alloc_error (
            ap (landed s)
              (register_refused env.memory s.events (event_of call) h.valid full room none_left)))
