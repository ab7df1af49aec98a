-- ===== src/Serialize/Faults.antt =====
-- How `serialize` ends and what it leaves on the disk, also when calls of the operating system
-- fail.
use interpol.Base.{
  ◌++◌, ◌∷◌, Option, codes, Option-cases, inl, inr, ◌≡◌, false, ℕ, none, some, [], Text, text_eq,
  take, arith,
}
use interpol.Types.{MpiRank}
use interpol.Base.Int.{show_int}
use interpol.Error.{IoError, from_io}
use interpol.Json.{SerdeJson}
use interpol.Machine.{Directory, Machine, ret, fail, panic}
use interpol.Files.{WriteFaults, entries, lookup, put, create_dir_all, open_truncated, write_text}
use interpol.Files.Laws.{lookup-put, put-put}
use interpol.Serialize.{file_name, serialize}

-- Whichever calls fail, also if the text cannot be made, `serialize` changes no file but the rank's
-- own.
pub serialize_others :
    (json : SerdeJson) (faults : WriteFaults) (rank : MpiRank) (s : Machine) (file : Text)
    → text_eq (file_name rank) file ≡ false
    → lookup file (entries (serialize json faults rank s).1.traces) ≡ lookup file (entries s.traces)
unfolding serialize create_dir_all open_truncated write_text
serialize_others json faults rank s file h = grind (arith, lookup-put)

-- The state after the line of output, with this directory.
abbrev pub announcing : MpiRank → Machine → Option Directory → Machine
announcing rank s traces = record s {
  traces = traces;
  stdout = s.stdout ++ (codes "[interpol]: serializing traces for rank " ++ show_int rank) ∷ [];
}

-- The ways in which `serialize` ends.
pub data Serialized (json : SerdeJson) (faults : WriteFaults) (rank : MpiRank) (s : Machine)
    : Type 0 where
  unprintable :
      json.to_string s.events.items ≡ none
      → serialize json faults rank s
        ≡ (panic (codes "failed to serialize traces to string"), announcing rank s s.traces)
      → Serialized json faults rank s
  no_directory :
      {e : IoError}
      → faults.create_dir ≡ some e
      → serialize json faults rank s ≡ (fail (from_io e), announcing rank s s.traces)
      → Serialized json faults rank s
  unopened :
      {e : IoError}
      → faults.create_dir ≡ none
      → faults.open_file ≡ some e
      → serialize json faults rank s
        ≡ (fail (from_io e), announcing rank s (some (entries s.traces)))
      → Serialized json faults rank s
  torn :
      {t : Text} {count : ℕ} {e : IoError}
      → json.to_string s.events.items ≡ some t
      → faults.create_dir ≡ none
      → faults.open_file ≡ none
      → faults.write ≡ some (count, e)
      → serialize json faults rank s ≡ (
        fail (from_io e),
        announcing rank s (some (put (file_name rank) (take count t) (entries s.traces))),
      )
      → Serialized json faults rank s
  whole :
      {t : Text}
      → json.to_string s.events.items ≡ some t
      → faults.create_dir ≡ none
      → faults.open_file ≡ none
      → faults.write ≡ none
      → serialize json faults rank s
        ≡ (ret tt, announcing rank s (some (put (file_name rank) t (entries s.traces))))
      → Serialized json faults rank s

-- Whichever calls on the directory fail, and whatever the state, as long as the standard output can
-- be written: `serialize` prints its line and ends in one of five ways. If the text of the vector
-- cannot be made, it panics, and if the directory cannot be created it returns that error, both
-- with the directory as it was; if the file cannot be opened it returns that error, and the
-- directory is there with the files it had; if the write fails after some bytes it returns that
-- error, and just these bytes of the text are in the rank's file, whatever it held before; and
-- otherwise it returns and the file holds the whole text. Nothing else changes.
pub serialize-Serialized :
    (json : SerdeJson) (faults : WriteFaults) (rank : MpiRank) (s : Machine)
    → Serialized json faults rank s
unfolding serialize create_dir_all open_truncated write_text
serialize-Serialized json faults rank s = elim (Option-cases (json.to_string s.events.items)) [
  | inl lost ↦ Serialized.unprintable lost (ground arith)
  | inr (t, text) ↦ elim (Option-cases faults.create_dir) [
    | inr (e, h) ↦ Serialized.no_directory h (ground arith)
    | inl created ↦ elim (Option-cases faults.open_file) [
      | inr (e, h) ↦ Serialized.unopened created h (ground arith)
      | inl opened ↦ elim (Option-cases faults.write) [
        | inr ((count, e), h) ↦
            Serialized.torn text created opened h
              (ground (arith, put-put (file_name rank) (take count t) [] (entries s.traces)))
        | inl h ↦
            Serialized.whole text created opened h
              (ground (arith, put-put (file_name rank) t [] (entries s.traces)))
      ]
    ]
  ]
]
