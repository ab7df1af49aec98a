-- ===== src/Files.antt =====
-- What interpol-rs/src/interpol.rs does with files: every file lies in the directory
-- `INTERPOL_DIR`, by its name there, and which calls of the operating system fail is an argument.
pub mod Laws
use interpol.Base.{
  ℕ, ◌+◌, ◌++◌, ◌≡◌, ◌≢◌, refl, Bool, true, false, if◌then◌else◌, Option, none, some, List, [], ◌∷◌,
  Text, text_eq, text_eq_iff, text_eq_self, take, arith, codes,
}
use interpol.Error.{IoError, from_io}
use interpol.Machine.{Directory, Machine, Ctl, ret, fail, M, ◌>>=◌, ◌>>◌, pure, io}

-- `INTERPOL_DIR`
abbrev pub interpol_dir : Text
interpol_dir = codes "interpol-tmp"

-- The failures of one round of creating, opening and writing a file. A failed write may have
-- written a part of the text.
pub record WriteFaults : Type 0 where
  pub create_dir : Option IoError
  pub open_file : Option IoError
  pub not_found : IoError
  pub write : Option (ℕ × IoError)

-- The files of the directory of the traces; there are none before it is created.
abbrev pub entries : Option Directory → Directory
entries none = []
entries (some d) = d

abbrev pub lookup : Text → Directory → Option Text
lookup name [] = none
lookup name ((n, contents) ∷ d) = if text_eq n name then some contents else lookup name d

-- The directory with a file's contents replaced, or with a new file.
unfoldable pub put : Text → Text → Directory → Directory
put name contents [] = (name, contents) ∷ []
put name contents ((n, old) ∷ d) =
    if text_eq n name then (n, contents) ∷ d else (n, old) ∷ put name contents d

unfoldable pub remove : Text → Directory → Directory
remove name [] = []
remove name ((n, old) ∷ d) = if text_eq n name then d else (n, old) ∷ remove name d

-- `fs::create_dir_all(INTERPOL_DIR)?`
unfoldable pub create_dir_all : WriteFaults → M (Unit {0})
create_dir_all faults = do
  io faults.create_dir
  λ s. (ret tt, record s { traces = elim s.traces [ none ↦ some [] | some d ↦ some d ] })

abbrev store : Text → Text → Machine → Machine
store name contents s = record s {
  traces = elim s.traces [ none ↦ none | some d ↦ some (put name contents d) ];
}

-- `File::options().write(true).truncate(true).create(true).open(name)?`
unfoldable pub open_truncated : WriteFaults → Text → M (Unit {0})
open_truncated faults name = do
  io faults.open_file
  λ s. elim s.traces [
    | none ↦ (fail (from_io faults.not_found), s)
    | some d ↦ (ret tt, store name [] s)
  ]

-- `write!(file, "{}", text)?` on the file that was just opened.
unfoldable pub write_text : WriteFaults → Text → Text → M (Unit {0})
write_text faults name text s = elim faults.write [
  | none ↦ (ret tt, store name text s)
  | some (count, e) ↦ (fail (from_io e), store name (take count text) s)
]
