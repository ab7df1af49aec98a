-- ===== src/Json/Structs.antt =====
-- `serde_json` on one struct by itself, as the unit tests of interpol-rs/src/mpi_events call it.
use interpol.Base.{Option, none, some, Text, codes, ◌≡◌}
use interpol.Types.{Usecs, MpiCallType}
use interpol.Event.{Event, StructOf, box}
use interpol.Json.{restore, HasFiniteTime}
use interpol.Json.Format.{struct_text}

-- `kind` stands for the struct; `from_str` is told by the type of its result.
pub record StructJson : Type 0 where
  pub to_string : (kind : MpiCallType) → StructOf kind → Option Text
  pub to_string_pretty : (kind : MpiCallType) → StructOf kind → Option Text
  pub from_str : (kind : MpiCallType) → Text → Option (StructOf kind)
  pub show_f64 : Usecs → Text
  pub reparse : Usecs → Option Usecs

-- What is read, as a `Box<dyn Register>`.
abbrev pub boxed : (kind : MpiCallType) → Option (StructOf kind) → Option Event
boxed kind none = none
boxed kind (some s) = some (box kind s)

-- The literal `0.1`.
abbrev pub tenth : Usecs
tenth = 4591870180066957722

-- A struct whose time is a number is written on one line with its fields in order, writing does not
-- fail, and the indented text is read back. `0.1` is written as it stands in the program and is read
-- exactly.
pub record IsStructJson (json : StructJson) : Type 0 where
  pub to_string-struct_text :
      (kind : MpiCallType) (s : StructOf kind)
      → HasFiniteTime (box kind s)
      → json.to_string kind s ≡ some (struct_text json.show_f64 (box kind s))
  pub to_string_pretty_total :
      (kind : MpiCallType) (s : StructOf kind)
      → (t : Text) × (json.to_string_pretty kind s ≡ some t)
  pub from_str-to_string_pretty :
      (kind : MpiCallType) (s : StructOf kind) (t : Text)
      → json.to_string_pretty kind s ≡ some t
      → boxed kind (json.from_str kind t) ≡ restore json.reparse (box kind s)
  pub show_f64_tenth : json.show_f64 tenth ≡ codes "0.1"
  pub reparse_tenth : json.reparse tenth ≡ some tenth
