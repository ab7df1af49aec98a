-- ===== src/Json.antt =====
-- `serde`, `serde_json` and `typetag` on the events: crates that are not part of the program, as a
-- record of the calls that interpol-rs/src/interpol.rs makes and their documented behaviour.
pub mod Format
pub mod Reader
pub mod Restore
pub mod Structs
use interpol.Base.{Bool, true, Option, none, some, List, [], ◌∷◌, Text, ◌≡◌}
use interpol.Types.{Usecs, is_finite}
use interpol.MpiEvents.Management.{MpiInit, MpiInitThread, MpiFinalize}
use interpol.Event.{Event}

-- `reparse x` is the `f64` that is read where `x` was written: the nearest one or a neighbour, and
-- none for an infinity or a NaN, which are written as `null`.
pub record SerdeJson : Type 0 where
  pub to_string : List Event → Option Text
  pub to_string_pretty : List Event → Option Text
  pub from_str : Text → Option (List Event)
  pub reparse : Usecs → Option Usecs

-- What is read where an event was written: integers, booleans and enumerations are exact.
unfoldable pub restore : (Usecs → Option Usecs) → Event → Option Event
restore reparse (Event.init e) = elim (reparse e.time) [
  | none ↦ none
  | some t ↦ some (Event.init (record e { time = t }))
]
restore reparse (Event.initthread e) = elim (reparse e.time) [
  | none ↦ none
  | some t ↦ some (Event.initthread (record e { time = t }))
]
restore reparse (Event.finalize e) = elim (reparse e.time) [
  | none ↦ none
  | some t ↦ some (Event.finalize (record e { time = t }))
]
restore reparse e = some e

unfoldable pub restore_all : (Usecs → Option Usecs) → List Event → Option (List Event)
restore_all reparse [] = some []
restore_all reparse (e ∷ es) = elim (restore reparse e) [
  | none ↦ none
  | some e' ↦ elim (restore_all reparse es) [ none ↦ none | some es' ↦ some (e' ∷ es') ]
]

-- The time of an event, if it has one, is a number.
abbrev pub HasFiniteTime : Event → Type 0
HasFiniteTime (Event.init e) = is_finite e.time ≡ true
HasFiniteTime (Event.initthread e) = is_finite e.time ≡ true
HasFiniteTime (Event.finalize e) = is_finite e.time ≡ true
HasFiniteTime e = Unit

-- Serialising numbers, booleans and unit variants in structs and sequences does not fail, and both
-- ways of writing are read back.
pub record IsSerdeJson (json : SerdeJson) : Type 0 where
  pub to_string_total : (es : List Event) → (t : Text) × (json.to_string es ≡ some t)
  pub to_string_pretty_total : (es : List Event) → (t : Text) × (json.to_string_pretty es ≡ some t)
  pub from_str-to_string :
      (es : List Event) (t : Text)
      → json.to_string es ≡ some t
      → json.from_str t ≡ restore_all json.reparse es
  pub from_str-to_string_pretty :
      (es : List Event) (t : Text)
      → json.to_string_pretty es ≡ some t
      → json.from_str t ≡ restore_all json.reparse es
  pub reparse-is_finite :
      (x : Usecs)
      → is_finite x ≡ true
      → (y : Usecs) × (json.reparse x ≡ some y) × (is_finite y ≡ true)
