-- ===== src/Tests/Structs.antt =====
-- A concrete `serde_json` on single structs: the text is the documented one, the indented text is
-- the list of the cells.
use interpol.Base.{
  ◌≡◌, refl, [], ◌∷◌, Option, none, some, Text, codes, ok, err, length, arith, ◌==◌, if◌then◌else◌,
}
use mathlib.Core.Option.{some-injective}
use interpol.Base.Int.{decimal}
use interpol.Types.{Usecs, MpiCallType, is_finite}
use interpol.Event.{StructOf, box}
use interpol.Builder.{settings}
use interpol.Json.{restore}
use interpol.Json.Format.{struct_text}
use interpol.Json.Structs.{StructJson, IsStructJson, boxed, tenth}
use interpol.Tests.Cells.{read_cells, all_cells, read_cells-all_cells}
use interpol.Tests.Builders.{built, list_builder, list_builder-IsBuilder, built-assigned}
use interpol.Tests.Json.{found, keep_finite}
use interpol.UnitTests.{AllPass}
use interpol.UnitTests.Passes.{unit_tests, unit_tests_pass}

abbrev show_bits : Usecs → Text
show_bits x = if x == tenth then codes "0.1" else decimal x

struct_cells : (kind : MpiCallType) → StructOf kind → Text
struct_cells kind s = length (settings (box kind s)) ∷ all_cells (settings (box kind s)) []

-- The time of the struct as it is read.
restored : (kind : MpiCallType) → StructOf kind → Option (StructOf kind)
restored MpiCallType.init s = elim (keep_finite s.time) [
  | none ↦ none
  | some t ↦ some (record s { time = t })
]
restored MpiCallType.initthread s = elim (keep_finite s.time) [
  | none ↦ none
  | some t ↦ some (record s { time = t })
]
restored MpiCallType.finalize s = elim (keep_finite s.time) [
  | none ↦ none
  | some t ↦ some (record s { time = t })
]
restored kind s = some s

struct_from : (kind : MpiCallType) → Text → Option (StructOf kind)
struct_from kind [] = none
struct_from kind (n ∷ rest) = elim (read_cells n rest) [
  | none ↦ none
  | some (xs, rest') ↦ elim (built kind xs) [ ok s ↦ restored kind s | err _ ↦ none ]
]

boxed-restored :
    (kind : MpiCallType) (s : StructOf kind)
    → boxed kind (restored kind s) ≡ restore keep_finite (box kind s)
unfolding restored restore box
boxed-restored MpiCallType.init s = ground arith
boxed-restored MpiCallType.initthread s = ground arith
boxed-restored MpiCallType.finalize s = ground arith
boxed-restored kind s = refl

struct_from-struct_cells :
    (kind : MpiCallType) (s : StructOf kind)
    → boxed kind (struct_from kind (struct_cells kind s)) ≡ restore keep_finite (box kind s)
unfolding struct_from struct_cells
struct_from-struct_cells kind s = ground (
  arith,
  read_cells-all_cells (settings (box kind s)) [],
  built-assigned kind (settings (box kind s)) s (found kind s),
  boxed-restored kind s,
)

abbrev struct_json : StructJson
struct_json = record {
  to_string = λ kind s. some (struct_text show_bits (box kind s));
  to_string_pretty = λ kind s. some (struct_cells kind s);
  from_str = struct_from;
  show_f64 = show_bits;
  reparse = keep_finite;
}

struct_json-IsStructJson : IsStructJson struct_json
unfolding is_finite
struct_json-IsStructJson = record {
  to_string-struct_text = λ kind s h. refl;
  to_string_pretty_total = λ kind s. (struct_cells kind s, refl);
  from_str-to_string_pretty =
      λ kind s t e. rw (← some-injective _ _ e) (struct_from-struct_cells kind s);
  show_f64_tenth = refl;
  reparse_tenth = refl;
}

unit_tests_pass_example : AllPass (unit_tests list_builder struct_json MpiCallType.ireduce)
unit_tests_pass_example =
    unit_tests_pass list_builder list_builder-IsBuilder struct_json struct_json-IsStructJson
      MpiCallType.ireduce
