-- ===== src/Tests/Json.antt =====
-- A concrete `serde_json` for the tests: an event is written as the number of its kind and the
-- three cells of each field, and is read back by the concrete builder.
use interpol.Base.{
  ◌≡◌, refl, sym, ap, ◌∙◌, ℕ, zero, suc, List, [], ◌∷◌, Option, none, some, Text, ok, err, All,
  length, arith, if◌then◌else◌,
}
use mathlib.Core.Option.{some-injective}
use interpol.Base.Int.{pos}
use interpol.Types.{Usecs, MpiOp, MpiCallType, is_finite}
use interpol.Types.Repr.{mpi_call_type_repr, mpi_call_type_of, repr_roundtrip}
use interpol.Event.{Event, StructOf, box}
use interpol.Builder.{name_of, settings}
use interpol.Json.{SerdeJson, IsSerdeJson, restore_all}
use interpol.Tests.Cells.{read_cells, all_cells, read_cells-all_cells}
use interpol.Tests.Builders.{find, built, built-assigned}

-- Every field of a struct is found among its fields.
pub found :
    (kind : MpiCallType) (s : StructOf kind)
    → All (λ x. find (settings (box kind s)) (name_of x) ≡ some x) (settings (box kind s))
unfolding settings box name_of
found MpiCallType.init s = (refl, (refl, (refl, tt)))
found MpiCallType.initthread s = (refl, (refl, (refl, (refl, (refl, tt)))))
found MpiCallType.finalize s = (refl, (refl, (refl, tt)))
found MpiCallType.send s = (refl, (refl, (refl, (refl, (refl, (refl, (refl, tt)))))))
found MpiCallType.recv s = (refl, (refl, (refl, (refl, (refl, (refl, (refl, tt)))))))
found MpiCallType.isend s = (refl, (refl, (refl, (refl, (refl, (refl, (refl, (refl, tt))))))))
found MpiCallType.irecv s = (refl, (refl, (refl, (refl, (refl, (refl, (refl, (refl, tt))))))))
found MpiCallType.test s = (refl, (refl, (refl, (refl, (refl, tt)))))
found MpiCallType.wait s = (refl, (refl, (refl, (refl, tt))))
found MpiCallType.barrier s = (refl, (refl, (refl, (refl, tt))))
found MpiCallType.ibarrier s = (refl, (refl, (refl, (refl, (refl, tt)))))
found MpiCallType.ibcast s = (refl, (refl, (refl, (refl, (refl, (refl, (refl, tt)))))))
found MpiCallType.igather s = (refl, (refl, (refl, (refl, (refl, (refl, (refl, (refl, tt))))))))
found MpiCallType.ireduce s = (refl, (refl, (refl, (refl, (refl, (refl, (refl, (refl, tt))))))))
found MpiCallType.iscatter s = (refl, (refl, (refl, (refl, (refl, (refl, (refl, (refl, tt))))))))

decode : Text → Option (Event × Text)
decode (kind ∷ n ∷ rest) = elim (mpi_call_type_of (pos kind)) [
  | none ↦ none
  | some k ↦ elim (read_cells n rest) [
    | none ↦ none
    | some (xs, rest') ↦ elim (built k xs) [ ok s ↦ some (box k s, rest') | err _ ↦ none ]
  ]
]
decode _ = none

encode_as : (kind : MpiCallType) → StructOf kind → Text → Text
encode_as kind s rest =
    mpi_call_type_repr kind
    ∷ length (settings (box kind s))
    ∷ all_cells (settings (box kind s)) rest

decode-encode_as :
    (kind : MpiCallType) (s : StructOf kind) (rest : Text)
    → decode (encode_as kind s rest) ≡ some (box kind s, rest)
unfolding decode encode_as
decode-encode_as kind s rest = ground (
  arith,
  (repr_roundtrip MpiOp.opnull kind).1,
  read_cells-all_cells (settings (box kind s)) rest,
  built-assigned kind (settings (box kind s)) s (found kind s),
)

encode : Event → Text → Text
encode (Event.init s) rest = encode_as MpiCallType.init s rest
encode (Event.initthread s) rest = encode_as MpiCallType.initthread s rest
encode (Event.finalize s) rest = encode_as MpiCallType.finalize s rest
encode (Event.send s) rest = encode_as MpiCallType.send s rest
encode (Event.recv s) rest = encode_as MpiCallType.recv s rest
encode (Event.isend s) rest = encode_as MpiCallType.isend s rest
encode (Event.irecv s) rest = encode_as MpiCallType.irecv s rest
encode (Event.test s) rest = encode_as MpiCallType.test s rest
encode (Event.wait s) rest = encode_as MpiCallType.wait s rest
encode (Event.barrier s) rest = encode_as MpiCallType.barrier s rest
encode (Event.ibarrier s) rest = encode_as MpiCallType.ibarrier s rest
encode (Event.ibcast s) rest = encode_as MpiCallType.ibcast s rest
encode (Event.igather s) rest = encode_as MpiCallType.igather s rest
encode (Event.ireduce s) rest = encode_as MpiCallType.ireduce s rest
encode (Event.iscatter s) rest = encode_as MpiCallType.iscatter s rest

decode-encode : (e : Event) (rest : Text) → decode (encode e rest) ≡ some (e, rest)
unfolding encode box
decode-encode (Event.init s) rest = decode-encode_as MpiCallType.init s rest
decode-encode (Event.initthread s) rest = decode-encode_as MpiCallType.initthread s rest
decode-encode (Event.finalize s) rest = decode-encode_as MpiCallType.finalize s rest
decode-encode (Event.send s) rest = decode-encode_as MpiCallType.send s rest
decode-encode (Event.recv s) rest = decode-encode_as MpiCallType.recv s rest
decode-encode (Event.isend s) rest = decode-encode_as MpiCallType.isend s rest
decode-encode (Event.irecv s) rest = decode-encode_as MpiCallType.irecv s rest
decode-encode (Event.test s) rest = decode-encode_as MpiCallType.test s rest
decode-encode (Event.wait s) rest = decode-encode_as MpiCallType.wait s rest
decode-encode (Event.barrier s) rest = decode-encode_as MpiCallType.barrier s rest
decode-encode (Event.ibarrier s) rest = decode-encode_as MpiCallType.ibarrier s rest
decode-encode (Event.ibcast s) rest = decode-encode_as MpiCallType.ibcast s rest
decode-encode (Event.igather s) rest = decode-encode_as MpiCallType.igather s rest
decode-encode (Event.ireduce s) rest = decode-encode_as MpiCallType.ireduce s rest
decode-encode (Event.iscatter s) rest = decode-encode_as MpiCallType.iscatter s rest

encode_all : List Event → Text
encode_all [] = []
encode_all (e ∷ es) = encode e (encode_all es)

decode_all : ℕ → Text → Option (List Event)
decode_all zero t = some []
decode_all (suc n) t = elim (decode t) [
  | none ↦ none
  | some (e, rest) ↦ elim (decode_all n rest) [ none ↦ none | some es ↦ some (e ∷ es) ]
]

decode_all-encode_all : (es : List Event) → decode_all (length es) (encode_all es) ≡ some es
unfolding decode_all encode_all
decode_all-encode_all [] = refl
decode_all-encode_all (e ∷ es) =
    ground (arith, decode-encode e (encode_all es), decode_all-encode_all es)

abbrev pub keep_finite : Usecs → Option Usecs
keep_finite x = if is_finite x then some x else none

pub from_cells : Text → Option (List Event)
from_cells (format ∷ n ∷ rest) = elim (decode_all n rest) [
  | none ↦ none
  | some es ↦ restore_all keep_finite es
]
from_cells _ = none

-- The first cell tells the two formats apart.
pub to_cells : ℕ → List Event → Text
to_cells format es = format ∷ length es ∷ encode_all es

pub to_cells_cons :
    (format : ℕ) (es : List Event) → (rest : Text) × (to_cells format es ≡ format ∷ rest)
unfolding to_cells
to_cells_cons format es = (_, refl)

abbrev pub cell_json : SerdeJson
cell_json = record {
  to_string = λ es. some (to_cells 0 es);
  to_string_pretty = λ es. some (to_cells 1 es);
  from_str = from_cells;
  reparse = keep_finite;
}

pub from_cells-to_cells :
    (format : ℕ) (es : List Event) → from_cells (to_cells format es) ≡ restore_all keep_finite es
unfolding from_cells to_cells
from_cells-to_cells format es = ground (arith, decode_all-encode_all es)

-- The file of no events.
pub cell_json-nil : cell_json.from_str (to_cells 0 []) ≡ some []
unfolding from_cells to_cells encode_all decode_all restore_all
cell_json-nil = refl

pub cell_json-IsSerdeJson : IsSerdeJson cell_json
cell_json-IsSerdeJson = record {
  to_string_total = λ es. (to_cells 0 es, refl);
  to_string_pretty_total = λ es. (to_cells 1 es, refl);
  from_str-to_string =
      λ es t e. ap from_cells (sym (some-injective _ _ e)) ∙ from_cells-to_cells 0 es;
  from_str-to_string_pretty =
      λ es t e. ap from_cells (sym (some-injective _ _ e)) ∙ from_cells-to_cells 1 es;
  reparse-is_finite = λ x h. (x, rw h, h);
}
