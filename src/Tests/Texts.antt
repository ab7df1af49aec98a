-- ===== src/Tests/Texts.antt =====
-- A concrete `serde_json` that writes the documented text, and the text of a program's trace.
use mathlib.Core.Option.{some-injective}
use interpol.Base.{
  ◌≡◌, ◌∙◌, sym, ap, refl, subst, ◌&&◌, ℕ, Bool, true, List, [], ◌∷◌, map, Option, none, some, Text,
  ok, err, All, arith, if◌then◌else◌, Bool-cases, inl, inr, ◌⊎◌,
}
use interpol.Base.Int.{decimal}
use interpol.Types.{Usecs, MpiCallType, is_finite}
use interpol.Event.{Event, StructOf, box}
use interpol.Builder.{Setting, settings}
use interpol.Json.{SerdeJson, IsSerdeJson, restore, restore_all, HasFiniteTime}
use interpol.Json.Format.{trace_text, WritesTraces, kind_of}
use interpol.Json.Reader.{Reader, ReadsBack, read_nat, read_trace}
use interpol.Json.Reader.Values.{read_nat-decimal, IsEnd→not_digit}
use interpol.Json.Reader.Traces.{contents, boxed_as, read_trace-trace_text}
use interpol.Tests.Builders.{built, built-assigned}
use interpol.Tests.Json.{
  to_cells_cons, found, keep_finite, to_cells, from_cells, from_cells-to_cells,
}

-- The times are printed as their bits.
abbrev pub bits_text : Usecs → Text
bits_text = decimal

abbrev pub read_bits : Reader Usecs
read_bits = read_nat

pub bits-ReadsBack : ReadsBack bits_text read_bits
bits-ReadsBack x h c rest end = read_nat-decimal x c rest (IsEnd→not_digit c end)

abbrev event_from : MpiCallType × List Setting → Option Event
event_from (kind, xs) = elim (built kind xs) [ ok s ↦ some (box kind s) | err _ ↦ none ]

abbrev events_from : List (MpiCallType × List Setting) → Option (List Event)
events_from [] = some []
events_from (c ∷ cs) = elim (event_from c) [
  | none ↦ none
  | some e ↦ elim (events_from cs) [ none ↦ none | some es ↦ some (e ∷ es) ]
]

event_from-box :
    (kind : MpiCallType) (s : StructOf kind)
    → event_from (kind, settings (box kind s)) ≡ some (box kind s)
event_from-box kind s = ground (arith, built-assigned kind (settings (box kind s)) s (found kind s))

event_from-contents : (e : Event) → event_from (contents e) ≡ some e
event_from-contents e =
    let (s, same) = boxed_as e in
    subst (λ e'. event_from (kind_of e, settings e') ≡ some e') same (event_from-box (kind_of e) s)

events_from-contents : (es : List Event) → events_from (map contents es) ≡ some es
events_from-contents [] = refl
events_from-contents (e ∷ es) = ground (arith, event_from-contents e, events_from-contents es)

-- Whether the text has a number for the time.
abbrev is_writable : Event → Bool
is_writable (Event.init e) = is_finite e.time
is_writable (Event.initthread e) = is_finite e.time
is_writable (Event.finalize e) = is_finite e.time
is_writable e = true

abbrev are_writable : List Event → Bool
are_writable [] = true
are_writable (e ∷ es) = is_writable e && are_writable es

is_writable→HasFiniteTime : (e : Event) → is_writable e ≡ true → HasFiniteTime e
is_writable→HasFiniteTime (Event.init e) h = h
is_writable→HasFiniteTime (Event.initthread e) h = h
is_writable→HasFiniteTime (Event.finalize e) h = h
is_writable→HasFiniteTime (Event.send e) h = tt
is_writable→HasFiniteTime (Event.recv e) h = tt
is_writable→HasFiniteTime (Event.isend e) h = tt
is_writable→HasFiniteTime (Event.irecv e) h = tt
is_writable→HasFiniteTime (Event.test e) h = tt
is_writable→HasFiniteTime (Event.wait e) h = tt
is_writable→HasFiniteTime (Event.barrier e) h = tt
is_writable→HasFiniteTime (Event.ibarrier e) h = tt
is_writable→HasFiniteTime (Event.ibcast e) h = tt
is_writable→HasFiniteTime (Event.igather e) h = tt
is_writable→HasFiniteTime (Event.ireduce e) h = tt
is_writable→HasFiniteTime (Event.iscatter e) h = tt

HasFiniteTime→is_writable : (e : Event) → HasFiniteTime e → is_writable e ≡ true
HasFiniteTime→is_writable (Event.init e) h = h
HasFiniteTime→is_writable (Event.initthread e) h = h
HasFiniteTime→is_writable (Event.finalize e) h = h
HasFiniteTime→is_writable (Event.send e) h = refl
HasFiniteTime→is_writable (Event.recv e) h = refl
HasFiniteTime→is_writable (Event.isend e) h = refl
HasFiniteTime→is_writable (Event.irecv e) h = refl
HasFiniteTime→is_writable (Event.test e) h = refl
HasFiniteTime→is_writable (Event.wait e) h = refl
HasFiniteTime→is_writable (Event.barrier e) h = refl
HasFiniteTime→is_writable (Event.ibarrier e) h = refl
HasFiniteTime→is_writable (Event.ibcast e) h = refl
HasFiniteTime→is_writable (Event.igather e) h = refl
HasFiniteTime→is_writable (Event.ireduce e) h = refl
HasFiniteTime→is_writable (Event.iscatter e) h = refl

are_writable→All : (es : List Event) → are_writable es ≡ true → All HasFiniteTime es
are_writable→All [] h = tt
are_writable→All (e ∷ es) h =
    (is_writable→HasFiniteTime e (ground arith), are_writable→All es (ground arith))

All→are_writable : (es : List Event) → All HasFiniteTime es → are_writable es ≡ true
All→are_writable [] h = refl
All→are_writable (e ∷ es) h = rw (HasFiniteTime→is_writable e h.0) (All→are_writable es h.1)

-- Nothing is lost of times that are numbers.
restore_finite : (e : Event) → HasFiniteTime e → restore keep_finite e ≡ some e
unfolding restore
restore_finite (Event.init e) h = ground arith
restore_finite (Event.initthread e) h = ground arith
restore_finite (Event.finalize e) h = ground arith
restore_finite e h = refl

restore_all_finite : (es : List Event) → All HasFiniteTime es → restore_all keep_finite es ≡ some es
unfolding restore_all
restore_all_finite [] h = refl
restore_all_finite (e ∷ es) h = ground (arith, restore_finite e h.0, restore_all_finite es h.1)

-- Another text where a time is no number.
pub to_text : List Event → Text
to_text es = if are_writable es then trace_text bits_text es else to_cells 0 es

pub from_text : Text → Option (List Event)
from_text t = elim (read_trace read_bits t) [ none ↦ from_cells t | some cs ↦ events_from cs ]

read_trace-cons :
    (format : ℕ) (rest : Text)
    → (format ≡ 0) ⊎ (format ≡ 1)
    → read_trace read_bits (format ∷ rest) ≡ none
unfolding read_trace
read_trace-cons format rest (inl h) = rw h refl
read_trace-cons format rest (inr h) = rw h refl

read_trace-to_cells :
    (format : ℕ) (es : List Event)
    → (format ≡ 0) ⊎ (format ≡ 1)
    → read_trace read_bits (to_cells format es) ≡ none
read_trace-to_cells format es h =
    let (rest, e) = to_cells_cons format es in
    ap (read_trace read_bits) e ∙ read_trace-cons format rest h

from_text-to_cells :
    (format : ℕ) (es : List Event)
    → (format ≡ 0) ⊎ (format ≡ 1)
    → from_text (to_cells format es) ≡ restore_all keep_finite es
unfolding from_text
from_text-to_cells format es h =
    ground (arith, read_trace-to_cells format es h, from_cells-to_cells format es)

from_text-to_text : (es : List Event) → from_text (to_text es) ≡ restore_all keep_finite es
unfolding from_text to_text
from_text-to_text es = elim (Bool-cases (are_writable es)) [
  | inl finite ↦ ground (
    arith,
    read_trace-trace_text bits_text read_bits bits-ReadsBack es (are_writable→All es finite),
    events_from-contents es,
    restore_all_finite es (are_writable→All es finite),
  )
  | inr lost ↦ ground (arith, from_text-to_cells 0 es (inl refl))
]

abbrev pub text_json : SerdeJson
text_json = record {
  to_string = λ es. some (to_text es);
  to_string_pretty = λ es. some (to_cells 1 es);
  from_str = from_text;
  reparse = keep_finite;
}

pub text_json-IsSerdeJson : IsSerdeJson text_json
text_json-IsSerdeJson = record {
  to_string_total = λ es. (to_text es, refl);
  to_string_pretty_total = λ es. (to_cells 1 es, refl);
  from_str-to_string = λ es t e. ap from_text (sym (some-injective _ _ e)) ∙ from_text-to_text es;
  from_str-to_string_pretty =
      λ es t e. ap from_text (sym (some-injective _ _ e)) ∙ from_text-to_cells 1 es (inr refl);
  reparse-is_finite = λ x h. (x, rw h, h);
}

pub text_json-WritesTraces : WritesTraces bits_text text_json
unfolding to_text
text_json-WritesTraces es h = rw (All→are_writable es h)
