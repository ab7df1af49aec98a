-- ===== src/Json/Reader/Traces.antt =====
-- A trace is read back from its text.
use interpol.Base.{
  ℕ, zero, suc, ◌≡◌, ◌≤◌, ◌∙◌, sym, ap, refl, subst, List, [], ◌∷◌, map, Text, Option, some, none,
  ok, err, All, length, arith,
}
use interpol.Types.{Usecs, MpiCallType}
use interpol.Event.{Event, StructOf, box}
use interpol.Builder.{Setting, settings, DeriveBuilder, IsBuilder}
use interpol.Builder.Chain.{sets, build-sets}
use mathlib.Core.Option.{some-injective}
use interpol.Json.{HasFiniteTime}
use interpol.Json.Format.{
  struct_name, kind_of, quoted, members_text, event_text, events_text, trace_text,
}
use interpol.Json.Reader.{
  Reader, strip, read_kind, read_members, members, read_event, read_events, read_trace, ReadsBack,
}
use interpol.Json.Reader.Members.{read_members-settings}
use interpol.Json.Reader.Lengths.{le-events_text}

-- What the text tells of an event: its struct and the values of the fields.
abbrev pub contents : Event → MpiCallType × List Setting
contents e = (kind_of e, settings e)

read_kind-struct_name :
    (kind : MpiCallType) (rest : Text)
    → read_kind (quoted (struct_name kind) rest) ≡ some (kind, rest)
unfolding read_kind
read_kind-struct_name MpiCallType.init rest = refl
read_kind-struct_name MpiCallType.initthread rest = refl
read_kind-struct_name MpiCallType.finalize rest = refl
read_kind-struct_name MpiCallType.send rest = refl
read_kind-struct_name MpiCallType.recv rest = refl
read_kind-struct_name MpiCallType.isend rest = refl
read_kind-struct_name MpiCallType.irecv rest = refl
read_kind-struct_name MpiCallType.test rest = refl
read_kind-struct_name MpiCallType.wait rest = refl
read_kind-struct_name MpiCallType.barrier rest = refl
read_kind-struct_name MpiCallType.ibarrier rest = refl
read_kind-struct_name MpiCallType.ibcast rest = refl
read_kind-struct_name MpiCallType.igather rest = refl
read_kind-struct_name MpiCallType.ireduce rest = refl
read_kind-struct_name MpiCallType.iscatter rest = refl

pub boxed_as : (e : Event) → (s : StructOf (kind_of e)) × (box (kind_of e) s ≡ e)
unfolding box
boxed_as (Event.init s) = (s, refl)
boxed_as (Event.initthread s) = (s, refl)
boxed_as (Event.finalize s) = (s, refl)
boxed_as (Event.send s) = (s, refl)
boxed_as (Event.recv s) = (s, refl)
boxed_as (Event.isend s) = (s, refl)
boxed_as (Event.irecv s) = (s, refl)
boxed_as (Event.test s) = (s, refl)
boxed_as (Event.wait s) = (s, refl)
boxed_as (Event.barrier s) = (s, refl)
boxed_as (Event.ibarrier s) = (s, refl)
boxed_as (Event.ibcast s) = (s, refl)
boxed_as (Event.igather s) = (s, refl)
boxed_as (Event.ireduce s) = (s, refl)
boxed_as (Event.iscatter s) = (s, refl)

module _ (show_f64 : Usecs → Text) (read_f64 : Reader Usecs)
    (back : ReadsBack show_f64 read_f64) where
  read_members-event :
      (e : Event) (rest : Text)
      → HasFiniteTime e
      → read_members
          (members read_f64 (kind_of e))
          (members_text show_f64 (settings e) (b'}' ∷ rest))
        ≡ some (settings e, b'}' ∷ rest)
  read_members-event e rest h =
      let (s, same) = boxed_as e in
      subst
        (λ e'.
          HasFiniteTime e'
          → read_members (members read_f64 (kind_of e))
              (members_text show_f64 (settings e') (b'}' ∷ rest))
            ≡ some (settings e', b'}' ∷ rest))
        same (read_members-settings show_f64 read_f64 back (kind_of e) s rest) h

  read_event-event_text :
      (e : Event) (rest : Text)
      → HasFiniteTime e
      → read_event read_f64 (event_text show_f64 e rest) ≡ some (contents e, rest)
  unfolding read_event event_text strip
  read_event-event_text e rest h = rw (
    read_kind-struct_name (kind_of e) (b',' ∷ members_text show_f64 (settings e) (b'}' ∷ rest)),
    read_members-event e rest h,
  )

  read_events-events_text :
      (e : Event) (es : List Event) (fuel : ℕ) (rest : Text)
      → All HasFiniteTime (e ∷ es)
      → length (e ∷ es) ≤ fuel
      → read_events read_f64 fuel (events_text show_f64 (e ∷ es) (b']' ∷ rest))
        ≡ some (map contents (e ∷ es), b']' ∷ rest)
  unfolding read_events events_text strip
  read_events-events_text e es zero rest h enough = absurd (omega arith)
  read_events-events_text e [] (suc n) rest h enough =
      rw (read_event-event_text e (b']' ∷ rest) h.0)
  read_events-events_text e (e' ∷ es) (suc n) rest h enough = rw (
    read_event-event_text e (b',' ∷ events_text show_f64 (e' ∷ es) (b']' ∷ rest)) h.0,
    read_events-events_text e' es n rest h.1 (omega arith),
  )

  -- The text of an event does not begin as the end of a trace does.
  strip_bracket :
      (e : Event) (es : List Event) (rest : Text)
      → strip (b']' ∷ []) (events_text show_f64 (e ∷ es) rest) ≡ none
  unfolding strip events_text
  strip_bracket e [] rest = refl
  strip_bracket e (e' ∷ es) rest = refl

  -- The text of a trace whose times are numbers tells the struct of each event and the values of its
  -- fields, in order.
  pub read_trace-trace_text :
      (es : List Event)
      → All HasFiniteTime es
      → read_trace read_f64 (trace_text show_f64 es) ≡ some (map contents es)
  unfolding read_trace trace_text strip
  read_trace-trace_text [] h = unfold events_text in refl
  read_trace-trace_text (e ∷ es) h = rw (
    strip_bracket e es (b']' ∷ []),
    read_events-events_text e es (length (events_text show_f64 (e ∷ es) (b']' ∷ []))) [] h
        (le-events_text show_f64 (e ∷ es) (b']' ∷ [])),
  )

module _ (db : DeriveBuilder) (law : IsBuilder db) where
  -- The event with these contents, as a builder makes it.
  rebuilt : MpiCallType × List Setting → Option Event
  rebuilt (kind, xs) = elim (db.build (sets db xs (db.default kind))) [
    | ok s ↦ some (box kind s)
    | err e ↦ none
  ]

  rebuilt-box :
      (kind : MpiCallType) (s : StructOf kind)
      → rebuilt (kind, settings (box kind s)) ≡ some (box kind s)
  unfolding rebuilt
  rebuilt-box kind s = ground (arith, build-sets db law kind s)

  rebuilt-contents : (e : Event) → rebuilt (contents e) ≡ some e
  rebuilt-contents e =
      let (s, same) = boxed_as e in
      subst (λ e'. rebuilt (kind_of e, settings e') ≡ some e') same (rebuilt-box (kind_of e) s)

  rebuilt_all : List (MpiCallType × List Setting) → Option (List Event)
  rebuilt_all [] = some []
  rebuilt_all (c ∷ cs) = elim (rebuilt c) [
    | none ↦ none
    | some e ↦ elim (rebuilt_all cs) [ none ↦ none | some es ↦ some (e ∷ es) ]
  ]

  rebuilt_all-contents : (es : List Event) → rebuilt_all (map contents es) ≡ some es
  unfolding rebuilt_all
  rebuilt_all-contents [] = refl
  rebuilt_all-contents (e ∷ es) = ground (arith, rebuilt-contents e, rebuilt_all-contents es)

  -- The contents of the events tell the events.
  pub map-contents-injective : (es es' : List Event) → map contents es ≡ map contents es' → es ≡ es'
  map-contents-injective es es' h =
      some-injective _ _
        (sym (rebuilt_all-contents es) ∙ ap rebuilt_all h ∙ rebuilt_all-contents es')
