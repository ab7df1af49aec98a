-- ===== src/Json/Reader/Lengths.antt =====
-- The text of a trace is at least as long as the trace.
use interpol.Base.{suc, ◌≤◌, List, [], ◌∷◌, ◌++◌, Text, codes, length, length-append, arith}
use interpol.Base.Int.{decimal, show_int}
use interpol.Types.{Usecs}
use interpol.Event.{Event}
use interpol.Builder.{Setting, name_of, settings}
use interpol.Json.Format.{
  op_name, bool_text, struct_name, kind_of, quoted, value_text, member_text, members_text,
  event_text, events_text,
}

-- Texts get longer when others are put in front of them.
le-append : (t rest : Text) → length rest ≤ length (t ++ rest)
le-append t rest = omega (arith, length-append t rest)

le-quoted : (t rest : Text) → length rest ≤ length (quoted t rest)
le-quoted t rest = omega (arith, le-append t (b'"' ∷ rest))

module _ (show_f64 : Usecs → Text) where
  le-value_text : (x : Setting) (rest : Text) → length rest ≤ length (value_text show_f64 x rest)
  unfolding value_text
  le-value_text (Setting.current_rank v) rest = le-append (show_int v) rest
  le-value_text (Setting.partner_rank v) rest = le-append (show_int v) rest
  le-value_text (Setting.nb_bytes v) rest = le-append (decimal v) rest
  le-value_text (Setting.nb_bytes_send v) rest = le-append (decimal v) rest
  le-value_text (Setting.nb_bytes_recv v) rest = le-append (decimal v) rest
  le-value_text (Setting.comm v) rest = le-append (show_int v) rest
  le-value_text (Setting.req v) rest = le-append (show_int v) rest
  le-value_text (Setting.tag v) rest = le-append (show_int v) rest
  le-value_text (Setting.tsc v) rest = le-append (decimal v) rest
  le-value_text (Setting.duration v) rest = le-append (decimal v) rest
  le-value_text (Setting.time v) rest = le-append (show_f64 v) rest
  le-value_text (Setting.required_thread_lvl v) rest = le-append (show_int v) rest
  le-value_text (Setting.provided_thread_lvl v) rest = le-append (show_int v) rest
  le-value_text (Setting.finished v) rest = le-append (bool_text v) rest
  le-value_text (Setting.op_type v) rest = le-quoted (op_name v) rest

  le-member_text : (x : Setting) (rest : Text) → length rest ≤ length (member_text show_f64 x rest)
  unfolding member_text
  le-member_text x rest = omega (
    arith,
    le-value_text x rest,
    le-quoted (codes (name_of x)) (b':' ∷ value_text show_f64 x rest),
  )

  le-members_text :
      (xs : List Setting) (rest : Text) → length rest ≤ length (members_text show_f64 xs rest)
  unfolding members_text
  le-members_text [] rest = omega arith
  le-members_text (x ∷ []) rest = le-member_text x rest
  le-members_text (x ∷ y ∷ xs) rest = omega (
    arith,
    le-member_text x (b',' ∷ members_text show_f64 (y ∷ xs) rest),
    le-members_text (y ∷ xs) rest,
  )

  lt-event_text :
      (e : Event) (rest : Text) → suc (length rest) ≤ length (event_text show_f64 e rest)
  unfolding event_text
  lt-event_text e rest =
      let fields = members_text show_f64 (settings e) (b'}' ∷ rest) in
      omega (
        arith,
        le-members_text (settings e) (b'}' ∷ rest),
        le-quoted (struct_name (kind_of e)) (b',' ∷ fields),
      )

  pub le-events_text :
      (es : List Event) (rest : Text) → length es ≤ length (events_text show_f64 es rest)
  unfolding events_text
  le-events_text [] rest = omega arith
  le-events_text (e ∷ []) rest = omega (arith, lt-event_text e rest)
  le-events_text (e ∷ e' ∷ es) rest = omega (
    arith,
    lt-event_text e (b',' ∷ events_text show_f64 (e' ∷ es) rest),
    le-events_text (e' ∷ es) rest,
  )
