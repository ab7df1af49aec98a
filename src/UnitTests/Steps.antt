-- ===== src/UnitTests/Steps.antt =====
-- A unit test of each of the three forms passes for any struct whose time is a number.
use interpol.Base.{true, some, Text, ok, text_eq_self, ◌≡◌, Option-cases, inl, inr, arith}
use interpol.Types.{MpiCallType}
use interpol.Event.{StructOf, box}
use interpol.Builder.{DeriveBuilder, IsBuilder, settings}
use interpol.Builder.Chain.{sets, build-sets}
use interpol.Json.{restore, HasFiniteTime}
use interpol.Json.Format.{struct_text}
use interpol.Json.Structs.{StructJson, IsStructJson}
use interpol.UnitTests.{◌>>=◌, expect, expect_some, assert_eq, assert_text_eq}
use interpol.UnitTests.Equality.{struct_eq, event_eq_self}

module _ (db : DeriveBuilder) (law : IsBuilder db) (json : StructJson)
    (json_law : IsStructJson json) where
  struct_eq_self :
      (kind : MpiCallType) (s : StructOf kind)
      → HasFiniteTime (box kind s)
      → struct_eq kind s s ≡ true
  unfolding struct_eq
  struct_eq_self kind s h = event_eq_self (box kind s) h

  -- A struct is equal to the one whose fields were set to its values.
  pub builds_ok :
      (kind : MpiCallType) (s : StructOf kind) (message : Text)
      → HasFiniteTime (box kind s)
      → (expect message (db.build (sets db (settings (box kind s)) (db.default kind))) >>= λ built.
          assert_eq (struct_eq kind s built))
        ≡ ok tt
  builds_ok kind s message h = rw (build-sets db law kind s, struct_eq_self kind s h)

  pub serializes_ok :
      (kind : MpiCallType) (s : StructOf kind) (message expected : Text)
      → HasFiniteTime (box kind s)
      → expected ≡ struct_text json.show_f64 (box kind s)
      → (expect_some message (json.to_string kind s) >>= λ serialized.
          assert_text_eq expected serialized)
        ≡ ok tt
  serializes_ok kind s message expected h e = rw (
    json_law.to_string-struct_text kind s h,
    e,
    text_eq_self (struct_text json.show_f64 (box kind s)),
  )

  -- What is read of an indented text, for a struct that is restored as it was.
  read_back :
      (kind : MpiCallType) (s : StructOf kind) (t : Text)
      → json.to_string_pretty kind s ≡ some t
      → restore json.reparse (box kind s) ≡ some (box kind s)
      → (s' : StructOf kind) × (json.from_str kind t ≡ some s') × (box kind s' ≡ box kind s)
  read_back kind s t written kept =
      let law = json_law.from_str-to_string_pretty kind s t written in
      elim (Option-cases (json.from_str kind t)) [
        | inl lost ↦ absurd (ground (arith, law, kept, lost))
        | inr (s', read) ↦ (s', read, ground (arith, law, kept, read))
      ]

  pub deserializes_ok :
      (kind : MpiCallType) (s : StructOf kind) (message message' message'' : Text)
      → HasFiniteTime (box kind s)
      → restore json.reparse (box kind s) ≡ some (box kind s)
      → (expect message (db.build (sets db (settings (box kind s)) (db.default kind))) >>= λ built.
          expect_some message' (json.to_string_pretty kind built) >>= λ serialized.
          expect_some message'' (json.from_str kind serialized) >>= λ deserialized.
          assert_eq (struct_eq kind built deserialized))
        ≡ ok tt
  unfolding struct_eq
  deserializes_ok kind s message message' message'' h kept =
      let (t, written) = json_law.to_string_pretty_total kind s in
      let (s', read, same) = read_back kind s t written kept in
      rw (build-sets db law kind s, written, read, same, event_eq_self (box kind s) h)
