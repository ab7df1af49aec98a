-- ===== src/Register.antt =====
-- The steps that the `register_*` functions of interpol-rs/src/interpol.rs share: a chain of
-- setters, `.build()?`, and `event.register(&mut guard)?` on the vector behind the guard.
pub mod Management
pub mod PointToPoint
pub mod Synchronization
pub mod Collectives
use interpol.Base.{codes, Result, ok, err}
use interpol.Types.{MpiCallType}
use interpol.Error.{from_builder_error, from_try_reserve}
use interpol.Event.{Event, StructOf}
use interpol.Builder.{Setting, DeriveBuilder}
use interpol.Vector.{Memory, Pushed, pushed, refused, overflowed, out_of_memory, register}
use interpol.Machine.{Ctl, ret, fail, panic, abort, Machine, M}

module _ (db : DeriveBuilder) {kind : MpiCallType} where
  -- `.build()?`
  unfoldable pub built : db.Builder kind → M (StructOf kind)
  built b s = elim (db.build b) [
    | ok event ↦ (ret event, s)
    | err e ↦ (fail (from_builder_error (db.error_to_string e)), s)
  ]

-- A method call, `builder.field(value)`.
infixl 20 ◌▸◌
abbrev pub ◌▸◌ : {B : Type 0} → B → (B → B) → B
b ▸ setter = setter b

-- What `event.register(&mut guard)?` does with the vector's answer.
abbrev pub landed : Machine → Pushed Event → Ctl (Unit {0}) × Machine
landed s (pushed v) = (ret tt, record s { events = v })
landed s (refused e) = (fail (from_try_reserve e), s)
landed s overflowed = (panic (codes "capacity overflow"), s)
landed s out_of_memory = (abort, s)

-- `event.register(&mut guard)?`
unfoldable pub append : Memory → Event → M (Unit {0})
append memory event s = landed s (register memory s.events event)
