-- ===== src/UnitTests/Equality.antt =====
-- `==` on the structs of the events, as `#[derive(PartialEq)]` on each of them makes it: all fields
-- are equal, integers and variants as numbers and `f64` by value.
use interpol.Base.{
  ◌%◌, ◌^◌, Bool, true, false, not, ◌&&◌, ◌||◌, List, [], ◌∷◌, ◌==◌, ◌≡◌, refl, All, arith,
}
use interpol.Base.Int.{ℤ, pos, negsuc}
use interpol.Types.{Usecs, MpiCallType, is_finite}
use interpol.Types.Repr.{mpi_op_repr}
use interpol.Event.{Event, StructOf, box}
use interpol.Builder.{Setting, settings}
use interpol.Json.{HasFiniteTime}

unfoldable int_eq : ℤ → ℤ → Bool
int_eq (pos a) (pos b) = a == b
int_eq (negsuc a) (negsuc b) = a == b
int_eq _ _ = false

abbrev bool_eq : Bool → Bool → Bool
bool_eq true b = b
bool_eq false b = not b

-- All exponent bits are set and the fraction is not 0.
unfoldable is_nan : Usecs → Bool
unfolding is_finite
is_nan bits = not (is_finite bits) && not (bits % 2 ^ 52 == 0)

-- A NaN is equal to nothing, and the two zeros are equal.
unfoldable f64_eq : Usecs → Usecs → Bool
unfolding is_nan
f64_eq a b = not (is_nan a) && not (is_nan b) && (a == b || (a % 2 ^ 63 == 0 && b % 2 ^ 63 == 0))

unfoldable field_eq : Setting → Setting → Bool
unfolding int_eq f64_eq mpi_op_repr
field_eq (Setting.current_rank a) (Setting.current_rank b) = int_eq a b
field_eq (Setting.partner_rank a) (Setting.partner_rank b) = int_eq a b
field_eq (Setting.nb_bytes a) (Setting.nb_bytes b) = a == b
field_eq (Setting.nb_bytes_send a) (Setting.nb_bytes_send b) = a == b
field_eq (Setting.nb_bytes_recv a) (Setting.nb_bytes_recv b) = a == b
field_eq (Setting.comm a) (Setting.comm b) = int_eq a b
field_eq (Setting.req a) (Setting.req b) = int_eq a b
field_eq (Setting.tag a) (Setting.tag b) = int_eq a b
field_eq (Setting.tsc a) (Setting.tsc b) = a == b
field_eq (Setting.duration a) (Setting.duration b) = a == b
field_eq (Setting.time a) (Setting.time b) = f64_eq a b
field_eq (Setting.required_thread_lvl a) (Setting.required_thread_lvl b) = int_eq a b
field_eq (Setting.provided_thread_lvl a) (Setting.provided_thread_lvl b) = int_eq a b
field_eq (Setting.finished a) (Setting.finished b) = bool_eq a b
field_eq (Setting.op_type a) (Setting.op_type b) = mpi_op_repr a == mpi_op_repr b
field_eq _ _ = false

unfoldable fields_eq : List Setting → List Setting → Bool
unfolding field_eq
fields_eq [] [] = true
fields_eq (x ∷ xs) (y ∷ ys) = field_eq x y && fields_eq xs ys
fields_eq _ _ = false

unfoldable pub event_eq : Event → Event → Bool
unfolding settings fields_eq
event_eq e e' = fields_eq (settings e) (settings e')

unfoldable pub struct_eq : (kind : MpiCallType) → StructOf kind → StructOf kind → Bool
unfolding box event_eq
struct_eq kind s s' = event_eq (box kind s) (box kind s')

int_eq_self : (a : ℤ) → int_eq a a ≡ true
unfolding int_eq
int_eq_self (pos a) = ground arith
int_eq_self (negsuc a) = ground arith

bool_eq_self : (b : Bool) → bool_eq b b ≡ true
bool_eq_self true = refl
bool_eq_self false = refl

-- Every number but a NaN is equal to itself.
f64_eq_self : (a : Usecs) → is_finite a ≡ true → f64_eq a a ≡ true
unfolding f64_eq is_nan
f64_eq_self a h = ground arith

-- Only a time can be different from itself.
abbrev HasFiniteValue : Setting → Type 0
HasFiniteValue (Setting.time t) = is_finite t ≡ true
HasFiniteValue x = Unit

field_eq_self : (x : Setting) → HasFiniteValue x → field_eq x x ≡ true
unfolding field_eq
field_eq_self (Setting.current_rank a) h = int_eq_self a
field_eq_self (Setting.partner_rank a) h = int_eq_self a
field_eq_self (Setting.nb_bytes a) h = ground arith
field_eq_self (Setting.nb_bytes_send a) h = ground arith
field_eq_self (Setting.nb_bytes_recv a) h = ground arith
field_eq_self (Setting.comm a) h = int_eq_self a
field_eq_self (Setting.req a) h = int_eq_self a
field_eq_self (Setting.tag a) h = int_eq_self a
field_eq_self (Setting.tsc a) h = ground arith
field_eq_self (Setting.duration a) h = ground arith
field_eq_self (Setting.time a) h = f64_eq_self a h
field_eq_self (Setting.required_thread_lvl a) h = int_eq_self a
field_eq_self (Setting.provided_thread_lvl a) h = int_eq_self a
field_eq_self (Setting.finished a) h = bool_eq_self a
field_eq_self (Setting.op_type a) h = ground arith

fields_eq_self : (xs : List Setting) → All HasFiniteValue xs → fields_eq xs xs ≡ true
unfolding fields_eq
fields_eq_self [] h = refl
fields_eq_self (x ∷ xs) h = rw (field_eq_self x h.0) (fields_eq_self xs h.1)

settings-All : (e : Event) → HasFiniteTime e → All HasFiniteValue (settings e)
unfolding settings
settings-All (Event.init e) h = (tt, (tt, (h, tt)))
settings-All (Event.initthread e) h = (tt, (tt, (tt, (tt, (h, tt)))))
settings-All (Event.finalize e) h = (tt, (tt, (h, tt)))
settings-All (Event.send e) h = (tt, (tt, (tt, (tt, (tt, (tt, (tt, tt)))))))
settings-All (Event.recv e) h = (tt, (tt, (tt, (tt, (tt, (tt, (tt, tt)))))))
settings-All (Event.isend e) h = (tt, (tt, (tt, (tt, (tt, (tt, (tt, (tt, tt))))))))
settings-All (Event.irecv e) h = (tt, (tt, (tt, (tt, (tt, (tt, (tt, (tt, tt))))))))
settings-All (Event.test e) h = (tt, (tt, (tt, (tt, (tt, tt)))))
settings-All (Event.wait e) h = (tt, (tt, (tt, (tt, tt))))
settings-All (Event.barrier e) h = (tt, (tt, (tt, (tt, tt))))
settings-All (Event.ibarrier e) h = (tt, (tt, (tt, (tt, (tt, tt)))))
settings-All (Event.ibcast e) h = (tt, (tt, (tt, (tt, (tt, (tt, (tt, tt)))))))
settings-All (Event.igather e) h = (tt, (tt, (tt, (tt, (tt, (tt, (tt, (tt, tt))))))))
settings-All (Event.ireduce e) h = (tt, (tt, (tt, (tt, (tt, (tt, (tt, (tt, tt))))))))
settings-All (Event.iscatter e) h = (tt, (tt, (tt, (tt, (tt, (tt, (tt, (tt, tt))))))))

-- An event whose time is a number is equal to itself.
pub event_eq_self : (e : Event) → HasFiniteTime e → event_eq e e ≡ true
unfolding event_eq
event_eq_self e h = fields_eq_self (settings e) (settings-All e h)
