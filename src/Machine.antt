-- ===== src/Machine.antt =====
-- The state that the functions of interpol-rs/src/interpol.rs change, and how they end: the static
-- `EVENTS` (a vector behind a mutex), the directory of the traces, and the two console streams.
use interpol.Base.{
  ◌≡◌, ap, ◌++◌, Bool, true, if◌then◌else◌, Option, none, some, List, [], ◌∷◌, String, Text, codes,
}
use interpol.Error.{InterpolError, IoError, from_io}
use interpol.Event.{Event}
use interpol.Vector.{Vec}

-- The files of a directory, by name and contents, in the order in which they are listed.
abbrev pub Directory : Type 0
Directory = List (Text × Text)

pub record Machine : Type 0 where
  pub events : Vec Event
  pub poisoned : Bool  -- of the mutex
  pub traces : Option Directory  -- `INTERPOL_DIR`, if it exists
  pub stdout : List Text
  pub stderr : List Text

-- How a call ends: it returns a value, it returns an `Err` (by `?`), it panics, or the process is
-- aborted. Then comes the state that it leaves behind.
pub data Ctl (A : Type 0) : Type 0 where
  ret : A → Ctl A
  fail : InterpolError → Ctl A
  panic : Text → Ctl A
  abort : Ctl A

abbrev pub M : Type 0 → Type 0
M A = Machine → Ctl A × Machine

infixl 5 ◌>>=◌ ◌>>◌
abbrev pub ◌>>=◌ : {A B : Type 0} → M A → (A → M B) → M B
◌>>=◌ m f s =
    let (r, s') = m s in
    elim r [
      | ret a ↦ f a s'
      | fail e ↦ (fail e, s')
      | panic p ↦ (panic p, s')
      | abort ↦ (abort, s')
    ]

abbrev and_then : {A B : Type 0} → (A → M B) → Ctl A × Machine → Ctl B × Machine
and_then f r = elim r.0 [
  | ret a ↦ f a r.1
  | fail e ↦ (fail e, r.1)
  | panic p ↦ (panic p, r.1)
  | abort ↦ (abort, r.1)
]

-- A bind after a step whose end is known.
pub >>=-eq-of_ret :
    {A B : Type 0} (m : M A) (f : A → M B) {s s' : Machine} {a : A}
    → m s ≡ (ret a, s')
    → (m >>= f) s ≡ f a s'
>>=-eq-of_ret m f e = ap (and_then f) e

pub >>=-eq-of_fail :
    {A B : Type 0} (m : M A) (f : A → M B) {s s' : Machine} {e : InterpolError}
    → m s ≡ (fail e, s')
    → (m >>= f) s ≡ (fail e, s')
>>=-eq-of_fail m f failed = ap (and_then f) failed

pub >>=-eq-of_panic :
    {A B : Type 0} (m : M A) (f : A → M B) {s s' : Machine} {message : Text}
    → m s ≡ (panic message, s')
    → (m >>= f) s ≡ (panic message, s')
>>=-eq-of_panic m f panicked = ap (and_then f) panicked

abbrev pub ◌>>◌ : {A B : Type 0} → M A → M B → M B
m >> k = m >>= λ _. k

abbrev pub pure : {A : Type 0} → A → M A
pure a s = (ret a, s)

-- `.expect(message)`; what the panic says of the error, behind the message, is not kept.
abbrev pub expect : {A : Type 0} → String → Option A → M A
expect message none s = (panic (codes message), s)
expect message (some a) s = (ret a, s)

-- `?` on a `std::io::Result`
abbrev pub io : Option IoError → M (Unit {0})
io none s = (ret tt, s)
io (some e) s = (fail (from_io e), s)

-- `print!` and `println!`; what is kept is the text of each, without the ends of the lines. The two
-- standard streams are taken to be writable: on a stream that is not, these macros and `eprintln!`
-- panic, which is not modelled.
abbrev pub print : Text → M (Unit {0})
print text s = (ret tt, record s { stdout = s.stdout ++ text ∷ [] })

abbrev pub println : Text → M (Unit {0})
println line s = (ret tt, record s { stdout = s.stdout ++ line ∷ [] })

abbrev pub eprintln : Text → M (Unit {0})
eprintln line s = (ret tt, record s { stderr = s.stderr ++ line ∷ [] })

-- A panic that passes the guard of the mutex poisons it.
abbrev pub unlocked : {A : Type 0} → Ctl A × Machine → Ctl A × Machine
unlocked (ret a, s) = (ret a, s)
unlocked (fail e, s) = (fail e, s)
unlocked (panic p, s) = (panic p, record s { poisoned = true })
unlocked (abort, s) = (abort, s)

-- `EVENTS.0.lock().expect(message)`, and what is done while the guard lives.
unfoldable pub with_guard : {A : Type 0} → String → M A → M A
with_guard message body s = if s.poisoned then (panic (codes message), s) else unlocked (body s)
