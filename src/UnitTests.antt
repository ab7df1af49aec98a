-- ===== src/UnitTests.antt =====
-- The unit tests at the end of each file of interpol-rs/src/mpi_events: what they share. A test
-- returns `ok` where it passes and `err` with a message where it panics; the value that `expect`
-- prints behind its message is left out.
pub mod Equality
pub mod Management
pub mod PointToPoint
pub mod Synchronization
pub mod Collectives
pub mod Steps
pub mod Passes
use interpol.Base.{
  Bool, Option, none, some, Text, codes, text_eq, Result, ok, err, List, All, ◌≡◌, if◌then◌else◌,
}

abbrev pub Test : Type 0
Test = Result Text (Unit {0})

-- No test of the list panics.
abbrev pub AllPass : List Test → Type 0
AllPass = All (λ result. result ≡ ok tt)

infixl 1 ◌>>=◌
abbrev pub ◌>>=◌ : {A B : Type 0} → Result Text A → (A → Result Text B) → Result Text B
ok a >>= f = f a
err message >>= f = err message

-- `Result::expect`
abbrev pub expect : {E A : Type 0} → Text → Result E A → Result Text A
expect message (ok a) = ok a
expect message (err e) = err message

-- The results of `serde_json` keep no error.
abbrev pub expect_some : {A : Type 0} → Text → Option A → Result Text A
expect_some message (some a) = ok a
expect_some message none = err message

-- `assert_eq!`, from what `==` says.
abbrev pub assert_eq : Bool → Test
assert_eq same = if same then ok tt else err (codes "assertion failed: `(left == right)`")

abbrev pub assert_text_eq : Text → Text → Test
assert_text_eq left right = assert_eq (text_eq left right)
