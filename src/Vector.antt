-- ===== src/Vector.antt =====
-- The `Vec` of the traces (interpol-rs/src/interpol.rs) with its capacity, and what the standard
-- library does in the calls of `Register::register`: `try_reserve_exact` reports a failed
-- allocation, while `Box::new` and `push` abort the process on one. The allocator is an argument.
pub mod Generous
pub mod Growth
pub mod Reallocation
use interpol.Base.{
  ℕ, suc, ◌+◌, ◌-◌, ◌*◌, ◌%◌, ◌^◌, ◌/◌, ◌≤◌, min, Bool, Option, none, some, List, [], ◌∷◌, ◌++◌,
  Result, ok, err, ltb, leb, ◌==◌, if◌then◌else◌, length,
}
use interpol.Error.{TryReserveError}

pub record Vec (A : Type 0) : Type 0 where
  pub items : List A
  pub capacity : ℕ

-- `Vec::new()`
abbrev pub new_vec : {A : Type 0} → Vec A
new_vec = record { items = []; capacity = 0 }

-- A `Box<dyn Register>` is two words, and a `Vec` never holds more than `isize::MAX` bytes.
abbrev pub max_capacity : ℕ
max_capacity = (2 ^ 63 - 1) / 16

-- The allocator's answers during one call. A granted request may be rounded up: `some slack` is
-- room for `slack` items more than were asked for.
pub record Memory : Type 0 where
  pub reserve : ℕ → Option ℕ
  pub boxes : Bool
  pub grow : ℕ → Option ℕ

-- How a call that pushes ends: with the new vector, with an error that is returned, with the panic
-- "capacity overflow", or with the process aborted.
pub data Pushed (A : Type 0) : Type 0 where
  pushed : Vec A → Pushed A
  refused : TryReserveError → Pushed A
  overflowed out_of_memory : Pushed A

module _ {A : Type 0} where
  abbrev resized : Vec A → ℕ → Vec A
  resized v room = record v { capacity = min room max_capacity }

  -- `Vec::try_reserve_exact`
  unfoldable pub try_reserve_exact : Memory → Vec A → ℕ → Result TryReserveError (Vec A)
  try_reserve_exact memory v additional =
      let needed = length v.items + additional in
      if leb additional (v.capacity - length v.items)
      then ok v
      else if ltb max_capacity needed
      then err TryReserveError.capacity_overflow
      else elim (memory.reserve needed) [
        | none ↦ err TryReserveError.alloc_error
        | some slack ↦ ok (resized v (needed + slack))
      ]

  abbrev with_room : Vec A → A → Vec A
  with_room v x = record v { items = v.items ++ x ∷ [] }

  -- `Vec::push`, which asks for room for one more item if there is none.
  unfoldable pub push : Memory → Vec A → A → Pushed A
  push memory v x =
      let needed = length v.items + 1 in
      if ltb (length v.items) v.capacity
      then pushed (with_room v x)
      else if ltb max_capacity needed
      then overflowed
      else elim (memory.grow needed) [
        | none ↦ out_of_memory
        | some slack ↦ pushed (with_room (resized v (needed + slack)) x)
      ]

  -- `Register::register`, for every type that the macro `impl_register!` is applied to. The product
  -- is computed in `usize`.
  unfoldable pub register : Memory → Vec A → A → Pushed A
  unfolding try_reserve_exact push
  register memory v x = elim (try_reserve_exact memory v (2 * length v.items % 2 ^ 64)) [
    | err e ↦ refused e
    | ok v' ↦ if memory.boxes then push memory v' x else out_of_memory
  ]

  -- The items fit, and the capacity is one that a `Vec` can have.
  pub record IsValid (v : Vec A) : Type 0 where
    pub fits : length v.items ≤ v.capacity
    pub bounded : v.capacity ≤ max_capacity
