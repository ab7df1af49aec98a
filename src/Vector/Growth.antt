-- ===== src/Vector/Growth.antt =====
-- What a call of `Register::register` does to the vector, on every branch.
use interpol.Base.{
  ◌+◌, ◌*◌, ◌≤◌, ◌<◌, ◌≡◌, ◌⊎◌, false, none, [], ◌∷◌, ◌++◌, ℕ, arith, length, length-append,
}
use interpol.Error.{TryReserveError}
use interpol.Vector.{
  Vec, new_vec, max_capacity, Memory, Pushed, pushed, refused, overflowed, out_of_memory, register,
  IsValid,
}

tripled : (n : ℕ) → n + 2 * n ≡ 3 * n
tripled n = omega arith

module _ {A : Type 0} where
  -- How a call may end on a vector.
  abbrev pub Registers : Memory → Vec A → A → Pushed A → Type 0
  Registers memory v x (pushed v') =
      IsValid v' × (v'.items ≡ v.items ++ x ∷ []) × (3 * length v.items ≤ v'.capacity)
  Registers memory v x (refused TryReserveError.capacity_overflow) =
      max_capacity < 3 * length v.items
  Registers memory v x (refused TryReserveError.alloc_error) =
      (v.capacity < 3 * length v.items) × (memory.reserve (3 * length v.items) ≡ none)
  Registers memory v x overflowed = ⊥
  Registers memory v x out_of_memory =
      (memory.boxes ≡ false) ⊎ ((v.items ≡ []) × (memory.grow 1 ≡ none))

  -- On a valid vector: a successful registration makes the event the last item of a valid vector
  -- with room for at least three times the items there were; an error is returned only if that room
  -- is more than a `Vec` can have, or it was not there and the allocator refuses it; there is never
  -- a capacity overflow panic; and the process is aborted only if the box of the event, or room for
  -- a first event, cannot be allocated.
  pub register-Registers :
      (memory : Memory) (v : Vec A) (x : A) → IsValid v → Registers memory v x (register memory v x)
  unfolding register
  register-Registers memory v x h =
      ground (arith, length-append v.items (x ∷ []), tripled (length v.items))

  -- For the first event, whatever the allocator answers to reservations: if `push` finds no memory
  -- for one item, the process is aborted, although the registration can return errors.
  pub register_first :
      (memory : Memory) (x : A) → memory.grow 1 ≡ none → register memory new_vec x ≡ out_of_memory
  unfolding register
  register_first memory x h = ground arith

  -- A reservation that is needed and is refused.
  pub register_refused :
      (memory : Memory) (v : Vec A) (x : A)
      → IsValid v
      → v.capacity < 3 * length v.items
      → 3 * length v.items ≤ max_capacity
      → memory.reserve (3 * length v.items) ≡ none
      → register memory v x ≡ refused TryReserveError.alloc_error
  unfolding register
  register_refused memory v x h full room e = ground (arith, tripled (length v.items))
