-- ===== src/Vector/Reallocation.antt =====
-- How often `Register::register` moves the vector, with an allocator that grants what is asked for
-- and nothing more.
use interpol.Base.{
  ℕ, ◌+◌, ◌*◌, ◌≤◌, ◌<◌, ◌≡◌, refl, true, some, List, [], ◌∷◌, ◌++◌, arith, length, length-append,
  ◌==◌, if◌then◌else◌,
}
use interpol.Vector.{Vec, max_capacity, Memory, Pushed, pushed, register, IsValid}

abbrev pub exact : Memory
exact = record { reserve = λ _. some 0; boxes = true; grow = λ _. some 0 }

module _ {A : Type 0} where
  abbrev vector_or : Vec A → Pushed A → Vec A
  vector_or v (pushed v') = v'
  vector_or v p = v

  -- A run of calls, and the number of those that changed the capacity.
  unfoldable pub register_all : Memory → Vec A → List A → Vec A × ℕ
  register_all memory v [] = (v, 0)
  register_all memory v (x ∷ xs) =
      let v' = vector_or v (register memory v x) in
      let (last, moves) = register_all memory v' xs in
      (last, if v'.capacity == v.capacity then moves else moves + 1)

  -- One more item, and room for three times as many as there were.
  abbrev tripled : Vec A → A → Vec A
  tripled v x = record { items = v.items ++ x ∷ []; capacity = 3 * length v.items }

  tripled-IsValid :
      (v : Vec A) (x : A)
      → 1 ≤ length v.items
      → 3 * length v.items ≤ max_capacity
      → IsValid (tripled v x)
  tripled-IsValid v x filled room = record {
    fits = omega (arith, length-append v.items (x ∷ []));
    bounded = room;
  }

  -- With room for less than three times its items, a vector is moved to room for exactly that.
  register-exact :
      (v : Vec A) (x : A)
      → IsValid v
      → v.capacity < 3 * length v.items
      → 3 * length v.items ≤ max_capacity
      → register exact v x ≡ pushed (tripled v x)
  unfolding register
  register-exact v x h small room = ground arith

  -- With an allocator that grants exactly what is asked for, from a valid vector with room for less
  -- than three times its items, and within the bounds of a `Vec`, each of the next `n`
  -- registrations moves the vector: they make `n` moves.
  pub register_all_moves :
      (v : Vec A) (xs : List A)
      → IsValid v
      → v.capacity < 3 * length v.items
      → 3 * (length v.items + length xs) ≤ max_capacity
      → (register_all exact v xs).1 ≡ length xs
  unfolding register_all
  register_all_moves v [] h small room = refl
  register_all_moves v (x ∷ xs) h small room = rw (register-exact v x h small (omega arith)) (
      ground (
        arith,
        register_all_moves (tripled v x) xs (tripled-IsValid v x (omega arith) (omega arith))
            (omega (arith, grown)) (omega (arith, grown)),
      ))
    where
      grown : length (v.items ++ x ∷ []) ≡ length v.items + 1
      grown = length-append v.items (x ∷ [])
