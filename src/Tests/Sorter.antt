-- ===== src/Tests/Sorter.antt =====
-- A concrete `rayon` for the tests: insertion sort.
use mathlib.Core.List.{Perm}
use mathlib.Core.List.Perm
use interpol.Base.{
  ℕ, ◌≤◌, List, [], ◌∷◌, All, leb, leb→le, if◌then◌else◌, arith, inl, inr, Bool-cases,
}
use interpol.Event.{Event}
use interpol.Aggregate.{Rayon, IsRayon, IsSorted}

module _ (key : Event → ℕ) where
  pub insert : Event → List Event → List Event
  insert x [] = x ∷ []
  insert x (y ∷ ys) = if leb (key x) (key y) then x ∷ y ∷ ys else y ∷ insert x ys

  unfoldable pub sort : List Event → List Event
  unfolding insert
  sort [] = []
  sort (x ∷ xs) = insert x (sort xs)

  insert-perm : (x : Event) (l : List Event) → Perm (insert x l) (x ∷ l)
  unfolding insert
  insert-perm x [] = Perm.refl (x ∷ [])
  insert-perm x (y ∷ ys) = elim (Bool-cases (leb (key x) (key y))) [
    | inl h ↦ rw h (Perm.refl (x ∷ y ∷ ys))
    | inr h ↦ rw h (Perm.trans (Perm.cons y (insert-perm x ys)) (Perm.swap x y ys))
  ]

  sort-perm : (l : List Event) → Perm (sort l) l
  unfolding sort
  sort-perm [] = Perm.refl []
  sort-perm (x ∷ xs) = Perm.trans (insert-perm x (sort xs)) (Perm.cons x (sort-perm xs))

  All-le :
      (a b : Event) (l : List Event)
      → key a ≤ key b
      → All (λ y. key b ≤ key y) l
      → All (λ y. key a ≤ key y) l
  All-le a b [] h all = tt
  All-le a b (y ∷ l) h all = (omega arith, All-le a b l h all.1)

  insert-All :
      (n : ℕ) (x : Event) (l : List Event)
      → n ≤ key x
      → All (λ y. n ≤ key y) l
      → All (λ y. n ≤ key y) (insert x l)
  unfolding insert
  insert-All n x [] h all = (h, tt)
  insert-All n x (y ∷ l) h all = ground (arith, insert-All n x l h all.1)

  insert-IsSorted : (x : Event) (l : List Event) → IsSorted key l → IsSorted key (insert x l)
  unfolding insert
  insert-IsSorted x [] h = (tt, tt)
  insert-IsSorted x (y ∷ l) h = elim (Bool-cases (leb (key x) (key y))) [
    | inl le ↦ rw le (((leb→le _ _ le), All-le x y l (leb→le _ _ le) h.0), h)
    | inr gt ↦ rw gt (insert-All (key y) x l (ground arith) h.0, insert-IsSorted x l h.1)
  ]

  sort-IsSorted : (l : List Event) → IsSorted key (sort l)
  unfolding sort
  sort-IsSorted [] = tt
  sort-IsSorted (x ∷ l) = insert-IsSorted x (sort l) (sort-IsSorted l)

abbrev pub insertion_sort : Rayon
insertion_sort = record { par_sort_unstable_by_key = sort }

pub insertion_sort-IsRayon : IsRayon insertion_sort
insertion_sort-IsRayon = record { sorted = sort-IsSorted; perm = sort-perm }
