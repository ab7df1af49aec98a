-- ===== src/Threads/Invariant.antt =====
-- The mutex makes every interleaving of the threads a sequence of whole registrations.
use interpol.Base.{
  ℕ, ◌++◌, ◌≡◌, ◌∙◌, sym, ap, refl, true, some, List, [], ◌∷◌, arith, Option-cases, inl, inr,
}
use mathlib.Core.List.{append_assoc, append-nil}
use mathlib.Core.Option.{some-injective}
use interpol.Event.{Event}
use interpol.Vector.{Vec, new_vec}
use interpol.Threads.{
  Job, loaded, System, stored, Step, lock, load, store, unlock, start, Reach, here, next, replay,
  of_thread, rest, critical,
}

-- One registration more at the end.
replay-snoc :
    (i : ℕ) (job : Job) (order : List (ℕ × Job)) (u : Vec Event) {v w : Vec Event}
    → replay order u ≡ some v
    → stored job v ≡ some w
    → replay (order ++ (i, job) ∷ []) u ≡ some w
unfolding replay
replay-snoc i job [] u e f = ground arith
replay-snoc i job ((j, first) ∷ order) u e f = elim (Option-cases (stored first u)) [
  | inl lost ↦ absurd (ground arith)
  | inr (x, p) ↦ ground (arith, replay-snoc i job order x (ground arith) f)
]

of_thread-append :
    (j : ℕ) (xs ys : List (ℕ × Job)) → of_thread j (xs ++ ys) ≡ of_thread j xs ++ of_thread j ys
of_thread-append j [] ys = refl
of_thread-append j ((i, job) ∷ xs) ys = ground (arith, of_thread-append j xs ys)

record Inv (program : ℕ → List Job) (s : System) (order : List (ℕ × Job)) : Type 0 where
  exclusive : (j : ℕ) → critical (s.pc j) ≡ true → s.holder ≡ some j
  current :
      (j : ℕ) (job : Job) (todo : List Job) (v : Vec Event)
      → s.pc j ≡ loaded job todo v
      → v ≡ s.vector
  replayed : replay order new_vec ≡ some s.vector
  progress : (j : ℕ) → of_thread j order ++ rest (s.pc j) ≡ program j

Inv-start : (program : ℕ → List Job) → Inv program (start program) []
unfolding replay
Inv-start program = record {
  exclusive = λ j h. cc;
  current = λ j job todo v h. cc;
  replayed = refl;
  progress = λ j. refl;
}

module _ {program : ℕ → List Job} {s : System} {order : List (ℕ × Job)}
    (inv : Inv program s order) where
  Step-exclusive :
      {t : System} {more : List (ℕ × Job)}
      → Step s t more
      → (j : ℕ) → critical (t.pc j) ≡ true
      → t.holder ≡ some j
  Step-exclusive (lock i job todo at free) j h = ground (arith, inv.exclusive j)
  Step-exclusive (load i job todo at) j h = ground (arith, inv.exclusive j, inv.exclusive i)
  Step-exclusive (store i job todo v v' at e) j h = ground (arith, inv.exclusive j, inv.exclusive i)
  Step-exclusive (unlock i todo at) j h = ground (arith, inv.exclusive j, inv.exclusive i)

  Step-current :
      {t : System} {more : List (ℕ × Job)}
      → Step s t more
      → (j : ℕ) (job : Job) (todo : List Job) (v : Vec Event) → t.pc j ≡ loaded job todo v
      → v ≡ t.vector
  Step-current (lock i job' todo' at free) j job todo v h = ground (arith, inv.current j job todo v)
  Step-current (load i job' todo' at) j job todo v h = ground (arith, inv.current j job todo v)
  Step-current (store i job' todo' u v' at e) j job todo v h =
      ground (arith, inv.exclusive j, inv.exclusive i)
  Step-current (unlock i todo' at) j job todo v h = ground (arith, inv.current j job todo v)

  Step-replayed :
      {t : System} {more : List (ℕ × Job)}
      → Step s t more
      → replay (order ++ more) new_vec ≡ some t.vector
  Step-replayed (lock i job todo at free) = ground (arith, inv.replayed, append-nil order)
  Step-replayed (load i job todo at) = ground (arith, inv.replayed, append-nil order)
  Step-replayed (store i job todo v v' at e) =
      replay-snoc i job order new_vec inv.replayed
        (ap (stored job) (sym (inv.current i job todo v at)) ∙ e)
  Step-replayed (unlock i todo at) = ground (arith, inv.replayed, append-nil order)

  Step-progress :
      {t : System} {more : List (ℕ × Job)}
      → Step s t more
      → (j : ℕ) → of_thread j (order ++ more) ++ rest (t.pc j) ≡ program j
  Step-progress (lock i job todo at free) j = ground (arith, inv.progress j, append-nil order)
  Step-progress (load i job todo at) j = ground (arith, inv.progress j, append-nil order)
  Step-progress (store i job todo v v' at e) j = ground (
    arith,
    inv.progress j,
    of_thread-append j order ((i, job) ∷ []),
    append_assoc (of_thread j order) (job ∷ []) todo,
    append-nil (of_thread j order),
  )
  Step-progress (unlock i todo at) j = ground (arith, inv.progress j, append-nil order)

  Step-Inv : {t : System} {more : List (ℕ × Job)} → Step s t more → Inv program t (order ++ more)
  Step-Inv step = record {
    exclusive = Step-exclusive step;
    current = Step-current step;
    replayed = Step-replayed step;
    progress = Step-progress step;
  }

Reach-Inv :
    {program : ℕ → List Job} {s : System} {order : List (ℕ × Job)}
    → Reach program s order
    → Inv program s order
Reach-Inv {program} here = Inv-start program
Reach-Inv (next r step) = Step-Inv (Reach-Inv r) step

-- In every state that interleaved threads reach, two threads that both have the guard are one
-- thread.
pub mutual_exclusion :
    {program : ℕ → List Job} {s : System} {order : List (ℕ × Job)}
    → Reach program s order
    → (i j : ℕ) → critical (s.pc i) ≡ true
    → critical (s.pc j) ≡ true
    → i ≡ j
mutual_exclusion r i j p q =
    let inv = Reach-Inv r in some-injective _ _ (sym (inv.exclusive i p) ∙ inv.exclusive j q)

-- In every state that interleaved threads reach, the vector is what the registrations that are
-- complete make of an empty one when they are done one after the other, in the order in which they
-- were stored; and those of each thread are its jobs in their order, but for the ones that it has
-- left.
pub Reach-replay :
    {program : ℕ → List Job} {s : System} {order : List (ℕ × Job)}
    → Reach program s order
    → (replay order new_vec ≡ some s.vector)
      × ((j : ℕ) → of_thread j order ++ rest (s.pc j) ≡ program j)
Reach-replay r = let inv = Reach-Inv r in (inv.replayed, inv.progress)
