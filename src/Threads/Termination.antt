-- ===== src/Threads/Termination.antt =====
-- Every run of the threads comes to an end, and how.
use interpol.Base.{
  update, ℕ, suc, zero, ◌+◌, ◌*◌, ◌≤◌, ◌<◌, ◌≡◌, ◌≢◌, ◌⊎◌, ◌∙◌, ◌++◌, sym, refl, ap, ◌==◌, none,
  some, List, [], ◌∷◌, arith, length, Bool-cases, Option-cases, inl, inr, leb,
}
use mathlib.Core.List.{append-nil}
use interpol.Vector.{new_vec}
use interpol.Threads.{
  Job, Pc, idle, locked, loaded, leaving, System, Step, lock, load, store, unlock, start, Reach,
  here, next, replay, of_thread, rest,
}
use interpol.Threads.Invariant.{Reach-replay}
use interpol.Threads.Progress.{CanStep, Aborts, Reach-held, Reach-CanStep}

-- The steps that a thread still has to make: four for each job.
abbrev pub work : Pc → ℕ
work (idle todo) = 4 * length todo
work (locked job todo) = 3 + 4 * length todo
work (loaded job todo v) = 2 + 4 * length todo
work (leaving todo) = 1 + 4 * length todo

-- The steps that the first `n` threads still have to make.
unfoldable pub total : ℕ → (ℕ → Pc) → ℕ
total zero pc = 0
total (suc n) pc = total n pc + work (pc n)

total_above : (n : ℕ) (pc : ℕ → Pc) (i : ℕ) (p : Pc) → n ≤ i → total n (update pc i p) ≡ total n pc
unfolding total
total_above zero pc i p h = refl
total_above (suc n) pc i p h = ground (arith, total_above n pc i p (omega arith))

total_below :
    (n : ℕ) (pc : ℕ → Pc) (i : ℕ) (p : Pc)
    → i < n
    → total n (update pc i p) + work (pc i) ≡ total n pc + work p
unfolding total
total_below zero pc i p h = absurd (omega arith)
total_below (suc n) pc i p h = elim (Bool-cases (i == n)) [
  | inl same ↦ ground (arith, total_above n pc i p (ground arith))
  | inr other ↦ ground (arith, total_below n pc i p (ground arith))
]

-- The steps of a run.
unfoldable pub moves :
    {program : ℕ → List Job} {s : System} {order : List (ℕ × Job)} → Reach program s order → ℕ
moves here = 0
moves (next r step) = moves r + 1

-- A thread without jobs stays as it is.
quiet :
    {program : ℕ → List Job} {s : System} {order : List (ℕ × Job)} (n : ℕ)
    → ((i : ℕ) → n ≤ i → program i ≡ [])
    → Reach program s order
    → (i : ℕ) → n ≤ i
    → s.pc i ≡ idle []
quiet n jobless here i h = ap idle (jobless i h)
quiet n jobless (next r (lock j job todo at free)) i h = ground (arith, quiet n jobless r i h)
quiet n jobless (next r (load j job todo at)) i h = ground (arith, quiet n jobless r i h)
quiet n jobless (next r (store j job todo v v' at e)) i h = ground (arith, quiet n jobless r i h)
quiet n jobless (next r (unlock j todo at)) i h = ground (arith, quiet n jobless r i h)

-- A thread makes a step.
total-update :
    (n : ℕ) (pc : ℕ → Pc) (i : ℕ) (p : Pc)
    → ((j : ℕ) → n ≤ j → pc j ≡ idle [])
    → work (pc i) ≡ work p + 1
    → total n (update pc i p) + 1 ≡ total n pc
total-update n pc i p rest step = elim (Bool-cases (leb n i)) [
  | inl above ↦ absurd (omega (arith, step, ap work (rest i (ground arith))))
  | inr below ↦ omega (arith, step, total_below n pc i p (ground arith))
]

Step-total :
    (n : ℕ) {s t : System} {more : List (ℕ × Job)}
    → Step s t more
    → ((i : ℕ) → n ≤ i → s.pc i ≡ idle [])
    → total n t.pc + 1 ≡ total n s.pc
Step-total n {s} (lock i job todo at free) rest =
    total-update n s.pc i (locked job todo) rest (omega (arith, ap work at))
Step-total n {s} (load i job todo at) rest =
    total-update n s.pc i (loaded job todo s.vector) rest (omega (arith, ap work at))
Step-total n {s} (store i job todo v v' at e) rest =
    total-update n s.pc i (leaving todo) rest (omega (arith, ap work at))
Step-total n {s} (unlock i todo at) rest =
    total-update n s.pc i (idle todo) rest (omega (arith, ap work at))

-- The steps that were made and those that are left, four for each job not begun, are together as
-- many as at the start.
moves-total :
    {program : ℕ → List Job} {s : System} {order : List (ℕ × Job)} (n : ℕ)
    → ((i : ℕ) → n ≤ i → program i ≡ [])
    → (r : Reach program s order) → moves r + total n s.pc ≡ total n (start program).pc
unfolding moves
moves-total n jobless here = omega arith
moves-total n jobless (next r step) =
    omega (arith, Step-total n step (quiet n jobless r), moves-total n jobless r)

idle-cases : (p : Pc) → (p ≡ idle []) ⊎ (p ≢ idle [])
idle-cases (idle []) = inl refl
idle-cases (idle (job ∷ todo)) = inr (λ e. cc)
idle-cases (locked job todo) = inr (λ e. cc)
idle-cases (loaded job todo v) = inr (λ e. cc)
idle-cases (leaving todo) = inr (λ e. cc)

-- Either all of the first `m` threads are done, or there is one that is not.
first_busy :
    (pc : ℕ → Pc) (m : ℕ) → ((j : ℕ) → j < m → pc j ≡ idle []) ⊎ ((j : ℕ) × (pc j ≢ idle []))
first_busy pc zero = inl (λ j h. absurd (omega arith))
first_busy pc (suc m) = elim (first_busy pc m) [
  | inr busy ↦ inr busy
  | inl all ↦ elim (idle-cases (pc m)) [
    | inr busy ↦ inr (m, busy)
    | inl e ↦ inl (λ j h. ground (arith, all j))
  ]
]

-- Threads that are done have no step left.
total_idle : (n : ℕ) (pc : ℕ → Pc) → ((j : ℕ) → pc j ≡ idle []) → total n pc ≡ 0
unfolding total
total_idle zero pc all = refl
total_idle (suc n) pc all = omega (arith, total_idle n pc all, ap work (all n))

-- Every thread has made all its registrations, the mutex is free, and the vector holds what the
-- registrations make of an empty one, one after the other.
pub record IsFinished (program : ℕ → List Job) (s : System) (order : List (ℕ × Job)) : Type 0 where
  pub done : (j : ℕ) → s.pc j ≡ idle []
  pub free : s.holder ≡ none
  pub registered : (j : ℕ) → of_thread j order ≡ program j
  pub vector : replay order new_vec ≡ some s.vector

module _ {program : ℕ → List Job} {s : System} {order : List (ℕ × Job)} (r : Reach program s order)
    (all : (j : ℕ) → s.pc j ≡ idle []) where
  free_mutex : s.holder ≡ none
  free_mutex = elim (Option-cases s.holder) [
    | inl free ↦ free
    | inr (j, taken) ↦ absurd (ground (arith, Reach-held r j taken, all j))
  ]

  done-IsFinished : IsFinished program s order
  done-IsFinished = record {
    done = all;
    free = free_mutex;
    registered = λ j.
        sym (append-nil (of_thread j order))
        ∙ ap (λ p. of_thread j order ++ rest p) (sym (all j))
        ∙ (Reach-replay r).1 j;
    vector = (Reach-replay r).0;
  }

module _ {program : ℕ → List Job} (n : ℕ) (jobless : (i : ℕ) → n ≤ i → program i ≡ []) where
  -- If only the first `n` threads have jobs, then in every run the steps made are at most as many
  -- as the threads had at the start, four for each job; and in the state it has come to, some
  -- thread can make a step, or the registration of the thread that has the guard ends the process,
  -- or the run is finished: all those steps are made, every thread has registered all its jobs in
  -- their order, the mutex is free, and the vector is what these registrations make of an empty
  -- one, one after the other.
  pub Reach_ends :
      {s : System} {order : List (ℕ × Job)} (r : Reach program s order)
      → (moves r ≤ total n (start program).pc)
        × (CanStep s
            ⊎ (Aborts s ⊎ (IsFinished program s order × (moves r ≡ total n (start program).pc))))
  Reach_ends {s} {order} r = (
    omega (arith, moves-total n jobless r),
    elim (first_busy s.pc n) [
      | inr (j, busy) ↦ elim (Reach-CanStep r j busy) [
        | inl goes ↦ inl goes
        | inr aborts ↦ inr (inl aborts)
      ]
      | inl below ↦
          let all : (j : ℕ) → s.pc j ≡ idle [] = λ j. elim (Bool-cases (leb n j)) [
            | inl above ↦ quiet n jobless r j (ground arith)
            | inr under ↦ below j (ground arith)
          ] in
          inr (
            inr (
              done-IsFinished r all,
              omega (arith, moves-total n jobless r, total_idle n s.pc all),
            ))
    ],
  )
