-- ===== src/Threads/Progress.antt =====
-- The threads do not block each other for good.
use interpol.Base.{
  ℕ, ◌≡◌, ◌≢◌, ◌⊎◌, inl, inr, refl, true, none, some, List, [], ◌∷◌, arith, Option-cases,
}
use interpol.Event.{Event}
use interpol.Vector.{Vec}
use interpol.Threads.{
  Job, Pc, idle, locked, loaded, leaving, System, stored, Step, lock, load, store, unlock, Reach,
  here, next, critical,
}

-- The thread that has the guard is one that works with it.
Step-held :
    {s t : System} {more : List (ℕ × Job)}
    → Step s t more
    → ((j : ℕ) → s.holder ≡ some j → critical (s.pc j) ≡ true)
    → (j : ℕ) → t.holder ≡ some j
    → critical (t.pc j) ≡ true
Step-held (lock i job todo at free) held j h = ground (arith, held j)
Step-held (load i job todo at) held j h = ground (arith, held j)
Step-held (store i job todo v v' at e) held j h = ground (arith, held j)
Step-held (unlock i todo at) held j h = ground (arith, held j)

pub Reach-held :
    {program : ℕ → List Job} {s : System} {order : List (ℕ × Job)}
    → Reach program s order
    → (j : ℕ) → s.holder ≡ some j
    → critical (s.pc j) ≡ true
Reach-held here j h = cc
Reach-held (next r step) j h = Step-held step (Reach-held r) j h

-- Some thread can make a step.
abbrev pub CanStep : System → Type 0
CanStep s = (t : System) × (more : List (ℕ × Job)) × Step s t more

-- A thread holds the guard, and its registration aborts the process.
abbrev pub Aborts : System → Type 0
Aborts s =
    (i : ℕ) × (job : Job) × (todo : List Job) × (v : Vec Event) × (s.pc i ≡ loaded job todo v)
    × (stored job v ≡ none)

-- The thread with the guard goes on.
holder-CanStep :
    (s : System) (i : ℕ) (p : Pc) → s.pc i ≡ p → critical p ≡ true → CanStep s ⊎ Aborts s
holder-CanStep s i (idle todo) at h = cc
holder-CanStep s i (locked job todo) at h = inl (_, _, load i job todo at)
holder-CanStep s i (loaded job todo v) at h = elim (Option-cases (stored job v)) [
  | inl lost ↦ inr (i, job, todo, v, at, lost)
  | inr (v', e) ↦ inl (_, _, store i job todo v v' at e)
]
holder-CanStep s i (leaving todo) at h = inl (_, _, unlock i todo at)

-- A thread that has work, while the guard is free.
free-CanStep :
    (s : System) (i : ℕ) (p : Pc)
    → s.pc i ≡ p
    → p ≢ idle []
    → s.holder ≡ none
    → CanStep s ⊎ Aborts s
free-CanStep s i (idle []) at work free = absurd (work refl)
free-CanStep s i (idle (job ∷ todo)) at work free = inl (_, _, lock i job todo at free)
free-CanStep s i p at work free = holder-CanStep s i p at refl

-- In every state that interleaved threads reach and in which a thread still has work, some thread
-- can make a step, unless the one that has the guard makes a registration that ends the process.
pub Reach-CanStep :
    {program : ℕ → List Job} {s : System} {order : List (ℕ × Job)}
    → Reach program s order
    → (i : ℕ) → s.pc i ≢ idle []
    → CanStep s ⊎ Aborts s
Reach-CanStep {program} {s} r i work = elim (Option-cases s.holder) [
  | inl free ↦ free-CanStep s i (s.pc i) refl work free
  | inr (j, taken) ↦ holder-CanStep s j (s.pc j) refl (Reach-held r j taken)
]
