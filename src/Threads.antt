-- ===== src/Threads.antt =====
-- The threads of one process that call `register_mpi_call` at once (interpol-rs/src/interpol.rs,
-- the comment on `EVENTS`): each call takes the mutex, reads the vector, stores what
-- `Register::register` makes of it, and gives the mutex back. The steps interleave in any order.
pub mod Invariant
pub mod Progress
pub mod Termination
use interpol.Base.{
  update, ℕ, ◌++◌, ◌≡◌, Bool, true, false, if◌then◌else◌, ◌==◌, Option, none, some, List, [], ◌∷◌,
}
use interpol.Event.{Event}
use interpol.Vector.{
  Vec, new_vec, Memory, Pushed, pushed, refused, overflowed, out_of_memory, register,
}

-- An event that was built, and the allocator's answers when it is registered.
pub record Job : Type 0 where
  pub memory : Memory
  pub event : Event

-- Where a thread stands, with the jobs that it still has.
pub data Pc : Type 0 where
  idle : List Job → Pc
  locked : Job → List Job → Pc  -- it has the guard
  loaded : Job → List Job → Vec Event → Pc  -- it works on this vector
  leaving : List Job → Pc  -- it has stored, and still has the guard

-- `holder` is the thread that has the guard of the mutex.
pub record System : Type 0 where
  pub vector : Vec Event
  pub holder : Option ℕ
  pub pc : ℕ → Pc

-- The vector after a registration that the process survives.
abbrev pub survives : Vec Event → Pushed Event → Option (Vec Event)
survives v (pushed v') = some v'
survives v (refused e) = some v
survives v overflowed = none
survives v out_of_memory = none

unfoldable pub stored : Job → Vec Event → Option (Vec Event)
stored job v = survives v (register job.memory v job.event)

-- One step of one thread, and the registrations that it completes. `lock` waits while another
-- thread has the guard.
pub data Step (s : System) : System → List (ℕ × Job) → Type 0 where
  lock :
      (i : ℕ) (job : Job) (todo : List Job)
      → s.pc i ≡ idle (job ∷ todo)
      → s.holder ≡ none
      → Step s (record s { holder = some i; pc = update s.pc i (locked job todo) }) []
  load :
      (i : ℕ) (job : Job) (todo : List Job)
      → s.pc i ≡ locked job todo
      → Step s (record s { pc = update s.pc i (loaded job todo s.vector) }) []
  store :
      (i : ℕ) (job : Job) (todo : List Job) (v v' : Vec Event)
      → s.pc i ≡ loaded job todo v
      → stored job v ≡ some v'
      → Step s (record s { vector = v'; pc = update s.pc i (leaving todo) }) ((i, job) ∷ [])
  unlock :
      (i : ℕ) (todo : List Job)
      → s.pc i ≡ leaving todo
      → Step s (record s { holder = none; pc = update s.pc i (idle todo) }) []

abbrev pub start : (ℕ → List Job) → System
start program = record { vector = new_vec; holder = none; pc = λ i. idle (program i) }

-- The states that threads with these jobs can reach, with the registrations in their order.
pub data Reach (program : ℕ → List Job) : System → List (ℕ × Job) → Type 0 where
  here : Reach program (start program) []
  next :
      {s t : System} {order more : List (ℕ × Job)}
      → Reach program s order
      → Step s t more
      → Reach program t (order ++ more)

-- One registration after the other.
unfoldable pub replay : List (ℕ × Job) → Vec Event → Option (Vec Event)
replay [] v = some v
replay ((i, job) ∷ order) v = elim (stored job v) [ none ↦ none | some v' ↦ replay order v' ]

-- The registrations of one thread.
abbrev pub of_thread : ℕ → List (ℕ × Job) → List Job
of_thread j [] = []
of_thread j ((i, job) ∷ order) = if i == j then job ∷ of_thread j order else of_thread j order

-- The jobs of a thread whose registration is not complete.
abbrev pub rest : Pc → List Job
rest (idle todo) = todo
rest (locked job todo) = job ∷ todo
rest (loaded job todo v) = job ∷ todo
rest (leaving todo) = todo

-- The thread has the guard.
abbrev pub critical : Pc → Bool
critical (idle todo) = false
critical p = true
