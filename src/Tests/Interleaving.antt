-- ===== src/Tests/Interleaving.antt =====
-- The theorems on threads, each at a concrete input: two threads with one job each.
use interpol.Base.{
  update, arith, ◌≤◌, ◌⊎◌, ◌≡◌, ◌++◌, ℕ, refl, if◌then◌else◌, none, some, List, [], ◌∷◌, leb,
}
use interpol.Types.{MpiCallType}
use interpol.Event.{Event}
use interpol.Vector.{Vec, new_vec, register}
use interpol.Dispatch.Record.{event_of}
use interpol.Threads.{
  Job, System, idle, locked, loaded, leaving, stored, lock, load, store, unlock, start, Reach, here,
  next, replay, of_thread, rest,
}
use interpol.Threads.Termination.{moves, total, IsFinished, Reach_ends}
use interpol.Threads.Progress.{CanStep, Aborts, Reach-CanStep}
use interpol.Threads.Invariant.{mutual_exclusion, Reach-replay}
use interpol.Tests.Data.{generous, call_of}

abbrev job : Job
job = record { memory = generous; event = event_of (call_of MpiCallType.wait 0 50) }

-- Two threads with one job each; the first has the guard.
abbrev program : ℕ → List Job
program i = if leb i 1 then job ∷ [] else []

abbrev first_locked : System
first_locked = record (start program) {
  holder = some 0;
  pc = update (start program).pc 0 (locked job []);
}

first_locked-Reach : Reach program first_locked []
first_locked-Reach = next here (lock 0 job [] refl refl)

mutual_exclusion_example : ◌≡◌ {A = ℕ} 0 0
mutual_exclusion_example = mutual_exclusion first_locked-Reach 0 0 refl refl

abbrev first_loaded : System
first_loaded = record first_locked { pc = update first_locked.pc 0 (loaded job [] new_vec) }

abbrev one_event : Vec Event
one_event = record { items = job.event ∷ []; capacity = 4 }

-- The first has stored its event and has still the guard.
abbrev first_stored : System
first_stored = record first_loaded {
  vector = one_event;
  pc = update first_loaded.pc 0 (leaving []);
}

first_stored-Reach : Reach program first_stored ((0, job) ∷ [])
unfolding stored register
first_stored-Reach =
    next (next first_locked-Reach (load 0 job [] refl)) (store 0 job [] new_vec one_event refl refl)

Reach-replay_example :
    (replay ((0, job) ∷ []) new_vec ≡ some one_event)
    × ((j : ℕ) → of_thread j ((0, job) ∷ []) ++ rest (first_stored.pc j) ≡ program j)
Reach-replay_example = Reach-replay first_stored-Reach

Reach-CanStep_example : CanStep first_stored ⊎ Aborts first_stored
Reach-CanStep_example = Reach-CanStep first_stored-Reach 1 (λ e. cc)

no_more_threads : (i : ℕ) → 2 ≤ i → program i ≡ []
no_more_threads i h = ground arith

-- Both have registered, the first before the second.
abbrev first_done : System
first_done = record first_stored { holder = none; pc = update first_stored.pc 0 (idle []) }

abbrev second_locked : System
second_locked = record first_done { holder = some 1; pc = update first_done.pc 1 (locked job []) }

abbrev second_loaded : System
second_loaded = record second_locked { pc = update second_locked.pc 1 (loaded job [] one_event) }

abbrev two_events : Vec Event
two_events = record { items = job.event ∷ job.event ∷ []; capacity = 4 }

abbrev second_stored : System
second_stored = record second_loaded {
  vector = two_events;
  pc = update second_loaded.pc 1 (leaving []);
}

abbrev both_done : System
both_done = record second_stored { holder = none; pc = update second_stored.pc 1 (idle []) }

both_done-Reach : Reach program both_done ((0, job) ∷ (1, job) ∷ [])
unfolding stored register
both_done-Reach =
    let r : Reach program first_done ((0, job) ∷ []) = next first_stored-Reach (unlock 0 [] refl) in
    let q : Reach program second_locked ((0, job) ∷ []) = next r (lock 1 job [] refl refl) in
    let p : Reach program second_loaded ((0, job) ∷ []) = next q (load 1 job [] refl) in
    let o : Reach program second_stored ((0, job) ∷ (1, job) ∷ []) =
      next p (store 1 job [] one_event two_events refl refl) in
    next o (unlock 1 [] refl)

Reach_ends_example :
    (moves both_done-Reach ≤ total 2 (start program).pc)
    × (CanStep both_done
        ⊎ (Aborts both_done
            ⊎ (IsFinished program both_done ((0, job) ∷ (1, job) ∷ [])
                × (moves both_done-Reach ≡ total 2 (start program).pc))))
Reach_ends_example = Reach_ends 2 no_more_threads both_done-Reach
