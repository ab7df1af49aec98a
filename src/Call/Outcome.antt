-- ===== src/Call/Outcome.antt =====
-- How a call of `register_mpi_call` ends, and what it leaves behind.
use interpol.Base.{codes, ap, ◌∙◌, if◌then◌else◌, String, ◌≡◌, refl, false, arith}
use interpol.Types.{MpiCallType}
use interpol.Event.{Event}
use interpol.Builder.{IsBuilder}
use interpol.Json.{SerdeJson, IsSerdeJson}
use interpol.Vector.{IsValid}
use interpol.Vector.Growth.{register-Registers}
use interpol.Machine.{Machine, Ctl, ret, fail, panic, abort, M, ◌>>◌, with_guard, unlocked}
use interpol.Register.{append}
use interpol.Serialize.{serialize}
use interpol.Files.{WriteFaults, create_dir_all, open_truncated, write_text}
use interpol.Dispatch.{MpiCall, Crates, Environment}
use interpol.Dispatch.Record.{event_of, lock_message, body, dispatch-records}
use interpol.Call.{reported, register_mpi_call}

-- The mutex is not poisoned, and the vector is one that a `Vec` can be.
pub record IsSound (s : Machine) : Type 0 where
  pub valid : IsValid s.events
  pub clean : s.poisoned ≡ false

-- A step that leaves the mutex usable and does not panic.
abbrev pub Safe : Ctl (Unit {0}) × Machine → Type 0
Safe (ret _, s) = IsSound s
Safe (fail e, s) = IsSound s
Safe (panic p, s) = ⊥
Safe (abort, s) = Unit

append-Safe :
    (env : Environment) (e : Event) (s : Machine) → IsSound s → Safe (append env.memory e s)
unfolding append
append-Safe env e s h = ground (arith, register-Registers env.memory s.events e h.valid)

serialize-Safe :
    (json : SerdeJson) (law : IsSerdeJson json) (faults : WriteFaults) (call : MpiCall)
    (s : Machine)
    → IsSound s
    → Safe (serialize json faults call.current_rank s)
unfolding serialize create_dir_all open_truncated write_text
serialize-Safe json law faults call s h = ground (arith, law.to_string_total s.events.items)

-- How `register_mpi_call` ends for its caller.
abbrev pub Handled : Ctl (Unit {0}) × Machine → Type 0
Handled (ret _, s) = IsSound s
Handled (fail e, s) = ⊥
Handled (panic p, s) = ⊥
Handled (abort, s) = Unit

reported-Handled :
    (call : MpiCall) (r : Ctl (Unit {0}) × Machine)
    → Safe r
    → Handled (reported call.current_rank r)
reported-Handled call (ret _, s) h = h
reported-Handled call (fail e, s) h = record { valid = h.valid; clean = h.clean }
reported-Handled call (panic p, s) h = h
reported-Handled call (abort, s) h = h

-- The two steps of a `do` block, and the guard, on a step that is safe.
after-Safe :
    (r : Ctl (Unit {0}) × Machine) (k : M (Unit {0}))
    → Safe r
    → ((s : Machine) → IsSound s → Safe (k s))
    → Safe (((λ (s : Machine). r) >> k) r.1)
after-Safe (ret _, s) k h next = next s h
after-Safe (fail e, s) k h next = h
after-Safe (panic p, s) k h next = h
after-Safe (abort, s) k h next = h

unlocked-eq : (r : Ctl (Unit {0}) × Machine) → Safe r → unlocked r ≡ r
unlocked-eq (ret _, s) h = refl
unlocked-eq (fail e, s) h = refl
unlocked-eq (panic p, s) h = absurd h
unlocked-eq (abort, s) h = refl

pub with_guard-eq :
    (message : String) (m : M (Unit {0})) (s : Machine)
    → IsSound s
    → Safe (m s)
    → with_guard message m s ≡ m s
unfolding with_guard
with_guard-eq message m s h safe =
    ap (λ b. if b then (panic (codes message), s) else unlocked (m s)) h.clean
    ∙ unlocked-eq (m s) safe

module _ (crates : Crates) (law : IsBuilder crates.builder) (env : Environment)
    (call : MpiCall) where
  body-Safe :
      IsSerdeJson crates.json
      → (kind : MpiCallType) (e : Event) (s : Machine) → IsSound s
      → Safe (body crates env call kind e s)
  body-Safe json MpiCallType.finalize e s h =
      after-Safe (append env.memory e s) (serialize crates.json env.files call.current_rank)
        (append-Safe env e s h) (serialize-Safe crates.json json env.files call)
  body-Safe json kind e s h = append-Safe env e s h

  -- From a sound state the guard and the dispatch add nothing to what is done under the lock.
  pub register_mpi_call-eq :
      IsSerdeJson crates.json
      → (s : Machine) → IsSound s
      → register_mpi_call crates env call s
        ≡ reported call.current_rank (body crates env call call.kind (event_of call) s)
  unfolding register_mpi_call
  register_mpi_call-eq json s h = ap (reported call.current_rank) (
      dispatch-records crates law env call s
      ∙ with_guard-eq (lock_message call.kind) _ s h (body-Safe json call.kind (event_of call) s h))

  -- Given the documented behaviour of derive_builder and serde_json, and as long as the standard
  -- streams can be written: from a sound state (a valid vector behind a mutex that is not poisoned)
  -- `register_mpi_call` never returns an error and never panics, whichever calls of the allocator
  -- and of the file system fail; and it leaves a sound state unless the process is aborted.
  pub register_mpi_call-IsSound :
      IsSerdeJson crates.json
      → (s : Machine) → IsSound s
      → Handled (register_mpi_call crates env call s)
  register_mpi_call-IsSound json s h =
      rw (register_mpi_call-eq json s h)
        (reported-Handled call _ (body-Safe json call.kind (event_of call) s h))
