-- ===== src/Tests/Witnesses.antt =====
-- The theorems on calls and the vector, each at a concrete input.
use interpol.Base.{◌≡◌, ℕ, refl, some, List, [], ◌∷◌, Text, All, arith}
use interpol.Base.Int.{pos}
use interpol.Types.{MpiCallType}
use interpol.Error.{TryReserveError, from_try_reserve}
use interpol.Event.{Event}
use interpol.Json.{restore_all}
use interpol.Vector.{Vec, new_vec, out_of_memory, register, IsValid}
use interpol.Vector.Growth.{Registers, register-Registers, register_first}
use interpol.Vector.Reallocation.{exact, register_all, register_all_moves}
use interpol.Vector.Generous.{IsGenerous}
use interpol.Machine.{Machine, ret, with_guard}
use interpol.Serialize.Faults.{Serialized, serialize-Serialized}
use interpol.Dispatch.{dispatch}
use interpol.Dispatch.Record.{event_of, lock_message, body, dispatch-records}
use interpol.Call.{report, register_mpi_call}
use interpol.Call.Outcome.{IsSound, Handled, register_mpi_call-IsSound}
use interpol.Call.Recording.{Records, register_mpi_call-Records}
use interpol.Call.Run.{Step, run, events_of, Granted, run_complete}
use interpol.Call.Log.{Logs, run-Logs}
use interpol.Call.Finalize.{IsFaultless, written, finalize_written, finalize_refused}
use interpol.Tests.Builders.{list_builder-IsBuilder}
use interpol.Tests.Json.{cell_json, cell_json-IsSerdeJson}
use interpol.Tests.Data.{
  crates, generous, exhausted, torn_write, no_faults, env, starved, call_of, step_of, steps, blank,
}

pub blank-IsSound : IsSound blank
blank-IsSound = record {
  valid = record { fits = omega arith; bounded = omega arith };
  clean = refl;
}

pub generous-IsGenerous : IsGenerous generous
generous-IsGenerous = record { reserves = λ n. (1, refl); boxes = refl; grows = λ n. (3, refl) }

pub no_faults-IsFaultless : IsFaultless no_faults
no_faults-IsFaultless = record { created = refl; opened = refl; wrote = refl }

steps-Granted : All Granted steps
steps-Granted = (
  (generous-IsGenerous, λ e. cc),
  ((generous-IsGenerous, λ e. cc), ((generous-IsGenerous, λ e. cc), tt)),
)

abbrev two : Vec ℕ
two = record { items = 7 ∷ 8 ∷ []; capacity = 3 }

two-IsValid : IsValid two
two-IsValid = record { fits = omega arith; bounded = omega arith }

register-Registers_example : Registers generous two 9 (register generous two 9)
register-Registers_example = register-Registers generous two 9 two-IsValid

register_first_example : register {A = ℕ} exhausted new_vec 9 ≡ out_of_memory
register_first_example = register_first exhausted 9 refl

register_all_moves_example : (register_all exact two (9 ∷ 10 ∷ 11 ∷ [])).1 ≡ 3
register_all_moves_example =
    register_all_moves two (9 ∷ 10 ∷ 11 ∷ []) two-IsValid (omega arith) (omega arith)

serialize-Serialized_example : Serialized cell_json torn_write (pos 0) blank
serialize-Serialized_example = serialize-Serialized cell_json torn_write (pos 0) blank

dispatch-records_example :
    dispatch crates env (call_of MpiCallType.isend 0 30) blank
    ≡ with_guard
        (lock_message MpiCallType.isend)
        (body crates env
          (call_of MpiCallType.isend 0 30)
          MpiCallType.isend
          (event_of (call_of MpiCallType.isend 0 30)))
        blank
dispatch-records_example =
    dispatch-records crates list_builder-IsBuilder env (call_of MpiCallType.isend 0 30) blank

register_mpi_call-IsSound_example :
    Handled (register_mpi_call crates env (call_of MpiCallType.finalize 0 30) blank)
register_mpi_call-IsSound_example =
    register_mpi_call-IsSound crates list_builder-IsBuilder env (call_of MpiCallType.finalize 0 30)
      cell_json-IsSerdeJson blank blank-IsSound

register_mpi_call-Records_example :
    Records
      (call_of MpiCallType.recv 0 30)
      blank
      (register_mpi_call crates env (call_of MpiCallType.recv 0 30) blank)
register_mpi_call-Records_example =
    register_mpi_call-Records crates list_builder-IsBuilder cell_json-IsSerdeJson env
      (call_of MpiCallType.recv 0 30) (λ e. cc) blank blank-IsSound

run_complete_example :
    (v : Vec Event) × (run crates steps blank ≡ (ret tt, record blank { events = v }))
    × IsValid v
    × (v.items ≡ events_of steps)
run_complete_example =
    run_complete crates list_builder-IsBuilder cell_json-IsSerdeJson steps blank blank-IsSound
      steps-Granted (omega arith)

-- The second call finds no memory, and the file of the finalize is cut short.
abbrev refused_steps : List Step
refused_steps =
    step_of MpiCallType.init 0 10
    ∷ record { env = starved; call = call_of MpiCallType.isend 0 30 }
    ∷ record {
      env = record { memory = generous; files = torn_write };
      call = call_of MpiCallType.finalize 0 90;
    }
    ∷ []

run-Logs_example : Logs (events_of refused_steps) blank (run crates refused_steps blank)
run-Logs_example =
    run-Logs crates list_builder-IsBuilder cell_json-IsSerdeJson refused_steps blank blank-IsSound

finalize_written_example :
    (v : Vec Event) × (t : Text) × (register_mpi_call crates env
        (call_of MpiCallType.finalize 0 90)
        blank
      ≡ (ret tt, written (pos 0) t (record blank { events = v })))
    × (v.items ≡ event_of (call_of MpiCallType.finalize 0 90) ∷ [])
    × (cell_json.from_str t ≡ restore_all cell_json.reparse v.items)
    × IsValid v
    × (cell_json.to_string v.items ≡ some t)
finalize_written_example =
    finalize_written crates list_builder-IsBuilder cell_json-IsSerdeJson env
      (call_of MpiCallType.finalize 0 90) blank blank-IsSound refl generous-IsGenerous
      no_faults-IsFaultless (omega arith)

-- One event, and no room for two more.
abbrev full : Machine
full = record blank {
  events = record { items = event_of (call_of MpiCallType.init 0 10) ∷ []; capacity = 1 };
}

full-IsSound : IsSound full
full-IsSound = record { valid = record { fits = omega arith; bounded = omega arith }; clean = refl }

finalize_refused_example :
    register_mpi_call crates starved (call_of MpiCallType.finalize 0 90) full ≡ (
      ret tt,
      record full { stderr = report (pos 0) (from_try_reserve TryReserveError.alloc_error) ∷ [] },
    )
finalize_refused_example =
    finalize_refused crates list_builder-IsBuilder cell_json-IsSerdeJson starved
      (call_of MpiCallType.finalize 0 90) full full-IsSound refl (omega arith) (omega arith) refl
