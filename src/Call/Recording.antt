-- ===== src/Call/Recording.antt =====
-- What a call other than a finalize records.
use interpol.Base.{◌++◌, ◌≡◌, ◌≢◌, ◌⊎◌, inl, inr, refl, [], ◌∷◌}
use interpol.Types.{MpiCallType}
use interpol.Error.{TryReserveError, from_try_reserve}
use interpol.Event.{Event}
use interpol.Builder.{IsBuilder}
use interpol.Json.{IsSerdeJson}
use interpol.Vector.{Memory, Pushed, pushed, refused, overflowed, out_of_memory}
use interpol.Vector.Growth.{Registers, register-Registers}
use interpol.Machine.{Machine, Ctl, ret, fail, panic, abort}
use interpol.Register.{landed, append}
use interpol.Dispatch.{MpiCall, Crates, Environment}
use interpol.Dispatch.Record.{event_of, body}
use interpol.Call.{report, reported, register_mpi_call}
use interpol.Call.Outcome.{IsSound, register_mpi_call-eq}

-- The call's event is appended and nothing else changes but the vector's capacity, or a line is
-- written to the standard error and nothing else changes.
abbrev pub Records : MpiCall → Machine → Ctl (Unit {0}) × Machine → Type 0
Records call s (ret _, s') =
    ((s'.events.items ≡ s.events.items ++ event_of call ∷ [])
      × (s' ≡ record s { events = s'.events }))
    ⊎ ((e : TryReserveError) × (s'
          ≡ record s { stderr = s.stderr ++ report call.current_rank (from_try_reserve e) ∷ [] }))
Records call s (fail e, s') = ⊥
Records call s (panic p, s') = ⊥
Records call s (abort, s') = Unit

landed-Records :
    (memory : Memory) (call : MpiCall) (s : Machine) (p : Pushed Event)
    → Registers memory s.events (event_of call) p
    → Records call s (reported call.current_rank (landed s p))
landed-Records memory call s (pushed v) h = inl (h.1, refl)
landed-Records memory call s (refused error) h = inr (error, refl)
landed-Records memory call s overflowed h = absurd h
landed-Records memory call s out_of_memory h = tt

module _ (crates : Crates) (law : IsBuilder crates.builder) (json : IsSerdeJson crates.json)
    (env : Environment) (call : MpiCall) where
  body-Records :
      (kind : MpiCallType)
      → kind ≢ MpiCallType.finalize
      → (s : Machine) → IsSound s
      → Records call s (reported call.current_rank (body crates env call kind (event_of call) s))
  unfolding append
  body-Records MpiCallType.finalize other s h = absurd (other refl)
  body-Records kind other s h =
      landed-Records env.memory call s _
        (register-Registers env.memory s.events (event_of call) h.valid)

  -- Given the documented behaviour of derive_builder and serde_json: a call other than a finalize,
  -- made from a sound state, returns or aborts the process. If it returns, either its event, with
  -- the call's values, has become the last one and nothing else has changed but the vector's
  -- capacity, or the only change is one line on the standard error, with the rank and an allocation
  -- error.
  pub register_mpi_call-Records :
      call.kind ≢ MpiCallType.finalize
      → (s : Machine) → IsSound s
      → Records call s (register_mpi_call crates env call s)
  register_mpi_call-Records other s h =
      rw (register_mpi_call-eq crates law env call json s h) (body-Records call.kind other s h)
