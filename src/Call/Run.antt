-- ===== src/Call/Run.antt =====
-- A process that makes one call after the other: what its vector holds at the end.
use interpol.Base.{
  sym, ◌+◌, ◌*◌, ◌≤◌, ◌++◌, ◌≡◌, ◌≢◌, ◌∙◌, ap, refl, List, [], ◌∷◌, arith, length, length-append,
  All,
}
use mathlib.Core.List.{append_assoc, append-nil}
use interpol.Types.{MpiCallType}
use interpol.Event.{Event}
use interpol.Builder.{IsBuilder}
use interpol.Json.{IsSerdeJson}
use interpol.Vector.{Vec, max_capacity, IsValid}
use interpol.Vector.Generous.{IsGenerous, register-IsGenerous}
use interpol.Machine.{Machine, Ctl, ret, fail, panic, abort, M, ◌>>◌, pure, >>=-eq-of_ret}
use interpol.Register.{landed, append}
use interpol.Dispatch.{MpiCall, Crates, Environment}
use interpol.Dispatch.Record.{event_of, body}
use interpol.Call.{reported, register_mpi_call}
use interpol.Call.Outcome.{IsSound, Handled, register_mpi_call-IsSound, register_mpi_call-eq}

-- A call with what the environment answers during it.
pub record Step : Type 0 where
  pub env : Environment
  pub call : MpiCall

-- The calls of a process in their order; it ends early only if it is aborted.
unfoldable pub run : Crates → List Step → M (Unit {0})
run crates [] = pure tt
run crates (step ∷ steps) = register_mpi_call crates step.env step.call >> run crates steps

abbrev pub events_of : List Step → List Event
events_of [] = []
events_of (step ∷ steps) = event_of step.call ∷ events_of steps

-- A call for which the allocator refuses nothing, and which is no finalize.
abbrev pub Granted : Step → Type 0
Granted step = IsGenerous step.env.memory × (step.call.kind ≢ MpiCallType.finalize)

module _ (crates : Crates) (law : IsBuilder crates.builder) (json : IsSerdeJson crates.json) where
  after-Handled :
      (r : Ctl (Unit {0}) × Machine) (k : M (Unit {0}))
      → Handled r
      → ((s : Machine) → IsSound s → Handled (k s))
      → Handled (((λ (s : Machine). r) >> k) r.1)
  after-Handled (ret _, s) k h next = next s h
  after-Handled (fail e, s) k h next = h
  after-Handled (panic p, s) k h next = h
  after-Handled (abort, s) k h next = h

  -- Given the documented behaviour of derive_builder and serde_json: whatever calls are made and
  -- whatever the environment answers, a process that starts sound never panics in a call and never
  -- gets an error from one, and ends sound unless it is aborted.
  pub run-IsSound : (steps : List Step) (s : Machine) → IsSound s → Handled (run crates steps s)
  unfolding run
  run-IsSound [] s h = h
  run-IsSound (step ∷ steps) s h =
      after-Handled (register_mpi_call crates step.env step.call s) (run crates steps)
        (register_mpi_call-IsSound crates law step.env step.call json s h) (run-IsSound steps)

  body-IsGenerous :
      (step : Step) (kind : MpiCallType)
      → kind ≢ MpiCallType.finalize
      → IsGenerous step.env.memory
      → (s : Machine) → IsSound s
      → 3 * length s.events.items ≤ max_capacity
      → (v : Vec Event) × (reported step.call.current_rank
            (body crates step.env step.call kind (event_of step.call) s)
          ≡ (ret tt, record s { events = v }))
        × IsValid v
        × (v.items ≡ s.events.items ++ event_of step.call ∷ [])
  unfolding append
  body-IsGenerous step MpiCallType.finalize other g s h room = absurd (other refl)
  body-IsGenerous step kind other g s h room =
      let (v, e, facts) =
        register-IsGenerous step.env.memory g s.events (event_of step.call) h.valid room in
      (v, ap (λ p. reported step.call.current_rank (landed s p)) e, facts.0, facts.1)

  -- One call for which the allocator refuses nothing, and which is no finalize.
  pub register_mpi_call_complete :
      (step : Step) (s : Machine)
      → IsSound s
      → Granted step
      → 3 * length s.events.items ≤ max_capacity
      → (v : Vec Event) × (register_mpi_call crates step.env step.call s
          ≡ (ret tt, record s { events = v }))
        × IsValid v
        × (v.items ≡ s.events.items ++ event_of step.call ∷ [])
  register_mpi_call_complete step s h granted room =
      let (v, e, valid, items) = body-IsGenerous step step.call.kind granted.1 granted.0 s h room in
      (v, register_mpi_call-eq crates law step.env step.call json s h ∙ e, valid, items)

  -- Given the documented behaviour of derive_builder and serde_json: from a sound state, while the
  -- allocator refuses nothing and there is room, a run of calls that are no finalizes returns, the
  -- vector has then got exactly the calls' events, in the order of the calls, and is valid, and
  -- nothing but the vector has changed.
  pub run_complete :
      (steps : List Step) (s : Machine)
      → IsSound s
      → All Granted steps
      → 3 * (length s.events.items + length steps) ≤ max_capacity
      → (v : Vec Event) × (run crates steps s ≡ (ret tt, record s { events = v }))
        × IsValid v
        × (v.items ≡ s.events.items ++ events_of steps)
  unfolding run
  run_complete [] s h granted room = (s.events, refl, h.valid, sym (append-nil s.events.items))
  run_complete (step ∷ steps) s h granted room =
      let (v, e, valid, items) = register_mpi_call_complete step s h granted.0 (omega arith) in
      let next = record s { events = v } in
      let (w, rest, ends, all) =
        run_complete steps next (record { valid = valid; clean = h.clean }) granted.1
          (omega
            (arith, ap length items, length-append s.events.items (event_of step.call ∷ []))) in
      (
        w,
        >>=-eq-of_ret (register_mpi_call crates step.env step.call) (λ _. run crates steps) e
            ∙ rest,
        ends,
        all
            ∙ ap (λ l. l ++ events_of steps) items
            ∙ append_assoc s.events.items (event_of step.call ∷ []) (events_of steps),
      )
