-- ===== src/Call/Log.antt =====
-- What the vector holds after a run in which any call of the allocator and of the file system may
-- fail, finalizes included.
use interpol.Base.{◌++◌, ◌≡◌, ◌⊎◌, inl, inr, ◌∙◌, sym, ap, subst, refl, List, [], ◌∷◌, arith}
use mathlib.Core.List.{append_assoc, append-nil}
use interpol.Types.{MpiCallType, MpiRank}
use interpol.Event.{Event}
use interpol.Builder.{IsBuilder}
use interpol.Json.{SerdeJson, IsSerdeJson}
use interpol.Vector.{pushed, refused, overflowed, out_of_memory, Pushed, Memory}
use interpol.Vector.Growth.{Registers, register-Registers}
use interpol.Machine.{Machine, Ctl, ret, fail, panic, abort, M, ◌>>◌}
use interpol.Files.{WriteFaults, create_dir_all, open_truncated, write_text}
use interpol.Register.{landed, append}
use interpol.Serialize.{serialize}
use interpol.Dispatch.{MpiCall, Crates, Environment}
use interpol.Dispatch.Record.{event_of, body}
use interpol.Call.{reported, register_mpi_call}
use interpol.Call.Outcome.{IsSound, Handled, register_mpi_call-IsSound, register_mpi_call-eq}
use interpol.Call.Run.{Step, run, events_of}

-- The first list is the second with some items left out.
pub data Subsequence {A : Type 0} : List A → List A → Type 0 where
  done : Subsequence [] []
  keep : {x : A} {xs ys : List A} → Subsequence xs ys → Subsequence (x ∷ xs) (x ∷ ys)
  skip : {x : A} {xs ys : List A} → Subsequence xs ys → Subsequence xs (x ∷ ys)

-- Serialising leaves the vector alone, however it ends.
pub serialize-events :
    (json : SerdeJson) (faults : WriteFaults) (rank : MpiRank) (s : Machine)
    → (serialize json faults rank s).1.events ≡ s.events
unfolding serialize create_dir_all open_truncated write_text
serialize-events json faults rank s = ground arith

-- A call that does not abort the process adds its event, or nothing.
abbrev pub AddsItems : MpiCall → Machine → Machine → Type 0
AddsItems call s s' =
    (s'.events.items ≡ s.events.items ++ event_of call ∷ []) ⊎ (s'.events.items ≡ s.events.items)

abbrev pub Adds : MpiCall → Machine → Ctl (Unit {0}) × Machine → Type 0
Adds call s (abort, s') = Unit
Adds call s (r, s') = AddsItems call s s'

-- A step that ends with the vector of `t`.
Adds-of_events :
    (call : MpiCall) (s t : Machine) (r : Ctl (Unit {0}) × Machine)
    → r.1.events ≡ t.events
    → AddsItems call s t
    → Adds call s r
Adds-of_events call s t (abort, s') e h = tt
Adds-of_events call s t (ret _, s') e h =
    subst (λ v. (v.items ≡ s.events.items ++ event_of call ∷ []) ⊎ (v.items ≡ s.events.items))
      (sym e) h
Adds-of_events call s t (fail _, s') e h =
    subst (λ v. (v.items ≡ s.events.items ++ event_of call ∷ []) ⊎ (v.items ≡ s.events.items))
      (sym e) h
Adds-of_events call s t (panic _, s') e h =
    subst (λ v. (v.items ≡ s.events.items ++ event_of call ∷ []) ⊎ (v.items ≡ s.events.items))
      (sym e) h

landed-Adds :
    (memory : Memory) (call : MpiCall) (s : Machine) (p : Pushed Event)
    → Registers memory s.events (event_of call) p
    → Adds call s (landed s p)
landed-Adds memory call s (pushed v) h = inl h.1
landed-Adds memory call s (refused e) h = inr refl
landed-Adds memory call s overflowed h = inr refl
landed-Adds memory call s out_of_memory h = tt

-- A further step that leaves the vector alone.
then-Adds :
    (call : MpiCall) (s : Machine) (r : Ctl (Unit {0}) × Machine) (k : M (Unit {0}))
    → ((t : Machine) → (k t).1.events ≡ t.events)
    → Adds call s r
    → Adds call s (((λ (t : Machine). r) >> k) s)
then-Adds call s (ret _, t) k same h = Adds-of_events call s t (k t) (same t) h
then-Adds call s (fail e, t) k same h = h
then-Adds call s (panic p, t) k same h = h
then-Adds call s (abort, t) k same h = h

reported-Adds :
    (call : MpiCall) (s : Machine) (r : Ctl (Unit {0}) × Machine)
    → Adds call s r
    → Adds call s (reported call.current_rank r)
reported-Adds call s (ret _, t) h = h
reported-Adds call s (fail e, t) h = h
reported-Adds call s (panic p, t) h = h
reported-Adds call s (abort, t) h = h

-- What a run has added to the vector when it ends: some of the calls' events, in the order of the
-- calls. It ends by returning, or with the process aborted.
abbrev pub Logs : List Event → Machine → Ctl (Unit {0}) × Machine → Type 0
Logs all s (ret _, s') =
    (kept : List Event) × Subsequence kept all × (s'.events.items ≡ s.events.items ++ kept)
Logs all s (abort, s') = Unit
Logs all s (r, s') = ⊥

-- One call more in front.
Logs-cons :
    (call : MpiCall) (all : List Event) (s t : Machine) (r : Ctl (Unit {0}) × Machine)
    → AddsItems call s t
    → Logs all t r
    → Logs (event_of call ∷ all) s r
Logs-cons call all s t (abort, s') added logs = tt
Logs-cons call all s t (ret _, s') (inl e) (kept, sub, items) = (
  event_of call ∷ kept,
  keep sub,
  items ∙ ap (λ l. l ++ kept) e ∙ append_assoc s.events.items (event_of call ∷ []) kept,
)
Logs-cons call all s t (ret _, s') (inr e) (kept, sub, items) =
    (kept, skip sub, items ∙ ap (λ l. l ++ kept) e)
Logs-cons call all s t (fail _, s') added logs = logs
Logs-cons call all s t (panic _, s') added logs = logs

then-Logs :
    (call : MpiCall) (all : List Event) (s : Machine) (r : Ctl (Unit {0}) × Machine)
    (k : M (Unit {0}))
    → ((t : Machine) → IsSound t → Logs all t (k t))
    → Handled r
    → Adds call s r
    → Logs (event_of call ∷ all) s (((λ (t : Machine). r) >> k) s)
then-Logs call all s (ret _, t) k next h added = Logs-cons call all s t (k t) added (next t h)
then-Logs call all s (fail _, t) k next h added = h
then-Logs call all s (panic _, t) k next h added = h
then-Logs call all s (abort, t) k next h added = tt

module _ (crates : Crates) (law : IsBuilder crates.builder) (json : IsSerdeJson crates.json) where
  body-Adds :
      (env : Environment) (call : MpiCall) (kind : MpiCallType) (s : Machine)
      → IsSound s
      → Adds call s (body crates env call kind (event_of call) s)
  unfolding append
  body-Adds env call MpiCallType.finalize s h =
      then-Adds call s (append env.memory (event_of call) s)
        (serialize crates.json env.files call.current_rank)
        (serialize-events crates.json env.files call.current_rank)
        (landed-Adds env.memory call s _
          (register-Registers env.memory s.events (event_of call) h.valid))
  body-Adds env call kind s h =
      landed-Adds env.memory call s _
        (register-Registers env.memory s.events (event_of call) h.valid)

  pub register_mpi_call-Adds :
      (step : Step) (s : Machine)
      → IsSound s
      → Adds step.call s (register_mpi_call crates step.env step.call s)
  register_mpi_call-Adds step s h =
      rw (register_mpi_call-eq crates law step.env step.call json s h)
        (reported-Adds step.call s _ (body-Adds step.env step.call step.call.kind s h))

  -- Given the documented behaviour of derive_builder and serde_json, and as long as the standard
  -- streams can be written: a run of any calls from a sound state returns or is aborted, whichever
  -- calls of the allocator and of the file system fail; if it returns, the vector has got events of
  -- its calls in their order, each call's at most once.
  pub run-Logs :
      (steps : List Step) (s : Machine) → IsSound s → Logs (events_of steps) s (run crates steps s)
  unfolding run
  run-Logs [] s h = ([], done, sym (append-nil s.events.items))
  run-Logs (step ∷ steps) s h =
      then-Logs step.call (events_of steps) s (register_mpi_call crates step.env step.call s)
        (run crates steps) (run-Logs steps)
        (register_mpi_call-IsSound crates law step.env step.call json s h)
        (register_mpi_call-Adds step s h)
