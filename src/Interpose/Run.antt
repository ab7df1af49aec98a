-- ===== src/Interpose/Run.antt =====
-- A C program between `MPI_Init` and `MPI_Finalize`, traced.
use interpol.Base.{
  ◌≡◌, ◌∙◌, sym, ap, refl, suc, subst, ◌+◌, ◌*◌, ◌≤◌, ◌++◌, ◌⊎◌, inl, inr, List, [], ◌∷◌, All,
  length, length-append, arith,
}
use mathlib.Core.List.{append_assoc, append-nil}
use interpol.Types.{I32, MpiRank}
use interpol.Event.{Event}
use interpol.Builder.{IsBuilder}
use interpol.Json.{IsSerdeJson}
use interpol.Vector.{Vec, max_capacity, IsValid}
use interpol.Vector.Generous.{IsGenerous}
use interpol.Machine.{Machine, Ctl, ret, fail, panic, abort}
use interpol.Call.{register_mpi_call}
use interpol.Call.Outcome.{IsSound, Handled, register_mpi_call-IsSound}
use interpol.Call.Run.{Step, register_mpi_call_complete}
use interpol.Call.Log.{Subsequence, done, keep, skip, Adds, register_mpi_call-Adds}
use interpol.Interpose.{Library, Reply, received, Process, ◌>>=◌, ◌>>◌, >>=-eq-of_ret, pure}
use interpol.Interpose.Program.{
  Call, raw_of, interposed, recorded, rank_from, run_calls, codes_of, recorded_all, rank_after,
}
use interpol.Interpose.Program.Recorded.{interposed-eq, raw_of-ne-finalize, event_of-raw_of}

-- A call during which the allocator refuses nothing.
abbrev pub Served : (lib : Library) → Call lib.mpi × Reply lib.mpi → Type 0
Served lib c = IsGenerous c.1.env.memory

-- The vector of a process.
abbrev pub items_of : Process → List Event
items_of p = p.machine.events.items

pub length-recorded_all :
    (lib : Library) (calls : List (Call lib.mpi × Reply lib.mpi)) (rank : MpiRank)
    → length (recorded_all lib calls rank) ≡ length calls
length-recorded_all lib [] rank = refl
length-recorded_all lib ((call, a) ∷ calls) rank =
    ap suc (length-recorded_all lib calls (rank_from lib call a rank))

module _ (lib : Library) where
  abbrev step_of : Call lib.mpi → Reply lib.mpi → Process → Step
  step_of call a p = record {
    env = a.env;
    call = received lib.reads (raw_of lib call a (rank_from lib call a p.current_rank));
  }

  -- The process after a call that returned.
  abbrev pub after : Call lib.mpi → Reply lib.mpi → Process → Machine → Process
  after call a p m = record { current_rank = rank_from lib call a p.current_rank; machine = m }

  -- What a wrapper makes of the ending of `register_mpi_call`.
  abbrev returned :
      Call lib.mpi → Reply lib.mpi → Process → Ctl (Unit {0}) × Machine → Ctl I32 × Process
  returned call a p (ret _, m) = (ret a.ret, after call a p m)
  returned call a p (fail e, m) = (fail e, after call a p m)
  returned call a p (panic message, m) = (panic message, after call a p m)
  returned call a p (abort, m) = (abort, after call a p m)

  returned-eq :
      (call : Call lib.mpi) (a : Reply lib.mpi) (p : Process) (r : Ctl (Unit {0}) × Machine)
      → ((λ (q : Process). (r.0, record q { machine = r.1 })) >> pure a.ret)
          (after call a p p.machine)
        ≡ returned call a p r
  returned-eq call a p (ret _, m) = refl
  returned-eq call a p (fail e, m) = refl
  returned-eq call a p (panic message, m) = refl
  returned-eq call a p (abort, m) = refl

  interposed-returned :
      (call : Call lib.mpi) (a : Reply lib.mpi) (p : Process)
      → interposed lib call a p
        ≡ returned call a p (register_mpi_call lib.crates a.env (step_of call a p).call p.machine)
  interposed-returned call a p =
      interposed-eq lib call a p
      ∙ returned-eq call a p (register_mpi_call lib.crates a.env (step_of call a p).call p.machine)

  -- How a run of calls ends: with the codes of the PMPI functions, or with the process aborted.
  abbrev pub Answers :
      List (Call lib.mpi × Reply lib.mpi) → Process → Ctl (List I32) × Process → Type 0
  Answers calls p (ret codes, p') =
      (codes ≡ codes_of lib calls)
      × (p'.current_rank ≡ rank_after lib calls p.current_rank)
      × IsSound p'.machine
      × ((kept : List Event) × Subsequence kept (recorded_all lib calls p.current_rank)
          × (items_of p' ≡ items_of p ++ kept))
  Answers calls p (abort, p') = Unit
  Answers calls p (r, p') = ⊥

  Answers-cons :
      (call : Call lib.mpi) (a : Reply lib.mpi) (calls : List (Call lib.mpi × Reply lib.mpi))
      (p : Process) (m : Machine)
      → (m.events.items
          ≡ items_of p ++ recorded lib call a (rank_from lib call a p.current_rank) ∷ [])
        ⊎ (m.events.items ≡ items_of p)
      → (r : Ctl (List I32) × Process) → Answers calls (after call a p m) r
      → Answers ((call, a) ∷ calls) p (((λ (q : Process). r) >>= λ codes. pure (a.ret ∷ codes)) p)
  Answers-cons call a calls p m (inl e) (ret codes, p') (same, rank, sound, (kept, sub, items)) = (
    ap (λ l. a.ret ∷ l) same,
    rank,
    sound,
    (
      recorded lib call a (rank_from lib call a p.current_rank) ∷ kept,
      keep sub,
      items
          ∙ ap (λ l. l ++ kept) e
          ∙ append_assoc (items_of p)
              (recorded lib call a (rank_from lib call a p.current_rank) ∷ []) kept,
    ),
  )
  Answers-cons call a calls p m (inr e) (ret codes, p') (same, rank, sound, (kept, sub, items)) =
      (ap (λ l. a.ret ∷ l) same, rank, sound, (kept, skip sub, items ∙ ap (λ l. l ++ kept) e))
  Answers-cons call a calls p m added (fail e, p') h = h
  Answers-cons call a calls p m added (panic e, p') h = h
  Answers-cons call a calls p m added (abort, p') h = h

module _ (lib : Library) (law : IsBuilder lib.crates.builder)
    (json : IsSerdeJson lib.crates.json) where
  -- One call.
  pub interposed_complete :
      (call : Call lib.mpi) (a : Reply lib.mpi) (p : Process)
      → IsSound p.machine
      → IsGenerous a.env.memory
      → 3 * length (items_of p) ≤ max_capacity
      → (v : Vec Event) × (interposed lib call a p
          ≡ (ret a.ret, after lib call a p (record p.machine { events = v })))
        × IsValid v
        × (v.items ≡ items_of p ++ recorded lib call a (rank_from lib call a p.current_rank) ∷ [])
  interposed_complete call a p h memory room =
      let step = step_of lib call a p in
      let rank = rank_from lib call a p.current_rank in
      let (v, e, valid, items) =
        register_mpi_call_complete lib.crates law json step p.machine h
          (memory, raw_of-ne-finalize lib call a rank) room in
      (
        v,
        interposed-returned lib call a p ∙ ap (returned lib call a p) e,
        valid,
        items ∙ ap (λ x. items_of p ++ x ∷ []) (event_of-raw_of lib call a rank),
      )

  -- Given the documented behaviour of derive_builder and serde_json: from a sound state, while the
  -- allocator refuses nothing and there is room, a program that calls the interposed C functions,
  -- none of them `MPI_Finalize`, gets from each what the PMPI function returned; afterwards the
  -- vector is valid and has got, in the order of the calls, the event that each call's arguments
  -- describe, with the rank that the last initialisation before it found; nothing else has changed
  -- but the rank.
  pub run_calls_complete :
      (calls : List (Call lib.mpi × Reply lib.mpi)) (p : Process)
      → IsSound p.machine
      → All (Served lib) calls
      → 3 * (length (items_of p) + length calls) ≤ max_capacity
      → (v : Vec Event) × (run_calls lib calls p ≡ (
        ret (codes_of lib calls),
        record {
          current_rank = rank_after lib calls p.current_rank;
          machine = record p.machine { events = v };
        },
      ))
        × IsValid v
        × (v.items ≡ items_of p ++ recorded_all lib calls p.current_rank)
  unfolding run_calls
  run_calls_complete [] p h served room =
      (p.machine.events, refl, h.valid, sym (append-nil (items_of p)))
  run_calls_complete ((call, a) ∷ calls) p h served room =
      let (v, e, valid, items) = interposed_complete call a p h served.0 (omega arith) in
      let next = after lib call a p (record p.machine { events = v }) in
      let (w, rest, ends, all) =
        run_calls_complete calls next (record { valid = valid; clean = h.clean }) served.1
          (omega (
            arith,
            ap length items,
            length-append (items_of p)
                (recorded lib call a (rank_from lib call a p.current_rank) ∷ []),
          )) in
      (
        w,
        >>=-eq-of_ret (interposed lib call a)
              (λ code. run_calls lib calls >>= λ codes. pure (code ∷ codes)) e
            ∙ >>=-eq-of_ret (run_calls lib calls) (λ codes. pure (a.ret ∷ codes)) rest,
        ends,
        all
            ∙ ap (λ l. l ++ recorded_all lib calls next.current_rank) items
            ∙ append_assoc (items_of p) (recorded lib call a next.current_rank ∷ [])
                (recorded_all lib calls next.current_rank),
      )

  -- The rest of a run, after its first call.
  then-Answers :
      (call : Call lib.mpi) (a : Reply lib.mpi) (calls : List (Call lib.mpi × Reply lib.mpi))
      (p : Process) (r : Ctl (Unit {0}) × Machine)
      → Handled r
      → Adds (step_of lib call a p).call p.machine r
      → ((q : Process) → IsSound q.machine → Answers lib calls q (run_calls lib calls q))
      → Answers lib ((call, a) ∷ calls) p (
          ((λ (q : Process). returned lib call a p r) >>= λ code.
          run_calls lib calls >>= λ codes. pure (code ∷ codes))
            p)
  then-Answers call a calls p (ret _, m) sound added next =
      Answers-cons lib call a calls p m
        (subst (λ x. (m.events.items ≡ items_of p ++ x ∷ []) ⊎ (m.events.items ≡ items_of p))
          (event_of-raw_of lib call a (rank_from lib call a p.current_rank)) added)
        (run_calls lib calls (after lib call a p m)) (next (after lib call a p m) sound)
  then-Answers call a calls p (fail e, m) sound added next = sound
  then-Answers call a calls p (panic e, m) sound added next = sound
  then-Answers call a calls p (abort, m) sound added next = tt

  -- Given the documented behaviour of derive_builder and serde_json, and as long as the standard
  -- streams can be written: whichever calls of the allocator and on the directory fail, a program
  -- that calls the interposed C functions, none of them `MPI_Finalize`, from a sound state, either
  -- is aborted, or gets from each what the PMPI function returned; then it has the rank of the last
  -- initialisation and is sound, and its vector has got events that its calls describe, in their
  -- order, each call's at most once.
  pub run_calls-Answers :
      (calls : List (Call lib.mpi × Reply lib.mpi)) (p : Process)
      → IsSound p.machine
      → Answers lib calls p (run_calls lib calls p)
  unfolding run_calls
  run_calls-Answers [] p h = (refl, refl, h, ([], done, sym (append-nil (items_of p))))
  run_calls-Answers ((call, a) ∷ calls) p h =
      subst
        (λ r. Answers lib ((call, a) ∷ calls) p (
          ((λ (q : Process). r) >>= λ code. run_calls lib calls >>= λ codes. pure (code ∷ codes))
            p))
        (sym (interposed-returned lib call a p))
        (then-Answers call a calls p
          (register_mpi_call lib.crates a.env (step_of lib call a p).call p.machine)
          (register_mpi_call-IsSound lib.crates law a.env (step_of lib call a p).call json p.machine
            h)
          (register_mpi_call-Adds lib.crates law json (step_of lib call a p) p.machine h)
          (run_calls-Answers calls))
