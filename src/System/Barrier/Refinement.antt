-- ===== src/System/Barrier/Refinement.antt =====
-- The three moves of a rank are the three calls on the directory that `serialize` makes.
use interpol.Base.{
  subst, ◌≡◌, ◌∙◌, refl, sym, ap, ℕ, ◌<◌, ◌==◌, ==_iff, false, Option, none, some, [], Text, arith,
  Option-cases, inl, inr,
}
use interpol.Error.{IoError}
use interpol.Types.{MpiRank}
use interpol.Json.{SerdeJson}
use interpol.Machine.{Directory, Machine, Ctl, ret}
use interpol.Files.{WriteFaults, entries, put, create_dir_all, open_truncated, write_text}
use interpol.Serialize.{file_name, serialize}
use interpol.System.{fresh}
use interpol.System.Barrier.{
  Pc, starting, created, opened, arrived, Ranks, Finalizing, Step, create, open_file, write,
  release, made, onward,
}

serialize_created :
    (json : SerdeJson) (f : WriteFaults) (rank : MpiRank) (m : Machine) (t : Text) (e : IoError)
    → json.to_string m.events.items ≡ some t
    → f.create_dir ≡ some e
    → (serialize json f rank m).1.traces ≡ m.traces
unfolding serialize create_dir_all
serialize_created json f rank m t e made_text h = ground arith

serialize_opened :
    (json : SerdeJson) (f : WriteFaults) (rank : MpiRank) (m : Machine) (t : Text) (e : IoError)
    → json.to_string m.events.items ≡ some t
    → f.create_dir ≡ none
    → f.open_file ≡ some e
    → (serialize json f rank m).1.traces ≡ some (entries m.traces)
unfolding serialize create_dir_all open_truncated
serialize_opened json f rank m t e made_text h k = ground arith

serialize_wrote :
    (json : SerdeJson) (f : WriteFaults) (rank : MpiRank) (m : Machine) (t : Text)
    → json.to_string m.events.items ≡ some t
    → f.create_dir ≡ none
    → f.open_file ≡ none
    → (serialize json f rank m).1.traces
      ≡ (write_text f
          (file_name rank)
          t
          (fresh (some (put (file_name rank) [] (entries m.traces))))).1.traces
unfolding serialize create_dir_all open_truncated write_text
serialize_wrote json f rank m t made_text h k = ground arith

-- The rank that makes the step.
abbrev pub mover : {ranks : Ranks} {s t : Finalizing} → Step ranks s t → ℕ
mover (create i lt at) = i
mover (open_file i lt at) = i
mover (write i lt at) = i
mover (release i lt at all) = i

-- Some steps, one after the other, each of the rank `i`.
pub data Moves (ranks : Ranks) (i : ℕ) : Finalizing → Finalizing → Type 0 where
  stay : {s : Finalizing} → Moves ranks i s s
  move :
      {s t u : Finalizing} (step : Step ranks s t)
      → mover step ≡ i
      → Moves ranks i t u
      → Moves ranks i s u

module _ (ranks : Ranks) (i : ℕ) (lt : i < ranks.count) where
  -- From `s` moves of the rank `i` lead to a state in which it is in the barrier and the directory
  -- is `o`, while the other ranks stand where they stood.
  abbrev pub CanArrive : Finalizing → Option Directory → Type 0
  CanArrive s o =
      (t : Finalizing) × Moves ranks i s t
      × (t.traces ≡ o)
      × (t.pc i ≡ arrived)
      × ((j : ℕ) → (i == j) ≡ false → t.pc j ≡ s.pc j)

  -- After a move of the rank.
  moved-CanArrive :
      (s : Finalizing) (p : Pc) (r : Ctl (Unit {0}) × Machine) (o : Option Directory)
      (step : Step ranks s (made s i p r))
      → mover step ≡ i
      → CanArrive (made s i p r) o
      → CanArrive s o
  moved-CanArrive s p r o step own (t, moves, e, at, others) =
      (t, move step own moves, e, at, λ j differ. others j differ ∙ ground arith)

  -- The last move.
  last-CanArrive :
      (s : Finalizing) (p : Pc) (r : Ctl (Unit {0}) × Machine) (o : Option Directory)
      (step : Step ranks s (made s i p r))
      → mover step ≡ i
      → onward r.0 p ≡ arrived
      → r.1.traces ≡ o
      → CanArrive s o
  last-CanArrive s p r o step own at e =
      (made s i p r, move step own stay, e, rw ((==_iff i i).1 refl) at, λ j differ. ground arith)

  abbrev name : Text
  name = file_name (ranks.rank i)

  onward-write_text :
      (m : Machine) → onward (write_text (ranks.faults i) name (ranks.text i) m).0 arrived ≡ arrived
  unfolding write_text
  onward-write_text m = ground arith

  write-CanArrive :
      (s : Finalizing)
      → s.pc i ≡ opened
      → CanArrive s (write_text (ranks.faults i) name (ranks.text i) (fresh s.traces)).1.traces
  write-CanArrive s at =
      last-CanArrive s arrived (write_text (ranks.faults i) name (ranks.text i) (fresh s.traces)) _
        (write i lt at) refl (onward-write_text (fresh s.traces)) refl

  -- After the call on the directory that ended as `r`.
  then-CanArrive :
      (s : Finalizing) (p : Pc) (r : Ctl (Unit {0}) × Machine) (o o' : Option Directory)
      (step : Step ranks s (made s i p r))
      → mover step ≡ i
      → r ≡ (ret tt, fresh o')
      → ((s' : Finalizing) → s'.pc i ≡ p → s'.traces ≡ o' → CanArrive s' o)
      → CanArrive s o
  then-CanArrive s p r o o' step own e rest = moved-CanArrive s p r o step own (
      rest (made s i p r) (rw ((==_iff i i).1 refl, ap (λ r. onward r.0 p) e) refl)
        (ap (λ r. r.1.traces) e))

  module _ (json : SerdeJson) (m : Machine)
      (text : json.to_string m.events.items ≡ some (ranks.text i)) where
    abbrev done : Option Directory
    done = (serialize json (ranks.faults i) (ranks.rank i) m).1.traces

    open-CanArrive :
        (ranks.faults i).create_dir ≡ none
        → (s : Finalizing) → s.pc i ≡ created
        → s.traces ≡ some (entries m.traces)
        → CanArrive s done
    unfolding open_truncated
    open-CanArrive fine s at dir = elim (Option-cases (ranks.faults i).open_file) [
      | inr (e, fails) ↦
          last-CanArrive s opened (open_truncated (ranks.faults i) name (fresh s.traces)) done
            (open_file i lt at) refl (ground arith)
            (ground (
              arith,
              serialize_opened json (ranks.faults i) (ranks.rank i) m (ranks.text i) e text fine
                  fails,
            ))
      | inl opens ↦
          then-CanArrive s opened (open_truncated (ranks.faults i) name (fresh s.traces)) done
            (some (put name [] (entries m.traces))) (open_file i lt at) refl (ground arith)
            (λ s' at' dir'.
              subst (CanArrive s')
                (ap (λ o. (write_text (ranks.faults i) name (ranks.text i) (fresh o)).1.traces) dir'
                  ∙ sym (
                      serialize_wrote json (ranks.faults i) (ranks.rank i) m (ranks.text i) text
                        fine opens))
                (write-CanArrive s' at'))
    ]

    -- Whichever calls on the directory fail, as long as the standard output can be written: from
    -- any state in which a rank is about to finalize there is a sequence of steps, each made by
    -- this rank, that brings it to the barrier, leaves the other ranks where they are, and leaves
    -- the directory as `serialize` leaves it, run by a process that has this directory and a vector
    -- whose text is the rank's.
    pub serialize-CanArrive :
        (s : Finalizing) → s.pc i ≡ starting → m.traces ≡ s.traces → CanArrive s done
    unfolding create_dir_all
    serialize-CanArrive s at same = elim (Option-cases (ranks.faults i).create_dir) [
      | inr (e, fails) ↦
          last-CanArrive s created (create_dir_all (ranks.faults i) (fresh s.traces)) done
            (create i lt at) refl (ground arith)
            (ground (
              arith,
              serialize_created json (ranks.faults i) (ranks.rank i) m (ranks.text i) e text fails,
            ))
      | inl fine ↦
          then-CanArrive s created (create_dir_all (ranks.faults i) (fresh s.traces)) done
            (some (entries m.traces)) (create i lt at) refl (ground (arith, same))
            (open-CanArrive fine)
    ]
