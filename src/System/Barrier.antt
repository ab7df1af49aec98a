-- ===== src/System/Barrier.antt =====
-- The finalizes of the ranks at once. `MPI_Finalize` (src/interpol-c.c) registers the call, which
-- ends in `serialize` (interpol-rs/src/interpol.rs), then waits in `PMPI_Barrier`; only after that
-- rank 0 merges. The calls of `serialize` on the shared directory interleave in any order.
pub mod Contents
pub mod Invariant
pub mod Listed
pub mod Merge
pub mod Order
pub mod Refinement
use interpol.Base.{update, ℕ, ◌<◌, ◌≡◌, Bool, true, false, Option, Text}
use interpol.Types.{MpiRank}
use interpol.Machine.{Directory, Machine, Ctl, ret, fail, panic, abort}
use interpol.Files.{WriteFaults, create_dir_all, open_truncated, write_text}
use interpol.Serialize.{file_name}
use interpol.System.{fresh}

-- Where a rank stands in its finalize.
pub data Pc : Type 0 where
  starting created opened : Pc  -- before the three calls on the directory
  arrived : Pc  -- it waits in the barrier
  released : Pc  -- it has left it

-- What the ranks bring to their finalizes: their numbers, the texts of their vectors, and the
-- failures on the disk.
pub record Ranks : Type 0 where
  pub count : ℕ
  pub rank : ℕ → MpiRank
  pub text : ℕ → Text
  pub faults : ℕ → WriteFaults

pub record Finalizing : Type 0 where
  pub traces : Option Directory
  pub pc : ℕ → Pc

-- After a call that fails, `serialize` returns, and the rank goes on to the barrier.
abbrev pub onward : Ctl (Unit {0}) → Pc → Pc
onward (ret _) p = p
onward r p = arrived

-- The state after a rank has made a call on the directory.
abbrev pub made : Finalizing → ℕ → Pc → Ctl (Unit {0}) × Machine → Finalizing
made s i p r = record { traces = r.1.traces; pc = update s.pc i (onward r.0 p) }

abbrev pub has_arrived : Pc → Bool
has_arrived arrived = true
has_arrived released = true
has_arrived p = false

-- `PMPI_Barrier` is left by no rank before every rank has come to it.
pub data Step (ranks : Ranks) (s : Finalizing) : Finalizing → Type 0 where
  create :
      (i : ℕ)
      → i < ranks.count
      → s.pc i ≡ starting
      → Step ranks s (made s i created (create_dir_all (ranks.faults i) (fresh s.traces)))
  open_file :
      (i : ℕ)
      → i < ranks.count
      → s.pc i ≡ created
      → Step ranks s (
          made s i opened
            (open_truncated (ranks.faults i) (file_name (ranks.rank i)) (fresh s.traces)))
  write :
      (i : ℕ)
      → i < ranks.count
      → s.pc i ≡ opened
      → Step ranks s (
          made s i arrived (
            write_text (ranks.faults i) (file_name (ranks.rank i)) (ranks.text i) (fresh s.traces)))
  release :
      (i : ℕ)
      → i < ranks.count
      → s.pc i ≡ arrived
      → ((j : ℕ) → j < ranks.count → has_arrived (s.pc j) ≡ true)
      → Step ranks s (record s { pc = update s.pc i released })

abbrev pub at_start : Option Directory → Finalizing
at_start dir = record { traces = dir; pc = λ i. starting }

pub data Reach (ranks : Ranks) (dir : Option Directory) : Finalizing → Type 0 where
  here : Reach ranks dir (at_start dir)
  next : {s t : Finalizing} → Reach ranks dir s → Step ranks s t → Reach ranks dir t
