-- ===== src/Call.antt =====
-- `register_mpi_call` of interpol-rs/src/interpol.rs, the entry point of the C side: an error of
-- the dispatch ends as a line on the standard error.
pub mod Finalize
pub mod Log
pub mod Outcome
pub mod Recording
pub mod Run
use interpol.Base.{◌++◌, Text, codes}
use interpol.Base.Int.{show_int}
use interpol.Types.{MpiRank}
use interpol.Error.{InterpolError, show_error}
use interpol.Machine.{Machine, Ctl, ret, fail, panic, abort, M, eprintln}
use interpol.Dispatch.{MpiCall, Crates, Environment, dispatch}

-- `Rank {}: {e}`
abbrev pub report : MpiRank → InterpolError → Text
report rank e = codes "Rank " ++ show_int rank ++ codes ": " ++ show_error e

abbrev pub reported : MpiRank → Ctl (Unit {0}) × Machine → Ctl (Unit {0}) × Machine
reported rank (ret _, s) = (ret tt, s)
reported rank (fail e, s) = eprintln (report rank e) s
reported rank (panic p, s) = (panic p, s)
reported rank (abort, s) = (abort, s)

unfoldable pub register_mpi_call : Crates → Environment → MpiCall → M (Unit {0})
register_mpi_call crates env call s = reported call.current_rank (dispatch crates env call s)
