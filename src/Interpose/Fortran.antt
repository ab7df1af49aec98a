-- ===== src/Interpose/Fortran.antt =====
-- src/interpol-f.c: the interposed functions of the Fortran bindings. All arguments are references;
-- the code is that of the branch for an MPI-2 library, where handles are converted by `f2c`.
-- The entry points in other spellings (`MPI_SEND`, `mpi_send_`, ..) only call these functions.
pub mod Agreement
pub mod Management
pub mod PointToPoint
pub mod Synchronization
pub mod Collectives
pub mod Effects
pub mod Finished
use interpol.Base.{ℕ}
use interpol.Types.{I32}
use interpol.Interpose.{Mpi}

-- An argument of type `MPI_Fint*`: the address that is passed, and the value that stands there.
pub record Ref : Type 0 where
  pub address : ℕ
  pub value : I32

-- The conversions of the MPI library, and what a cast makes of an address: `(MPI_Comm)comm` and
-- `(MPI_Op)op` in the code take the address of the argument for a handle.
pub record Handles (mpi : Mpi) : Type 0 where
  pub type_f2c : I32 → mpi.Datatype
  pub request_f2c : I32 → mpi.Request
  pub comm_at : ℕ → mpi.Comm
  pub op_at : ℕ → mpi.Op
