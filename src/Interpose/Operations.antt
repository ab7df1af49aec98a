-- ===== src/Interpose/Operations.antt =====
-- The `MpiOp` that the interposed functions send to Rust.
use mathlib.Core.Option
use interpol.Base.{◌≡◌, ◌∙◌, ap, refl, ℕ, ◌==◌, Bool, false, Option, none, some}
use interpol.Base.Int.{negsuc}
use interpol.Types.{MpiOp, MpiRank}
use interpol.Types.Repr.{mpi_op_of, mpi_op_repr}
use interpol.Interpose.{Mpi, Predefined, Library, Reply}
use interpol.Interpose.C.Management.{init_call, init_thread_call}
use interpol.Interpose.C.PointToPoint.{send_call, recv_call, isend_call, irecv_call}
use interpol.Interpose.C.Synchronization.{barrier_call, ibarrier_call, test_call, wait_call}
use interpol.Interpose.C.Collectives.{
  op_type_of, ibcast_call, igather_call, iscatter_call, ireduce_call,
}
use interpol.Interpose.Program.{Call, raw_of}

abbrev number : Predefined → ℕ
number Predefined.mpi_max = 0
number Predefined.mpi_min = 1
number Predefined.mpi_sum = 2
number Predefined.mpi_prod = 3
number Predefined.mpi_land = 4
number Predefined.mpi_band = 5
number Predefined.mpi_lor = 6
number Predefined.mpi_bor = 7
number Predefined.mpi_lxor = 8
number Predefined.mpi_bxor = 9
number Predefined.mpi_maxloc = 10
number Predefined.mpi_minloc = 11
number Predefined.mpi_replace = 12
number Predefined.mpi_op_null = 13
number Predefined.mpi_no_op = 14

abbrev pub same : Predefined → Predefined → Bool
same p q = number p == number q

-- The predefined operations of an MPI library are different handles.
pub record HasPredefined (mpi : Mpi) : Type 0 where
  pub handle : Predefined → mpi.Op
  pub is_op-handle : (p q : Predefined) → mpi.is_op (handle p) q ≡ same p q

-- The variant of `MpiOp` with an operation's name; there is one for both operations that do nothing.
abbrev pub named : Predefined → MpiOp
named Predefined.mpi_max = MpiOp.max
named Predefined.mpi_min = MpiOp.min
named Predefined.mpi_sum = MpiOp.sum
named Predefined.mpi_prod = MpiOp.prod
named Predefined.mpi_land = MpiOp.land
named Predefined.mpi_band = MpiOp.band
named Predefined.mpi_lor = MpiOp.lor
named Predefined.mpi_bor = MpiOp.bor
named Predefined.mpi_lxor = MpiOp.lxor
named Predefined.mpi_bxor = MpiOp.bxor
named Predefined.mpi_maxloc = MpiOp.maxloc
named Predefined.mpi_minloc = MpiOp.minloc
named Predefined.mpi_replace = MpiOp.replace
named Predefined.mpi_op_null = MpiOp.opnull
named Predefined.mpi_no_op = MpiOp.opnull

-- A predefined operation arrives as the variant with its name.
mpi_op_of-op_type_of :
    (mpi : Mpi) (law : HasPredefined mpi) (p : Predefined)
    → mpi_op_of (op_type_of mpi (law.handle p)) ≡ some (named p)
unfolding op_type_of mpi_op_repr mpi_op_of
mpi_op_of-op_type_of mpi law Predefined.mpi_max = simp (law.is_op-handle)
mpi_op_of-op_type_of mpi law p = simp (law.is_op-handle)

-- An operation of the program's own.
op_type_of_other :
    (mpi : Mpi) (op : mpi.Op)
    → ((p : Predefined) → mpi.is_op op p ≡ false)
    → op_type_of mpi op ≡ negsuc 0
unfolding op_type_of
op_type_of_other mpi op none_of = simp (none_of)

-- The predefined operation that a call asks for, if it asks for one.
abbrev pub AsksFor : (mpi : Mpi) → HasPredefined mpi → Call mpi → Option Predefined → Type 0
AsksFor mpi law (Call.ireduce n t op root c) (some p) = op ≡ law.handle p
AsksFor mpi law (Call.ireduce n t op root c) none = (p : Predefined) → mpi.is_op op p ≡ false
AsksFor mpi law call (some p) = ⊥
AsksFor mpi law call none = Unit

-- If the predefined operations of the MPI library are different handles: the `MpiOp` that a C
-- function passes to Rust is the variant with the operation's name for an `MPI_Ireduce` with a
-- predefined operation, where `MPI_OP_NULL` and `MPI_NO_OP` have the same variant, and is no valid
-- `MpiOp` for an `MPI_Ireduce` with any other operation, and for each of the other thirteen
-- functions.
pub raw_of-op_type :
    (lib : Library) (law : HasPredefined lib.mpi) (call : Call lib.mpi) (o : Option Predefined)
    → AsksFor lib.mpi law call o
    → (a : Reply lib.mpi) (rank : MpiRank)
    → mpi_op_of ((raw_of lib call a rank).op_type) ≡ Option.map named o
unfolding raw_of mpi_op_of init_call init_thread_call send_call recv_call isend_call irecv_call
    barrier_call ibarrier_call test_call wait_call ibcast_call igather_call iscatter_call
    ireduce_call
raw_of-op_type lib law Call.init none asks a rank = refl
raw_of-op_type lib law Call.init (some p) asks a rank = absurd asks
raw_of-op_type lib law (Call.init_thread n) none asks a rank = refl
raw_of-op_type lib law (Call.init_thread n) (some p) asks a rank = absurd asks
raw_of-op_type lib law (Call.send n t d tag c) none asks a rank = refl
raw_of-op_type lib law (Call.send n t d tag c) (some p) asks a rank = absurd asks
raw_of-op_type lib law (Call.recv n t d tag c) none asks a rank = refl
raw_of-op_type lib law (Call.recv n t d tag c) (some p) asks a rank = absurd asks
raw_of-op_type lib law (Call.isend n t d tag c) none asks a rank = refl
raw_of-op_type lib law (Call.isend n t d tag c) (some p) asks a rank = absurd asks
raw_of-op_type lib law (Call.irecv n t d tag c) none asks a rank = refl
raw_of-op_type lib law (Call.irecv n t d tag c) (some p) asks a rank = absurd asks
raw_of-op_type lib law (Call.barrier n) none asks a rank = refl
raw_of-op_type lib law (Call.barrier n) (some p) asks a rank = absurd asks
raw_of-op_type lib law (Call.ibarrier n) none asks a rank = refl
raw_of-op_type lib law (Call.ibarrier n) (some p) asks a rank = absurd asks
raw_of-op_type lib law (Call.test n) none asks a rank = refl
raw_of-op_type lib law (Call.test n) (some p) asks a rank = absurd asks
raw_of-op_type lib law (Call.wait n) none asks a rank = refl
raw_of-op_type lib law (Call.wait n) (some p) asks a rank = absurd asks
raw_of-op_type lib law (Call.ibcast n t d tag) none asks a rank = refl
raw_of-op_type lib law (Call.ibcast n t d tag) (some p) asks a rank = absurd asks
raw_of-op_type lib law (Call.igather n t d tag c x) none asks a rank = refl
raw_of-op_type lib law (Call.igather n t d tag c x) (some p) asks a rank = absurd asks
raw_of-op_type lib law (Call.iscatter n t d tag c x) none asks a rank = refl
raw_of-op_type lib law (Call.iscatter n t d tag c x) (some p) asks a rank = absurd asks
raw_of-op_type lib law (Call.ireduce n t op root c) (some p) asks a rank =
    ap (λ o. mpi_op_of (op_type_of lib.mpi o)) asks ∙ mpi_op_of-op_type_of lib.mpi law p
raw_of-op_type lib law (Call.ireduce n t op root c) none asks a rank =
    ap mpi_op_of (op_type_of_other lib.mpi op asks)
