-- ===== src/Types/Repr.antt =====
-- The `repr(i8)` of the two enumerations of interpol-rs/src/types.rs: the numbers by which the C
-- side names their variants, and which numbers name one.
use interpol.Base.{
  ℕ, zero, suc, ◌≡◌, ◌≢◌, refl, ◌↔◌, Option, none, some, List, [], ◌∷◌, arith, ◌<◌, length,
}
use interpol.Base.Int.{ℤ, pos, negsuc}
use interpol.Types.{MpiOp, MpiCallType}

-- The item of a list at an index.
abbrev at {ℓ} : {A : Type ℓ} → List A → ℕ → Option A
at [] i = none
at (x ∷ xs) zero = some x
at (x ∷ xs) (suc i) = at xs i

abbrev mpi_ops : List MpiOp
mpi_ops =
    MpiOp.opnull ∷ MpiOp.max ∷ MpiOp.min ∷ MpiOp.sum ∷ MpiOp.prod ∷ MpiOp.land ∷ MpiOp.band
    ∷ MpiOp.lor ∷ MpiOp.bor ∷ MpiOp.lxor ∷ MpiOp.bxor ∷ MpiOp.minloc ∷ MpiOp.maxloc ∷ MpiOp.replace
    ∷ []

abbrev mpi_call_types : List MpiCallType
mpi_call_types =
    MpiCallType.init ∷ MpiCallType.initthread ∷ MpiCallType.finalize ∷ MpiCallType.send
    ∷ MpiCallType.recv ∷ MpiCallType.isend ∷ MpiCallType.irecv ∷ MpiCallType.test ∷ MpiCallType.wait
    ∷ MpiCallType.barrier ∷ MpiCallType.ibarrier ∷ MpiCallType.ibcast ∷ MpiCallType.igather
    ∷ MpiCallType.ireduce ∷ MpiCallType.iscatter ∷ []

at-ne-none {ℓ} : {A : Type ℓ} (xs : List A) (i : ℕ) → at xs i ≢ none ↔ (i < length xs)
at-ne-none [] i = (λ h. absurd (h refl), λ h. absurd (omega arith))
at-ne-none (x ∷ xs) zero = (λ h. omega arith, λ h. cc)
at-ne-none (x ∷ xs) (suc i) =
    let (to, from) = at-ne-none xs i in (λ h. omega (arith, to h), λ h. from (omega arith))

-- The number of a variant: its place in the declaration.
unfoldable pub mpi_op_repr : MpiOp → ℕ
mpi_op_repr MpiOp.opnull = 0
mpi_op_repr MpiOp.max = 1
mpi_op_repr MpiOp.min = 2
mpi_op_repr MpiOp.sum = 3
mpi_op_repr MpiOp.prod = 4
mpi_op_repr MpiOp.land = 5
mpi_op_repr MpiOp.band = 6
mpi_op_repr MpiOp.lor = 7
mpi_op_repr MpiOp.bor = 8
mpi_op_repr MpiOp.lxor = 9
mpi_op_repr MpiOp.bxor = 10
mpi_op_repr MpiOp.minloc = 11
mpi_op_repr MpiOp.maxloc = 12
mpi_op_repr MpiOp.replace = 13

unfoldable pub mpi_call_type_repr : MpiCallType → ℕ
mpi_call_type_repr MpiCallType.init = 0
mpi_call_type_repr MpiCallType.initthread = 1
mpi_call_type_repr MpiCallType.finalize = 2
mpi_call_type_repr MpiCallType.send = 3
mpi_call_type_repr MpiCallType.recv = 4
mpi_call_type_repr MpiCallType.isend = 5
mpi_call_type_repr MpiCallType.irecv = 6
mpi_call_type_repr MpiCallType.test = 7
mpi_call_type_repr MpiCallType.wait = 8
mpi_call_type_repr MpiCallType.barrier = 9
mpi_call_type_repr MpiCallType.ibarrier = 10
mpi_call_type_repr MpiCallType.ibcast = 11
mpi_call_type_repr MpiCallType.igather = 12
mpi_call_type_repr MpiCallType.ireduce = 13
mpi_call_type_repr MpiCallType.iscatter = 14

-- The variant that an `i8` holds, if it is a valid value of the enumeration.
unfoldable pub mpi_op_of : ℤ → Option MpiOp
mpi_op_of (pos n) = at mpi_ops n
mpi_op_of (negsuc n) = none

unfoldable pub mpi_call_type_of : ℤ → Option MpiCallType
mpi_call_type_of (pos n) = at mpi_call_types n
mpi_call_type_of (negsuc n) = none

-- The number of each variant of `MpiOp` and of `MpiCallType` is read back as that variant.
pub repr_roundtrip :
    (o : MpiOp) (k : MpiCallType)
    → (mpi_op_of (pos (mpi_op_repr o)) ≡ some o)
      × (mpi_call_type_of (pos (mpi_call_type_repr k)) ≡ some k)
unfolding mpi_op_of mpi_op_repr mpi_call_type_of mpi_call_type_repr
repr_roundtrip o k = ground arith

-- No negative number, so not the -1 of the C side, is the number of a variant of either
-- enumeration; and a number that is not negative is one exactly if it is below 14 for `MpiOp` and
-- below 15 for `MpiCallType`.
pub repr_invalid :
    (n : ℕ)
    → (mpi_op_of (negsuc n) ≡ none)
      × (mpi_call_type_of (negsuc n) ≡ none)
      × ((mpi_op_of (pos n) ≢ none) ↔ (n < 14))
      × ((mpi_call_type_of (pos n) ≢ none) ↔ (n < 15))
unfolding mpi_op_of mpi_call_type_of
repr_invalid n = (refl, refl, at-ne-none mpi_ops n, at-ne-none mpi_call_types n)
