-- ===== src/Types.antt =====
-- interpol-rs/src/types.rs: the types that the C side and the Rust side share. The program never
-- computes with these numbers: an `i32` is its integer, a `u32` or `u64` its number, and a `f64` is
-- the number that its 64 bits write.
pub mod Repr
use interpol.Base.{ℕ, ◌/◌, ◌%◌, ◌^◌, Bool, not, ◌==◌}
use interpol.Base.Int.{ℤ}

abbrev pub I32 : Type 0
I32 = ℤ

abbrev pub U32 : Type 0
U32 = ℕ

abbrev pub MpiComm : Type 0
MpiComm = I32

abbrev pub MpiRank : Type 0
MpiRank = I32

abbrev pub MpiReq : Type 0
MpiReq = I32

abbrev pub MpiTag : Type 0
MpiTag = I32

abbrev pub Tsc : Type 0
Tsc = ℕ

abbrev pub Usecs : Type 0
Usecs = ℕ

-- Neither an infinity nor a NaN: the eleven bits of the exponent are not all set.
unfoldable pub is_finite : Usecs → Bool
is_finite bits = not (bits / 2 ^ 52 % 2 ^ 11 == 2047)

pub data MpiCallType : Type 0 where
  init initthread finalize send recv isend irecv test wait barrier ibarrier : MpiCallType
  ibcast igather ireduce iscatter : MpiCallType

pub data MpiOp : Type 0 where
  opnull max min sum prod land band lor bor lxor bxor minloc maxloc replace : MpiOp
