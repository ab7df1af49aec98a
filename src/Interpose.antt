-- ===== src/Interpose.antt =====
-- The interposed MPI functions (src/interpol-c.c and src/interpol-f.c): what they share. The MPI
-- library is a parameter, and so are the answers that it, the clock and the operating system give
-- during one call. The struct that is passed to Rust is that of include/interpol.h.
pub mod C
pub mod Fortran
pub mod Finalize
pub mod Measures
pub mod Operations
pub mod Program
pub mod Run
pub mod Single
pub mod Text
use interpol.Base.{◌≡◌, ap, ℕ, ◌+◌, ◌-◌, ◌*◌, ◌%◌, ◌^◌, Bool}
use interpol.Base.Int.{ℤ, ◌*ℤ◌, to_u32}
use interpol.Types.{MpiComm, MpiRank, MpiReq, MpiTag, Tsc, Usecs, U32, I32, MpiOp, MpiCallType}
use interpol.Machine.{Machine, Ctl, ret, fail, panic, abort, M}
use interpol.Dispatch.{MpiCall, Crates, Environment}
use interpol.Aggregate.{Rayon}
use interpol.Call.{register_mpi_call}

-- The predefined operations of MPI that the code asks for.
pub data Predefined : Type 0 where
  mpi_max mpi_min mpi_sum mpi_prod mpi_land mpi_band mpi_lor mpi_bor mpi_lxor : Predefined
  mpi_bxor mpi_maxloc mpi_minloc mpi_replace mpi_op_null mpi_no_op : Predefined

-- The handles of an MPI library, and its functions on them: `PMPI_Comm_c2f`, `PMPI_Request_c2f`,
-- `PMPI_Type_size`, and the comparison of an operation with a predefined one.
pub record Mpi : Type 1 where
  pub Comm : Type 0
  pub Datatype : Type 0
  pub Request : Type 0
  pub Op : Type 0
  pub comm_c2f : Comm → MpiComm
  pub request_c2f : Request → MpiReq
  pub type_size : Datatype → I32
  pub is_op : Op → Predefined → Bool

-- `struct timeval`
pub record Timeval : Type 0 where
  pub tv_sec : ℤ
  pub tv_usec : ℤ

-- The arithmetic of doubles, on their bits: the conversion of an integer, and the rounded sum and
-- quotient.
pub record Doubles : Type 0 where
  pub of_int : ℤ → Usecs
  pub add : Usecs → Usecs → Usecs
  pub div : Usecs → Usecs → Usecs

-- The bits of the double 1e6.
abbrev million : Usecs
million = 1042 * 2 ^ 52 + 4086334964629504

-- `tv_sec + tv_usec / 1e6`
abbrev pub seconds : Doubles → Timeval → Usecs
seconds doubles t =
    doubles.add (doubles.of_int t.tv_sec) (doubles.div (doubles.of_int t.tv_usec) million)

-- What is answered during one interposed call.
pub record Reply (mpi : Mpi) : Type 0 where
  pub ret : I32  -- the return value of the PMPI function
  pub before : Tsc  -- the time stamp counter, first reading
  pub after : Tsc  -- and second
  pub timeofday : Timeval  -- what `gettimeofday` stores
  pub rank : MpiRank  -- what `PMPI_Comm_rank` stores
  pub provided : I32  -- what `PMPI_Init_thread` stores
  pub flag : I32  -- what `PMPI_Test` stores
  pub request : mpi.Request  -- what the PMPI function leaves in `*request`
  pub env : Environment  -- of the call of `register_mpi_call`

-- The struct `MpiCall` on the side of C, where an `MpiOp` is any `int8_t`.
pub record RawCall : Type 0 where
  pub time : Usecs
  pub tsc : Tsc
  pub duration : Tsc
  pub partner_rank : MpiRank
  pub current_rank : MpiRank
  pub nb_bytes_s : U32
  pub nb_bytes_r : U32
  pub comm : MpiComm
  pub req : MpiReq
  pub tag : MpiTag
  pub required_thread_lvl : I32
  pub provided_thread_lvl : I32
  pub finished : Bool
  pub op_type : ℤ
  pub kind : MpiCallType

-- The program around the Rust library. A value that is no `MpiOp` is undefined behaviour in Rust;
-- `reads` says as what the compiled code takes each `int8_t`.
pub record Library : Type 1 where
  pub mpi : Mpi
  pub crates : Crates
  pub rayon : Rayon
  pub doubles : Doubles
  pub reads : ℤ → MpiOp

abbrev pub received : (ℤ → MpiOp) → RawCall → MpiCall
received reads raw = record {
  time = raw.time;
  tsc = raw.tsc;
  duration = raw.duration;
  partner_rank = raw.partner_rank;
  current_rank = raw.current_rank;
  nb_bytes_s = raw.nb_bytes_s;
  nb_bytes_r = raw.nb_bytes_r;
  comm = raw.comm;
  req = raw.req;
  tag = raw.tag;
  required_thread_lvl = raw.required_thread_lvl;
  provided_thread_lvl = raw.provided_thread_lvl;
  finished = raw.finished;
  op_type = reads raw.op_type;
  kind = raw.kind;
}

-- A process: the static `current_rank` of the interposition library, and the state of the Rust one.
pub record Process : Type 0 where
  pub current_rank : MpiRank
  pub machine : Machine

abbrev pub P : Type 0 → Type 0
P A = Process → Ctl A × Process

infixl 5 ◌>>=◌ ◌>>◌
abbrev pub ◌>>=◌ : {A B : Type 0} → P A → (A → P B) → P B
◌>>=◌ m f p =
    let (r, p') = m p in
    elim r [
      | ret a ↦ f a p'
      | fail e ↦ (fail e, p')
      | panic message ↦ (panic message, p')
      | abort ↦ (abort, p')
    ]

abbrev and_then : {A B : Type 0} → (A → P B) → Ctl A × Process → Ctl B × Process
and_then f r = elim r.0 [
  | ret a ↦ f a r.1
  | fail e ↦ (fail e, r.1)
  | panic message ↦ (panic message, r.1)
  | abort ↦ (abort, r.1)
]

-- A bind after a step that returned.
pub >>=-eq-of_ret :
    {A B : Type 0} (m : P A) (f : A → P B) {p p' : Process} {a : A}
    → m p ≡ (ret a, p')
    → (m >>= f) p ≡ f a p'
>>=-eq-of_ret m f e = ap (and_then f) e

abbrev pub ◌>>◌ : {A B : Type 0} → P A → P B → P B
m >> k = m >>= λ _. k

abbrev pub pure : {A : Type 0} → A → P A
pure a p = (ret a, p)

abbrev pub get_current_rank : P MpiRank
get_current_rank p = (ret p.current_rank, p)

abbrev pub set_current_rank : MpiRank → P (Unit {0})
set_current_rank rank p = (ret tt, record p { current_rank = rank })

-- A call of a function of the Rust library.
abbrev pub calling : {A : Type 0} → M A → P A
calling m p = let (r, s) = m p.machine in (r, record p { machine = s })

abbrev pub register : (lib : Library) → Environment → RawCall → P (Unit {0})
register lib env raw = calling (register_mpi_call lib.crates env (received lib.reads raw))

-- `rdtsc() - tsc`, in 64 bits
unfoldable pub elapsed : Tsc → Tsc → Tsc
elapsed before after = (after + 2 ^ 64 - before) % 2 ^ 64

-- `nb_bytes * count`, stored in a `uint32_t`. A product that an `int` cannot hold, which C leaves
-- undefined, is taken to wrap.
unfoldable pub bytes : I32 → I32 → U32
unfolding ◌*ℤ◌ to_u32
bytes nb_bytes count = to_u32 (nb_bytes *ℤ count)

-- The bits of the double -1.0.
abbrev pub minus_one : Usecs
minus_one = 3071 * 2 ^ 52
