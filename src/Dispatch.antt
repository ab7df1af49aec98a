-- ===== src/Dispatch.antt =====
-- `MpiCall` of interpol-rs/src/interpol.rs, and the dispatch on its kind.
pub mod Record
use interpol.Base.{Bool, Result}
use interpol.Types.{MpiComm, MpiRank, MpiReq, MpiTag, Tsc, Usecs, U32, I32, MpiOp, MpiCallType}
use interpol.Builder.{DeriveBuilder}
use interpol.Json.{SerdeJson}
use interpol.Vector.{Memory}
use interpol.Files.{WriteFaults}
use interpol.Machine.{M}
use interpol.Register.Management.{register_init, register_init_thread, register_finalize}
use interpol.Register.PointToPoint.{register_send, register_recv, register_isend, register_irecv}
use interpol.Register.Synchronization.{
  register_test, register_wait, register_barrier, register_ibarrier,
}
use interpol.Register.Collectives.{
  register_ibcast, register_igather, register_ireduce, register_iscatter,
}

pub record MpiCall : Type 0 where
  pub time : Usecs
  pub tsc : Tsc
  pub duration : Tsc
  pub partner_rank : MpiRank
  pub current_rank : MpiRank
  pub nb_bytes_s : U32
  pub nb_bytes_r : U32
  pub comm : MpiComm
  pub req : MpiReq
  pub tag : MpiTag
  pub required_thread_lvl : I32
  pub provided_thread_lvl : I32
  pub finished : Bool
  pub op_type : MpiOp
  pub kind : MpiCallType

-- The crates that the program is built with, and what its environment answers during one call.
pub record Crates : Type 1 where
  pub builder : DeriveBuilder
  pub json : SerdeJson

pub record Environment : Type 0 where
  pub memory : Memory
  pub files : WriteFaults

-- The arms of the `match` on `call.kind`.
dispatch_kind : Crates → Environment → MpiCall → MpiCallType → M (Unit {0})
dispatch_kind crates env call MpiCallType.init =
    register_init crates.builder env.memory call.current_rank call.tsc call.time
dispatch_kind crates env call MpiCallType.initthread =
    register_init_thread crates.builder env.memory call.current_rank call.required_thread_lvl
      call.provided_thread_lvl call.tsc call.time
dispatch_kind crates env call MpiCallType.finalize =
    register_finalize crates.builder crates.json env.memory env.files call.current_rank call.tsc
      call.time
dispatch_kind crates env call MpiCallType.send =
    register_send crates.builder env.memory call.current_rank call.partner_rank call.nb_bytes_s
      call.comm call.tag call.tsc call.duration
dispatch_kind crates env call MpiCallType.recv =
    register_recv crates.builder env.memory call.current_rank call.partner_rank call.nb_bytes_r
      call.comm call.tag call.tsc call.duration
dispatch_kind crates env call MpiCallType.isend =
    register_isend crates.builder env.memory call.current_rank call.partner_rank call.nb_bytes_s
      call.comm call.req call.tag call.tsc call.duration
dispatch_kind crates env call MpiCallType.irecv =
    register_irecv crates.builder env.memory call.current_rank call.partner_rank call.nb_bytes_r
      call.comm call.req call.tag call.tsc call.duration
dispatch_kind crates env call MpiCallType.test =
    register_test crates.builder env.memory call.current_rank call.req call.finished call.tsc
      call.duration
dispatch_kind crates env call MpiCallType.wait =
    register_wait crates.builder env.memory call.current_rank call.req call.tsc call.duration
dispatch_kind crates env call MpiCallType.barrier =
    register_barrier crates.builder env.memory call.current_rank call.comm call.tsc call.duration
dispatch_kind crates env call MpiCallType.ibarrier =
    register_ibarrier crates.builder env.memory call.current_rank call.comm call.req call.tsc
      call.duration
dispatch_kind crates env call MpiCallType.ibcast =
    register_ibcast crates.builder env.memory call.current_rank call.partner_rank call.nb_bytes_s
      call.comm call.req call.tsc call.duration
dispatch_kind crates env call MpiCallType.igather =
    register_igather crates.builder env.memory call.current_rank call.partner_rank call.nb_bytes_s
      call.nb_bytes_r call.comm call.req call.tsc call.duration
dispatch_kind crates env call MpiCallType.ireduce =
    register_ireduce crates.builder env.memory call.current_rank call.partner_rank call.nb_bytes_s
      call.op_type call.comm call.req call.tsc call.duration
dispatch_kind crates env call MpiCallType.iscatter =
    register_iscatter crates.builder env.memory call.current_rank call.partner_rank call.nb_bytes_s
      call.nb_bytes_r call.comm call.req call.tsc call.duration

unfoldable pub dispatch : Crates → Environment → MpiCall → M (Unit {0})
unfolding dispatch_kind
dispatch crates env call = dispatch_kind crates env call call.kind
