-- ===== src/Dispatch/Record.antt =====
-- What a dispatched call records: one event, with the call's values, whatever its kind.
use interpol.Base.{String, ◌≡◌}
use interpol.Types.{MpiCallType}
use interpol.Event.{Event, StructOf, box}
use interpol.Builder.{settings, DeriveBuilder, IsBuilder}
use interpol.Builder.Chain.{sets, build-sets}
use interpol.Machine.{Machine, ret, M, ◌>>=◌, ◌>>◌, with_guard, >>=-eq-of_ret}
use interpol.Register.{built, append}
use interpol.Serialize.{serialize}
use interpol.Dispatch.{MpiCall, Crates, Environment, dispatch_kind, dispatch}
use interpol.MpiEvents.Management.{new_mpi_init, new_mpi_init_thread, new_mpi_finalize}
use interpol.MpiEvents.PointToPoint.{new_mpi_send, new_mpi_recv, new_mpi_isend, new_mpi_irecv}
use interpol.MpiEvents.Synchronization.{
  new_mpi_test, new_mpi_wait, new_mpi_barrier, new_mpi_ibarrier,
}
use interpol.MpiEvents.Collectives.{
  new_mpi_ibcast, new_mpi_igather, new_mpi_ireduce, new_mpi_iscatter,
}
use interpol.Register.Management.{register_init, register_init_thread, register_finalize}
use interpol.Register.PointToPoint.{register_send, register_recv, register_isend, register_irecv}
use interpol.Register.Synchronization.{
  register_test, register_wait, register_barrier, register_ibarrier,
}
use interpol.Register.Collectives.{
  register_ibcast, register_igather, register_ireduce, register_iscatter,
}

-- The struct of a call: the constructor `new` of its kind at the call's values.
unfoldable pub struct_of : (call : MpiCall) (kind : MpiCallType) → StructOf kind
struct_of call MpiCallType.init = new_mpi_init call.current_rank call.tsc call.time
struct_of call MpiCallType.initthread =
    new_mpi_init_thread call.current_rank call.required_thread_lvl call.provided_thread_lvl call.tsc
      call.time
struct_of call MpiCallType.finalize = new_mpi_finalize call.current_rank call.tsc call.time
struct_of call MpiCallType.send =
    new_mpi_send call.current_rank call.partner_rank call.nb_bytes_s call.comm call.tag call.tsc
      call.duration
struct_of call MpiCallType.recv =
    new_mpi_recv call.current_rank call.partner_rank call.nb_bytes_r call.comm call.tag call.tsc
      call.duration
struct_of call MpiCallType.isend =
    new_mpi_isend call.current_rank call.partner_rank call.nb_bytes_s call.comm call.req call.tag
      call.tsc call.duration
struct_of call MpiCallType.irecv =
    new_mpi_irecv call.current_rank call.partner_rank call.nb_bytes_r call.comm call.req call.tag
      call.tsc call.duration
struct_of call MpiCallType.test =
    new_mpi_test call.current_rank call.req call.finished call.tsc call.duration
struct_of call MpiCallType.wait = new_mpi_wait call.current_rank call.req call.tsc call.duration
struct_of call MpiCallType.barrier =
    new_mpi_barrier call.current_rank call.comm call.tsc call.duration
struct_of call MpiCallType.ibarrier =
    new_mpi_ibarrier call.current_rank call.comm call.req call.tsc call.duration
struct_of call MpiCallType.ibcast =
    new_mpi_ibcast call.current_rank call.partner_rank call.nb_bytes_s call.comm call.req call.tsc
      call.duration
struct_of call MpiCallType.igather =
    new_mpi_igather call.current_rank call.partner_rank call.nb_bytes_s call.nb_bytes_r call.comm
      call.req call.tsc call.duration
struct_of call MpiCallType.ireduce =
    new_mpi_ireduce call.current_rank call.partner_rank call.nb_bytes_s call.op_type call.comm
      call.req call.tsc call.duration
struct_of call MpiCallType.iscatter =
    new_mpi_iscatter call.current_rank call.partner_rank call.nb_bytes_s call.nb_bytes_r call.comm
      call.req call.tsc call.duration

unfoldable pub event_of : MpiCall → Event
unfolding struct_of
event_of call = box call.kind (struct_of call call.kind)

-- The message of the panic on a poisoned mutex.
pub lock_message : MpiCallType → String
lock_message MpiCallType.init = "failed to take the lock on vector for `MpiInit` event"
lock_message MpiCallType.initthread = "failed to take the lock on vector for `MpiInitThread` event"
lock_message MpiCallType.finalize = "failed to take the lock on vector for `MpiFinalize` event"
lock_message MpiCallType.send = "failed to take the lock on vector for `MpiSend` event"
lock_message MpiCallType.recv = "failed to take the lock on vector for `MpiRecv` event"
lock_message MpiCallType.isend = "failed to take the lock on vector for `MpiIsend` event"
lock_message MpiCallType.irecv = "failed to take the lock on vector for `MpiIrecv` event"
lock_message MpiCallType.test = "failed to take the lock on vector for `MpiTest` event"
lock_message MpiCallType.wait = "failed to take the lock on vector for `MpiWait` event"
lock_message MpiCallType.barrier = "failed to take the lock on vector for `MpiBarrier` event"
lock_message MpiCallType.ibarrier = "failed to take the lock on vector for `MpiIbarrier` event"
lock_message MpiCallType.ibcast = "failed to take the lock on vector for `MpiIbcast` event"
lock_message MpiCallType.igather = "failed to take the lock on vector for `MpiIbcast` event"
lock_message MpiCallType.ireduce = "failed to take the lock on vector for `MpiIbcast` event"
lock_message MpiCallType.iscatter = "failed to take the lock on vector for `MpiIbcast` event"

-- What is done under the lock.
abbrev pub body : Crates → Environment → MpiCall → MpiCallType → Event → M (Unit {0})
body crates env call MpiCallType.finalize event =
    append env.memory event >> serialize crates.json env.files call.current_rank
body crates env call kind event = append env.memory event

built-chain :
    (db : DeriveBuilder) (law : IsBuilder db) (kind : MpiCallType) (s : StructOf kind) (m : Machine)
    → built db (sets db (settings (box kind s)) (db.default kind)) m ≡ (ret s, m)
unfolding built
built-chain db law kind s m = rw (built, build-sets db law kind s)

module _ (crates : Crates) (law : IsBuilder crates.builder) (env : Environment) (call : MpiCall)
    (m : Machine) where
  guarded : (kind : MpiCallType) → StructOf kind → M (Unit {0})
  guarded kind s = with_guard (lock_message kind) (body crates env call kind (box kind s))

  after_build :
      (kind : MpiCallType)
      → (built crates.builder (
              sets crates.builder
                (settings (box kind (struct_of call kind)))
                (crates.builder.default kind))
            >>= guarded kind)
          m
        ≡ guarded kind (struct_of call kind) m
  after_build kind =
      >>=-eq-of_ret (built crates.builder _) (guarded kind)
        (built-chain crates.builder law kind (struct_of call kind) m)

  dispatch_kind-records :
      (kind : MpiCallType)
      → dispatch_kind crates env call kind m
        ≡ with_guard
            (lock_message kind)
            (body crates env call kind (box kind (struct_of call kind)))
            m
  unfolding dispatch_kind guarded lock_message struct_of box settings register_init new_mpi_init
      register_init_thread new_mpi_init_thread register_finalize new_mpi_finalize register_send
      new_mpi_send register_recv new_mpi_recv register_isend new_mpi_isend register_irecv
      new_mpi_irecv register_test new_mpi_test register_wait new_mpi_wait register_barrier
      new_mpi_barrier register_ibarrier new_mpi_ibarrier register_ibcast new_mpi_ibcast
      register_igather new_mpi_igather register_ireduce new_mpi_ireduce register_iscatter
      new_mpi_iscatter
  dispatch_kind-records MpiCallType.init = after_build MpiCallType.init
  dispatch_kind-records kind = after_build kind

  -- Given the documented behaviour of derive_builder: the dispatch of a call of any of the fifteen
  -- kinds is the same as to take the lock once, to append the event that the constructor `new` of
  -- its struct makes of the call's values, and, for a finalize, to serialise before the lock is
  -- given back.
  pub dispatch-records :
      dispatch crates env call m
      ≡ with_guard (lock_message call.kind) (body crates env call call.kind (event_of call)) m
  unfolding dispatch event_of
  dispatch-records = dispatch_kind-records call.kind
