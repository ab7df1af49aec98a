-- ===== src/Event.antt =====
-- `Box<dyn Register>` (interpol-rs/src/interpol.rs): an event of any of the fifteen structs that
-- implement the trait, and the method `tsc`.
use interpol.Types.{Tsc, MpiCallType}
use interpol.MpiEvents.Management.{MpiInit, MpiInitThread, MpiFinalize}
use interpol.MpiEvents.PointToPoint.{MpiSend, MpiRecv, MpiIsend, MpiIrecv}
use interpol.MpiEvents.Synchronization.{MpiTest, MpiWait, MpiBarrier, MpiIbarrier}
use interpol.MpiEvents.Collectives.{MpiIbcast, MpiIgather, MpiIreduce, MpiIscatter}

-- One constructor for each `impl_register!`.
pub data Event : Type 0 where
  init : MpiInit → Event
  initthread : MpiInitThread → Event
  finalize : MpiFinalize → Event
  send : MpiSend → Event
  recv : MpiRecv → Event
  isend : MpiIsend → Event
  irecv : MpiIrecv → Event
  test : MpiTest → Event
  wait : MpiWait → Event
  barrier : MpiBarrier → Event
  ibarrier : MpiIbarrier → Event
  ibcast : MpiIbcast → Event
  igather : MpiIgather → Event
  ireduce : MpiIreduce → Event
  iscatter : MpiIscatter → Event

-- The method `tsc`: each struct's field of that name.
unfoldable pub tsc : Event → Tsc
tsc (Event.init e) = e.tsc
tsc (Event.initthread e) = e.tsc
tsc (Event.finalize e) = e.tsc
tsc (Event.send e) = e.tsc
tsc (Event.recv e) = e.tsc
tsc (Event.isend e) = e.tsc
tsc (Event.irecv e) = e.tsc
tsc (Event.test e) = e.tsc
tsc (Event.wait e) = e.tsc
tsc (Event.barrier e) = e.tsc
tsc (Event.ibarrier e) = e.tsc
tsc (Event.ibcast e) = e.tsc
tsc (Event.igather e) = e.tsc
tsc (Event.ireduce e) = e.tsc
tsc (Event.iscatter e) = e.tsc

-- The struct that the event of a call is.
abbrev pub StructOf : MpiCallType → Type 0
StructOf MpiCallType.init = MpiInit
StructOf MpiCallType.initthread = MpiInitThread
StructOf MpiCallType.finalize = MpiFinalize
StructOf MpiCallType.send = MpiSend
StructOf MpiCallType.recv = MpiRecv
StructOf MpiCallType.isend = MpiIsend
StructOf MpiCallType.irecv = MpiIrecv
StructOf MpiCallType.test = MpiTest
StructOf MpiCallType.wait = MpiWait
StructOf MpiCallType.barrier = MpiBarrier
StructOf MpiCallType.ibarrier = MpiIbarrier
StructOf MpiCallType.ibcast = MpiIbcast
StructOf MpiCallType.igather = MpiIgather
StructOf MpiCallType.ireduce = MpiIreduce
StructOf MpiCallType.iscatter = MpiIscatter

-- `Box::new` of a struct, as a `Box<dyn Register>`.
unfoldable pub box : (kind : MpiCallType) → StructOf kind → Event
box MpiCallType.init e = Event.init e
box MpiCallType.initthread e = Event.initthread e
box MpiCallType.finalize e = Event.finalize e
box MpiCallType.send e = Event.send e
box MpiCallType.recv e = Event.recv e
box MpiCallType.isend e = Event.isend e
box MpiCallType.irecv e = Event.irecv e
box MpiCallType.test e = Event.test e
box MpiCallType.wait e = Event.wait e
box MpiCallType.barrier e = Event.barrier e
box MpiCallType.ibarrier e = Event.ibarrier e
box MpiCallType.ibcast e = Event.ibcast e
box MpiCallType.igather e = Event.igather e
box MpiCallType.ireduce e = Event.ireduce e
box MpiCallType.iscatter e = Event.iscatter e
