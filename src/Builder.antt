-- ===== src/Builder.antt =====
-- `#[derive(Builder)]` on the structs of the events: the crate `derive_builder` is not part of the
-- program, so it is a record of its operations with the documented behaviour of setters and
-- `build`.
pub mod Chain
use interpol.Base.{
  Bool, String, List, [], ◌∷◌, Option, none, some, Text, Result, ok, All, ◌≡◌, str_eq,
  if◌then◌else◌,
}
use interpol.Types.{MpiComm, MpiRank, MpiReq, MpiTag, Tsc, Usecs, U32, I32, MpiOp, MpiCallType}
use interpol.Event.{Event, StructOf, box}

-- A field of a struct with its value: what a setter of the derived builder is called with.
pub data Setting : Type 0 where
  current_rank : MpiRank → Setting
  partner_rank : MpiRank → Setting
  nb_bytes : U32 → Setting
  nb_bytes_send : U32 → Setting
  nb_bytes_recv : U32 → Setting
  comm : MpiComm → Setting
  req : MpiReq → Setting
  tag : MpiTag → Setting
  tsc : Tsc → Setting
  duration : Tsc → Setting
  time : Usecs → Setting
  required_thread_lvl : I32 → Setting
  provided_thread_lvl : I32 → Setting
  finished : Bool → Setting
  op_type : MpiOp → Setting

-- The name of the field.
unfoldable pub name_of : Setting → String
name_of (Setting.current_rank v) = "current_rank"
name_of (Setting.partner_rank v) = "partner_rank"
name_of (Setting.nb_bytes v) = "nb_bytes"
name_of (Setting.nb_bytes_send v) = "nb_bytes_send"
name_of (Setting.nb_bytes_recv v) = "nb_bytes_recv"
name_of (Setting.comm v) = "comm"
name_of (Setting.req v) = "req"
name_of (Setting.tag v) = "tag"
name_of (Setting.tsc v) = "tsc"
name_of (Setting.duration v) = "duration"
name_of (Setting.time v) = "time"
name_of (Setting.required_thread_lvl v) = "required_thread_lvl"
name_of (Setting.provided_thread_lvl v) = "provided_thread_lvl"
name_of (Setting.finished v) = "finished"
name_of (Setting.op_type v) = "op_type"

-- The fields of an event in the order of its struct, with their values.
unfoldable pub settings : Event → List Setting
settings (Event.init e) =
    Setting.current_rank e.current_rank ∷ Setting.tsc e.tsc ∷ Setting.time e.time ∷ []
settings (Event.initthread e) =
    Setting.current_rank e.current_rank
    ∷ Setting.required_thread_lvl e.required_thread_lvl
    ∷ Setting.provided_thread_lvl e.provided_thread_lvl
    ∷ Setting.tsc e.tsc
    ∷ Setting.time e.time
    ∷ []
settings (Event.finalize e) =
    Setting.current_rank e.current_rank ∷ Setting.tsc e.tsc ∷ Setting.time e.time ∷ []
settings (Event.send e) =
    Setting.current_rank e.current_rank
    ∷ Setting.partner_rank e.partner_rank
    ∷ Setting.nb_bytes e.nb_bytes
    ∷ Setting.comm e.comm
    ∷ Setting.tag e.tag
    ∷ Setting.tsc e.tsc
    ∷ Setting.duration e.duration
    ∷ []
settings (Event.recv e) =
    Setting.current_rank e.current_rank
    ∷ Setting.partner_rank e.partner_rank
    ∷ Setting.nb_bytes e.nb_bytes
    ∷ Setting.comm e.comm
    ∷ Setting.tag e.tag
    ∷ Setting.tsc e.tsc
    ∷ Setting.duration e.duration
    ∷ []
settings (Event.isend e) =
    Setting.current_rank e.current_rank
    ∷ Setting.partner_rank e.partner_rank
    ∷ Setting.nb_bytes e.nb_bytes
    ∷ Setting.comm e.comm
    ∷ Setting.req e.req
    ∷ Setting.tag e.tag
    ∷ Setting.tsc e.tsc
    ∷ Setting.duration e.duration
    ∷ []
settings (Event.irecv e) =
    Setting.current_rank e.current_rank
    ∷ Setting.partner_rank e.partner_rank
    ∷ Setting.nb_bytes e.nb_bytes
    ∷ Setting.comm e.comm
    ∷ Setting.req e.req
    ∷ Setting.tag e.tag
    ∷ Setting.tsc e.tsc
    ∷ Setting.duration e.duration
    ∷ []
settings (Event.test e) =
    Setting.current_rank e.current_rank
    ∷ Setting.req e.req
    ∷ Setting.finished e.finished
    ∷ Setting.tsc e.tsc
    ∷ Setting.duration e.duration
    ∷ []
settings (Event.wait e) =
    Setting.current_rank e.current_rank
    ∷ Setting.req e.req
    ∷ Setting.tsc e.tsc
    ∷ Setting.duration e.duration
    ∷ []
settings (Event.barrier e) =
    Setting.current_rank e.current_rank
    ∷ Setting.comm e.comm
    ∷ Setting.tsc e.tsc
    ∷ Setting.duration e.duration
    ∷ []
settings (Event.ibarrier e) =
    Setting.current_rank e.current_rank
    ∷ Setting.comm e.comm
    ∷ Setting.req e.req
    ∷ Setting.tsc e.tsc
    ∷ Setting.duration e.duration
    ∷ []
settings (Event.ibcast e) =
    Setting.current_rank e.current_rank
    ∷ Setting.partner_rank e.partner_rank
    ∷ Setting.nb_bytes e.nb_bytes
    ∷ Setting.comm e.comm
    ∷ Setting.req e.req
    ∷ Setting.tsc e.tsc
    ∷ Setting.duration e.duration
    ∷ []
settings (Event.igather e) =
    Setting.current_rank e.current_rank
    ∷ Setting.partner_rank e.partner_rank
    ∷ Setting.nb_bytes_send e.nb_bytes_send
    ∷ Setting.nb_bytes_recv e.nb_bytes_recv
    ∷ Setting.comm e.comm
    ∷ Setting.req e.req
    ∷ Setting.tsc e.tsc
    ∷ Setting.duration e.duration
    ∷ []
settings (Event.ireduce e) =
    Setting.current_rank e.current_rank
    ∷ Setting.partner_rank e.partner_rank
    ∷ Setting.nb_bytes e.nb_bytes
    ∷ Setting.op_type e.op_type
    ∷ Setting.comm e.comm
    ∷ Setting.req e.req
    ∷ Setting.tsc e.tsc
    ∷ Setting.duration e.duration
    ∷ []
settings (Event.iscatter e) =
    Setting.current_rank e.current_rank
    ∷ Setting.partner_rank e.partner_rank
    ∷ Setting.nb_bytes_send e.nb_bytes_send
    ∷ Setting.nb_bytes_recv e.nb_bytes_recv
    ∷ Setting.comm e.comm
    ∷ Setting.req e.req
    ∷ Setting.tsc e.tsc
    ∷ Setting.duration e.duration
    ∷ []

-- `kind` stands for the struct whose builder it is. `assigned` is a builder's value for a field.
pub record DeriveBuilder : Type 1 where
  pub Builder : MpiCallType → Type 0
  pub BuilderError : Type 0
  pub error_to_string : BuilderError → Text
  pub default : (kind : MpiCallType) → Builder kind
  pub set : {kind : MpiCallType} → Setting → Builder kind → Builder kind
  pub build : {kind : MpiCallType} → Builder kind → Result BuilderError (StructOf kind)
  pub assigned : {kind : MpiCallType} → Builder kind → String → Option Setting

-- The documented behaviour: a setter gives its field the value and leaves the others alone, and
-- `build` returns the struct whose fields have all been given their values.
pub record IsBuilder (db : DeriveBuilder) : Type 0 where
  pub assigned-default : (kind : MpiCallType) (f : String) → db.assigned (db.default kind) f ≡ none
  pub assigned-set :
      {kind : MpiCallType} (x : Setting) (b : db.Builder kind) (f : String)
      → db.assigned (db.set x b) f ≡ (if str_eq (name_of x) f then some x else db.assigned b f)
  pub build-assigned :
      (kind : MpiCallType) (b : db.Builder kind) (s : StructOf kind)
      → All (λ x. db.assigned b (name_of x) ≡ some x) (settings (box kind s))
      → db.build b ≡ ok s
