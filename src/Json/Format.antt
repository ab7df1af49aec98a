-- ===== src/Json/Format.antt =====
-- The JSON text of the structs, as `#[derive(Serialize)]` and `#[typetag::serde(tag = "type")]` are
-- documented to write it: the fields in the order of the struct, and in a trace each struct with its
-- name as the field `type`. The print of an `f64` is a parameter.
use interpol.Base.{Bool, true, false, ◌≡◌, All, some, List, [], ◌∷◌, ◌++◌, Text, codes}
use interpol.Base.Int.{decimal, show_int}
use interpol.Types.{Usecs, MpiOp, MpiCallType}
use interpol.Event.{Event}
use interpol.Builder.{Setting, name_of, settings}
use interpol.Json.{SerdeJson, HasFiniteTime}

-- The names of the variants in the source.
abbrev pub op_name : MpiOp → Text
op_name MpiOp.opnull = codes "Opnull"
op_name MpiOp.max = codes "Max"
op_name MpiOp.min = codes "Min"
op_name MpiOp.sum = codes "Sum"
op_name MpiOp.prod = codes "Prod"
op_name MpiOp.land = codes "Land"
op_name MpiOp.band = codes "Band"
op_name MpiOp.lor = codes "Lor"
op_name MpiOp.bor = codes "Bor"
op_name MpiOp.lxor = codes "Lxor"
op_name MpiOp.bxor = codes "Bxor"
op_name MpiOp.minloc = codes "Minloc"
op_name MpiOp.maxloc = codes "Maxloc"
op_name MpiOp.replace = codes "Replace"

abbrev pub bool_text : Bool → Text
bool_text true = codes "true"
bool_text false = codes "false"

-- The names of the structs.
abbrev pub struct_name : MpiCallType → Text
struct_name MpiCallType.init = codes "MpiInit"
struct_name MpiCallType.initthread = codes "MpiInitThread"
struct_name MpiCallType.finalize = codes "MpiFinalize"
struct_name MpiCallType.send = codes "MpiSend"
struct_name MpiCallType.recv = codes "MpiRecv"
struct_name MpiCallType.isend = codes "MpiIsend"
struct_name MpiCallType.irecv = codes "MpiIrecv"
struct_name MpiCallType.test = codes "MpiTest"
struct_name MpiCallType.wait = codes "MpiWait"
struct_name MpiCallType.barrier = codes "MpiBarrier"
struct_name MpiCallType.ibarrier = codes "MpiIbarrier"
struct_name MpiCallType.ibcast = codes "MpiIbcast"
struct_name MpiCallType.igather = codes "MpiIgather"
struct_name MpiCallType.ireduce = codes "MpiIreduce"
struct_name MpiCallType.iscatter = codes "MpiIscatter"

abbrev pub kind_of : Event → MpiCallType
kind_of (Event.init e) = MpiCallType.init
kind_of (Event.initthread e) = MpiCallType.initthread
kind_of (Event.finalize e) = MpiCallType.finalize
kind_of (Event.send e) = MpiCallType.send
kind_of (Event.recv e) = MpiCallType.recv
kind_of (Event.isend e) = MpiCallType.isend
kind_of (Event.irecv e) = MpiCallType.irecv
kind_of (Event.test e) = MpiCallType.test
kind_of (Event.wait e) = MpiCallType.wait
kind_of (Event.barrier e) = MpiCallType.barrier
kind_of (Event.ibarrier e) = MpiCallType.ibarrier
kind_of (Event.ibcast e) = MpiCallType.ibcast
kind_of (Event.igather e) = MpiCallType.igather
kind_of (Event.ireduce e) = MpiCallType.ireduce
kind_of (Event.iscatter e) = MpiCallType.iscatter

-- A text in front of another.
abbrev pub quoted : Text → Text → Text
quoted t rest = b'"' ∷ (t ++ b'"' ∷ rest)

module _ (show_f64 : Usecs → Text) where
  unfoldable pub value_text : Setting → Text → Text
  value_text (Setting.current_rank v) rest = show_int v ++ rest
  value_text (Setting.partner_rank v) rest = show_int v ++ rest
  value_text (Setting.nb_bytes v) rest = decimal v ++ rest
  value_text (Setting.nb_bytes_send v) rest = decimal v ++ rest
  value_text (Setting.nb_bytes_recv v) rest = decimal v ++ rest
  value_text (Setting.comm v) rest = show_int v ++ rest
  value_text (Setting.req v) rest = show_int v ++ rest
  value_text (Setting.tag v) rest = show_int v ++ rest
  value_text (Setting.tsc v) rest = decimal v ++ rest
  value_text (Setting.duration v) rest = decimal v ++ rest
  value_text (Setting.time v) rest = show_f64 v ++ rest
  value_text (Setting.required_thread_lvl v) rest = show_int v ++ rest
  value_text (Setting.provided_thread_lvl v) rest = show_int v ++ rest
  value_text (Setting.finished v) rest = bool_text v ++ rest
  value_text (Setting.op_type v) rest = quoted (op_name v) rest

  -- `"name":value`
  unfoldable pub member_text : Setting → Text → Text
  unfolding name_of value_text
  member_text x rest = quoted (codes (name_of x)) (b':' ∷ value_text x rest)

  unfoldable pub members_text : List Setting → Text → Text
  unfolding member_text
  members_text [] rest = rest
  members_text (x ∷ []) rest = member_text x rest
  members_text (x ∷ y ∷ xs) rest = member_text x (b',' ∷ members_text (y ∷ xs) rest)

  -- A struct by itself.
  unfoldable pub struct_text : Event → Text
  unfolding settings members_text
  struct_text e = b'{' ∷ members_text (settings e) (b'}' ∷ [])

  -- A struct as an element of a trace.
  unfoldable pub event_text : Event → Text → Text
  unfolding settings members_text
  event_text e rest =
      b'{'
      ∷ quoted (codes "type")
          (b':' ∷ quoted (struct_name (kind_of e)) (b',' ∷ members_text (settings e) (b'}' ∷ rest)))

  unfoldable pub events_text : List Event → Text → Text
  unfolding event_text
  events_text [] rest = rest
  events_text (e ∷ []) rest = event_text e rest
  events_text (e ∷ e' ∷ es) rest = event_text e (b',' ∷ events_text (e' ∷ es) rest)

  -- The text of a trace, on one line.
  unfoldable pub trace_text : List Event → Text
  unfolding events_text
  trace_text es = b'[' ∷ events_text es (b']' ∷ [])

  -- The compact text that `serde_json::to_string` is documented to make of a trace.
  abbrev pub WritesTraces : SerdeJson → Type 0
  WritesTraces json =
      (es : List Event) → All HasFiniteTime es → json.to_string es ≡ some (trace_text es)
