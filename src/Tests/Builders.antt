-- ===== src/Tests/Builders.antt =====
-- A concrete `derive_builder`: a builder is the list of the settings made, the latest first.
use interpol.Base.{
  ◌≡◌, refl, String, List, [], ◌∷◌, Option, none, some, codes, Result, ok, err, All, str_eq,
  if◌then◌else◌,
}
use interpol.Types.{MpiCallType}
use interpol.Event.{StructOf, box}
use interpol.Tests.Fields.{
  current_rank, partner_rank, nb_bytes, nb_bytes_send, nb_bytes_recv, comm, req, tag, tsc, duration,
  time, required_thread_lvl, provided_thread_lvl, finished, op_type,
}
use interpol.Builder.{Setting, name_of, settings, DeriveBuilder, IsBuilder}

abbrev pub find : List Setting → String → Option Setting
find [] f = none
find (x ∷ b) f = if str_eq (name_of x) f then some x else find b f

infixl 5 ◌>>=◌
abbrev ◌>>=◌ : {A B : Type 0} → Result String A → (A → Result String B) → Result String B
ok a >>= f = f a
err e >>= f = err e

unfoldable pub built : (kind : MpiCallType) → List Setting → Result String (StructOf kind)
built MpiCallType.init b = do
  current_rank_value ← current_rank (find b "current_rank")
  tsc_value ← tsc (find b "tsc")
  time_value ← time (find b "time")
  ok (record { current_rank = current_rank_value; tsc = tsc_value; time = time_value })
built MpiCallType.initthread b = do
  current_rank_value ← current_rank (find b "current_rank")
  required_thread_lvl_value ← required_thread_lvl (find b "required_thread_lvl")
  provided_thread_lvl_value ← provided_thread_lvl (find b "provided_thread_lvl")
  tsc_value ← tsc (find b "tsc")
  time_value ← time (find b "time")
  ok (record {
    current_rank = current_rank_value;
    required_thread_lvl = required_thread_lvl_value;
    provided_thread_lvl = provided_thread_lvl_value;
    tsc = tsc_value;
    time = time_value;
  })
built MpiCallType.finalize b = do
  current_rank_value ← current_rank (find b "current_rank")
  tsc_value ← tsc (find b "tsc")
  time_value ← time (find b "time")
  ok (record { current_rank = current_rank_value; tsc = tsc_value; time = time_value })
built MpiCallType.send b = do
  current_rank_value ← current_rank (find b "current_rank")
  partner_rank_value ← partner_rank (find b "partner_rank")
  nb_bytes_value ← nb_bytes (find b "nb_bytes")
  comm_value ← comm (find b "comm")
  tag_value ← tag (find b "tag")
  tsc_value ← tsc (find b "tsc")
  duration_value ← duration (find b "duration")
  ok (record {
    current_rank = current_rank_value;
    partner_rank = partner_rank_value;
    nb_bytes = nb_bytes_value;
    comm = comm_value;
    tag = tag_value;
    tsc = tsc_value;
    duration = duration_value;
  })
built MpiCallType.recv b = do
  current_rank_value ← current_rank (find b "current_rank")
  partner_rank_value ← partner_rank (find b "partner_rank")
  nb_bytes_value ← nb_bytes (find b "nb_bytes")
  comm_value ← comm (find b "comm")
  tag_value ← tag (find b "tag")
  tsc_value ← tsc (find b "tsc")
  duration_value ← duration (find b "duration")
  ok (record {
    current_rank = current_rank_value;
    partner_rank = partner_rank_value;
    nb_bytes = nb_bytes_value;
    comm = comm_value;
    tag = tag_value;
    tsc = tsc_value;
    duration = duration_value;
  })
built MpiCallType.isend b = do
  current_rank_value ← current_rank (find b "current_rank")
  partner_rank_value ← partner_rank (find b "partner_rank")
  nb_bytes_value ← nb_bytes (find b "nb_bytes")
  comm_value ← comm (find b "comm")
  req_value ← req (find b "req")
  tag_value ← tag (find b "tag")
  tsc_value ← tsc (find b "tsc")
  duration_value ← duration (find b "duration")
  ok (record {
    current_rank = current_rank_value;
    partner_rank = partner_rank_value;
    nb_bytes = nb_bytes_value;
    comm = comm_value;
    req = req_value;
    tag = tag_value;
    tsc = tsc_value;
    duration = duration_value;
  })
built MpiCallType.irecv b = do
  current_rank_value ← current_rank (find b "current_rank")
  partner_rank_value ← partner_rank (find b "partner_rank")
  nb_bytes_value ← nb_bytes (find b "nb_bytes")
  comm_value ← comm (find b "comm")
  req_value ← req (find b "req")
  tag_value ← tag (find b "tag")
  tsc_value ← tsc (find b "tsc")
  duration_value ← duration (find b "duration")
  ok (record {
    current_rank = current_rank_value;
    partner_rank = partner_rank_value;
    nb_bytes = nb_bytes_value;
    comm = comm_value;
    req = req_value;
    tag = tag_value;
    tsc = tsc_value;
    duration = duration_value;
  })
built MpiCallType.test b = do
  current_rank_value ← current_rank (find b "current_rank")
  req_value ← req (find b "req")
  finished_value ← finished (find b "finished")
  tsc_value ← tsc (find b "tsc")
  duration_value ← duration (find b "duration")
  ok (record {
    current_rank = current_rank_value;
    req = req_value;
    finished = finished_value;
    tsc = tsc_value;
    duration = duration_value;
  })
built MpiCallType.wait b = do
  current_rank_value ← current_rank (find b "current_rank")
  req_value ← req (find b "req")
  tsc_value ← tsc (find b "tsc")
  duration_value ← duration (find b "duration")
  ok (record {
    current_rank = current_rank_value;
    req = req_value;
    tsc = tsc_value;
    duration = duration_value;
  })
built MpiCallType.barrier b = do
  current_rank_value ← current_rank (find b "current_rank")
  comm_value ← comm (find b "comm")
  tsc_value ← tsc (find b "tsc")
  duration_value ← duration (find b "duration")
  ok (record {
    current_rank = current_rank_value;
    comm = comm_value;
    tsc = tsc_value;
    duration = duration_value;
  })
built MpiCallType.ibarrier b = do
  current_rank_value ← current_rank (find b "current_rank")
  comm_value ← comm (find b "comm")
  req_value ← req (find b "req")
  tsc_value ← tsc (find b "tsc")
  duration_value ← duration (find b "duration")
  ok (record {
    current_rank = current_rank_value;
    comm = comm_value;
    req = req_value;
    tsc = tsc_value;
    duration = duration_value;
  })
built MpiCallType.ibcast b = do
  current_rank_value ← current_rank (find b "current_rank")
  partner_rank_value ← partner_rank (find b "partner_rank")
  nb_bytes_value ← nb_bytes (find b "nb_bytes")
  comm_value ← comm (find b "comm")
  req_value ← req (find b "req")
  tsc_value ← tsc (find b "tsc")
  duration_value ← duration (find b "duration")
  ok (record {
    current_rank = current_rank_value;
    partner_rank = partner_rank_value;
    nb_bytes = nb_bytes_value;
    comm = comm_value;
    req = req_value;
    tsc = tsc_value;
    duration = duration_value;
  })
built MpiCallType.igather b = do
  current_rank_value ← current_rank (find b "current_rank")
  partner_rank_value ← partner_rank (find b "partner_rank")
  nb_bytes_send_value ← nb_bytes_send (find b "nb_bytes_send")
  nb_bytes_recv_value ← nb_bytes_recv (find b "nb_bytes_recv")
  comm_value ← comm (find b "comm")
  req_value ← req (find b "req")
  tsc_value ← tsc (find b "tsc")
  duration_value ← duration (find b "duration")
  ok (record {
    current_rank = current_rank_value;
    partner_rank = partner_rank_value;
    nb_bytes_send = nb_bytes_send_value;
    nb_bytes_recv = nb_bytes_recv_value;
    comm = comm_value;
    req = req_value;
    tsc = tsc_value;
    duration = duration_value;
  })
built MpiCallType.ireduce b = do
  current_rank_value ← current_rank (find b "current_rank")
  partner_rank_value ← partner_rank (find b "partner_rank")
  nb_bytes_value ← nb_bytes (find b "nb_bytes")
  op_type_value ← op_type (find b "op_type")
  comm_value ← comm (find b "comm")
  req_value ← req (find b "req")
  tsc_value ← tsc (find b "tsc")
  duration_value ← duration (find b "duration")
  ok (record {
    current_rank = current_rank_value;
    partner_rank = partner_rank_value;
    nb_bytes = nb_bytes_value;
    op_type = op_type_value;
    comm = comm_value;
    req = req_value;
    tsc = tsc_value;
    duration = duration_value;
  })
built MpiCallType.iscatter b = do
  current_rank_value ← current_rank (find b "current_rank")
  partner_rank_value ← partner_rank (find b "partner_rank")
  nb_bytes_send_value ← nb_bytes_send (find b "nb_bytes_send")
  nb_bytes_recv_value ← nb_bytes_recv (find b "nb_bytes_recv")
  comm_value ← comm (find b "comm")
  req_value ← req (find b "req")
  tsc_value ← tsc (find b "tsc")
  duration_value ← duration (find b "duration")
  ok (record {
    current_rank = current_rank_value;
    partner_rank = partner_rank_value;
    nb_bytes_send = nb_bytes_send_value;
    nb_bytes_recv = nb_bytes_recv_value;
    comm = comm_value;
    req = req_value;
    tsc = tsc_value;
    duration = duration_value;
  })

abbrev pub list_builder : DeriveBuilder
list_builder = record {
  Builder = λ _. List Setting;
  BuilderError = String;
  error_to_string = codes;
  default = λ _. [];
  set = λ x b. x ∷ b;
  build = λ {kind} b. built kind b;
  assigned = λ b f. find b f;
}

pub built-assigned :
    (kind : MpiCallType) (b : List Setting) (s : StructOf kind)
    → All (λ x. find b (name_of x) ≡ some x) (settings (box kind s))
    → built kind b ≡ ok s
unfolding built settings box name_of
built-assigned MpiCallType.init b s h = rw (h.0, h.1.0, h.1.1.0)
built-assigned MpiCallType.initthread b s h = rw (h.0, h.1.0, h.1.1.0, h.1.1.1.0, h.1.1.1.1.0)
built-assigned MpiCallType.finalize b s h = rw (h.0, h.1.0, h.1.1.0)
built-assigned MpiCallType.send b s h =
    rw (h.0, h.1.0, h.1.1.0, h.1.1.1.0, h.1.1.1.1.0, h.1.1.1.1.1.0, h.1.1.1.1.1.1.0)
built-assigned MpiCallType.recv b s h =
    rw (h.0, h.1.0, h.1.1.0, h.1.1.1.0, h.1.1.1.1.0, h.1.1.1.1.1.0, h.1.1.1.1.1.1.0)
built-assigned MpiCallType.isend b s h =
    rw (
      h.0, h.1.0, h.1.1.0, h.1.1.1.0, h.1.1.1.1.0, h.1.1.1.1.1.0, h.1.1.1.1.1.1.0,
      h.1.1.1.1.1.1.1.0,
    )
built-assigned MpiCallType.irecv b s h =
    rw (
      h.0, h.1.0, h.1.1.0, h.1.1.1.0, h.1.1.1.1.0, h.1.1.1.1.1.0, h.1.1.1.1.1.1.0,
      h.1.1.1.1.1.1.1.0,
    )
built-assigned MpiCallType.test b s h = rw (h.0, h.1.0, h.1.1.0, h.1.1.1.0, h.1.1.1.1.0)
built-assigned MpiCallType.wait b s h = rw (h.0, h.1.0, h.1.1.0, h.1.1.1.0)
built-assigned MpiCallType.barrier b s h = rw (h.0, h.1.0, h.1.1.0, h.1.1.1.0)
built-assigned MpiCallType.ibarrier b s h = rw (h.0, h.1.0, h.1.1.0, h.1.1.1.0, h.1.1.1.1.0)
built-assigned MpiCallType.ibcast b s h =
    rw (h.0, h.1.0, h.1.1.0, h.1.1.1.0, h.1.1.1.1.0, h.1.1.1.1.1.0, h.1.1.1.1.1.1.0)
built-assigned MpiCallType.igather b s h =
    rw (
      h.0, h.1.0, h.1.1.0, h.1.1.1.0, h.1.1.1.1.0, h.1.1.1.1.1.0, h.1.1.1.1.1.1.0,
      h.1.1.1.1.1.1.1.0,
    )
built-assigned MpiCallType.ireduce b s h =
    rw (
      h.0, h.1.0, h.1.1.0, h.1.1.1.0, h.1.1.1.1.0, h.1.1.1.1.1.0, h.1.1.1.1.1.1.0,
      h.1.1.1.1.1.1.1.0,
    )
built-assigned MpiCallType.iscatter b s h =
    rw (
      h.0, h.1.0, h.1.1.0, h.1.1.1.0, h.1.1.1.1.0, h.1.1.1.1.1.0, h.1.1.1.1.1.1.0,
      h.1.1.1.1.1.1.1.0,
    )

pub list_builder-IsBuilder : IsBuilder list_builder
list_builder-IsBuilder = record {
  assigned-default = λ kind f. refl;
  assigned-set = λ x b f. refl;
  build-assigned = built-assigned;
}
