-- ===== src/Tests/Fields.antt =====
-- The value of each field among the settings of a concrete builder.
use interpol.Base.{Bool, String, Option, some, Result, ok, err}
use interpol.Types.{MpiComm, MpiRank, MpiReq, MpiTag, Tsc, Usecs, U32, I32, MpiOp}
use interpol.Builder.{Setting}

abbrev pub current_rank : Option Setting → Result String MpiRank
current_rank (some (Setting.current_rank v)) = ok v
current_rank other = err "current_rank"

abbrev pub partner_rank : Option Setting → Result String MpiRank
partner_rank (some (Setting.partner_rank v)) = ok v
partner_rank other = err "partner_rank"

abbrev pub nb_bytes : Option Setting → Result String U32
nb_bytes (some (Setting.nb_bytes v)) = ok v
nb_bytes other = err "nb_bytes"

abbrev pub nb_bytes_send : Option Setting → Result String U32
nb_bytes_send (some (Setting.nb_bytes_send v)) = ok v
nb_bytes_send other = err "nb_bytes_send"

abbrev pub nb_bytes_recv : Option Setting → Result String U32
nb_bytes_recv (some (Setting.nb_bytes_recv v)) = ok v
nb_bytes_recv other = err "nb_bytes_recv"

abbrev pub comm : Option Setting → Result String MpiComm
comm (some (Setting.comm v)) = ok v
comm other = err "comm"

abbrev pub req : Option Setting → Result String MpiReq
req (some (Setting.req v)) = ok v
req other = err "req"

abbrev pub tag : Option Setting → Result String MpiTag
tag (some (Setting.tag v)) = ok v
tag other = err "tag"

abbrev pub tsc : Option Setting → Result String Tsc
tsc (some (Setting.tsc v)) = ok v
tsc other = err "tsc"

abbrev pub duration : Option Setting → Result String Tsc
duration (some (Setting.duration v)) = ok v
duration other = err "duration"

abbrev pub time : Option Setting → Result String Usecs
time (some (Setting.time v)) = ok v
time other = err "time"

abbrev pub required_thread_lvl : Option Setting → Result String I32
required_thread_lvl (some (Setting.required_thread_lvl v)) = ok v
required_thread_lvl other = err "required_thread_lvl"

abbrev pub provided_thread_lvl : Option Setting → Result String I32
provided_thread_lvl (some (Setting.provided_thread_lvl v)) = ok v
provided_thread_lvl other = err "provided_thread_lvl"

abbrev pub finished : Option Setting → Result String Bool
finished (some (Setting.finished v)) = ok v
finished other = err "finished"

abbrev pub op_type : Option Setting → Result String MpiOp
op_type (some (Setting.op_type v)) = ok v
op_type other = err "op_type"
