-- ===== src/Json/Reader/Fields.antt =====
-- Each field is read back.
use interpol.Base.{ℕ, Bool, true, ◌≡◌, ◌∷◌, ◌++◌, Text, some}
use interpol.Base.Int.{ℤ}
use interpol.Types.{Usecs, MpiOp, is_finite}
use interpol.Builder.{Setting}
use interpol.Json.Format.{member_text}
use interpol.Json.Reader.{
  Reader, ReadsBack, IsEnd, current_rank, partner_rank, nb_bytes, nb_bytes_send, nb_bytes_recv,
  comm, req, tag, tsc, duration, time, required_thread_lvl, provided_thread_lvl, finished, op_type,
}
use interpol.Json.Reader.Values.{int_member, nat_member, bool_member, op_member, read_member-quoted}

module _ (show_f64 : Usecs → Text) (read_f64 : Reader Usecs) where
  -- `read` takes the field `x` off the front of a text, up to the sign behind it.
  abbrev pub ReadsMember : Reader Setting → Setting → Type 0
  ReadsMember read x =
      (c : ℕ) (rest : Text)
      → IsEnd c
      → read (member_text show_f64 x (c ∷ rest)) ≡ some (x, c ∷ rest)

  pub current_rank-ReadsMember :
      (v : ℤ) → ReadsMember (current_rank read_f64) (Setting.current_rank v)
  unfolding current_rank member_text
  current_rank-ReadsMember v c rest h = int_member "current_rank" c rest h Setting.current_rank v

  pub partner_rank-ReadsMember :
      (v : ℤ) → ReadsMember (partner_rank read_f64) (Setting.partner_rank v)
  unfolding partner_rank member_text
  partner_rank-ReadsMember v c rest h = int_member "partner_rank" c rest h Setting.partner_rank v

  pub nb_bytes-ReadsMember : (v : ℕ) → ReadsMember (nb_bytes read_f64) (Setting.nb_bytes v)
  unfolding nb_bytes member_text
  nb_bytes-ReadsMember v c rest h = nat_member "nb_bytes" c rest h Setting.nb_bytes v

  pub nb_bytes_send-ReadsMember :
      (v : ℕ) → ReadsMember (nb_bytes_send read_f64) (Setting.nb_bytes_send v)
  unfolding nb_bytes_send member_text
  nb_bytes_send-ReadsMember v c rest h = nat_member "nb_bytes_send" c rest h Setting.nb_bytes_send v

  pub nb_bytes_recv-ReadsMember :
      (v : ℕ) → ReadsMember (nb_bytes_recv read_f64) (Setting.nb_bytes_recv v)
  unfolding nb_bytes_recv member_text
  nb_bytes_recv-ReadsMember v c rest h = nat_member "nb_bytes_recv" c rest h Setting.nb_bytes_recv v

  pub comm-ReadsMember : (v : ℤ) → ReadsMember (comm read_f64) (Setting.comm v)
  unfolding comm member_text
  comm-ReadsMember v c rest h = int_member "comm" c rest h Setting.comm v

  pub req-ReadsMember : (v : ℤ) → ReadsMember (req read_f64) (Setting.req v)
  unfolding req member_text
  req-ReadsMember v c rest h = int_member "req" c rest h Setting.req v

  pub tag-ReadsMember : (v : ℤ) → ReadsMember (tag read_f64) (Setting.tag v)
  unfolding tag member_text
  tag-ReadsMember v c rest h = int_member "tag" c rest h Setting.tag v

  pub tsc-ReadsMember : (v : ℕ) → ReadsMember (tsc read_f64) (Setting.tsc v)
  unfolding tsc member_text
  tsc-ReadsMember v c rest h = nat_member "tsc" c rest h Setting.tsc v

  pub duration-ReadsMember : (v : ℕ) → ReadsMember (duration read_f64) (Setting.duration v)
  unfolding duration member_text
  duration-ReadsMember v c rest h = nat_member "duration" c rest h Setting.duration v

  pub time-ReadsMember :
      ReadsBack show_f64 read_f64
      → (v : Usecs) → is_finite v ≡ true
      → ReadsMember (time read_f64) (Setting.time v)
  unfolding time member_text
  time-ReadsMember back v finite c rest h =
      read_member-quoted "time" Setting.time read_f64 v (show_f64 v ++ c ∷ rest) (c ∷ rest)
        (back v finite c rest h)

  pub required_thread_lvl-ReadsMember :
      (v : ℤ) → ReadsMember (required_thread_lvl read_f64) (Setting.required_thread_lvl v)
  unfolding required_thread_lvl member_text
  required_thread_lvl-ReadsMember v c rest h =
      int_member "required_thread_lvl" c rest h Setting.required_thread_lvl v

  pub provided_thread_lvl-ReadsMember :
      (v : ℤ) → ReadsMember (provided_thread_lvl read_f64) (Setting.provided_thread_lvl v)
  unfolding provided_thread_lvl member_text
  provided_thread_lvl-ReadsMember v c rest h =
      int_member "provided_thread_lvl" c rest h Setting.provided_thread_lvl v

  pub finished-ReadsMember : (v : Bool) → ReadsMember (finished read_f64) (Setting.finished v)
  unfolding finished member_text
  finished-ReadsMember v c rest h = bool_member "finished" c rest h Setting.finished v

  pub op_type-ReadsMember : (v : MpiOp) → ReadsMember (op_type read_f64) (Setting.op_type v)
  unfolding op_type member_text
  op_type-ReadsMember v c rest h = op_member "op_type" c rest h Setting.op_type v
