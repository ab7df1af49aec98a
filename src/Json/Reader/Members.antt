-- ===== src/Json/Reader/Members.antt =====
-- The fields of each struct are read back.
use interpol.Base.{◌≡◌, refl, List, [], ◌∷◌, Text, some, inl, inr}
use interpol.Types.{Usecs, MpiCallType}
use interpol.Event.{StructOf, box}
use interpol.Builder.{Setting, settings}
use interpol.Json.{HasFiniteTime}
use interpol.Json.Format.{members_text}
use interpol.Json.Reader.{Reader, read_members, strip, members, ReadsBack}
use interpol.Json.Reader.Fields.{
  ReadsMember, current_rank-ReadsMember, partner_rank-ReadsMember, nb_bytes-ReadsMember,
  nb_bytes_send-ReadsMember, nb_bytes_recv-ReadsMember, comm-ReadsMember, req-ReadsMember,
  tag-ReadsMember, tsc-ReadsMember, duration-ReadsMember, time-ReadsMember,
  required_thread_lvl-ReadsMember, provided_thread_lvl-ReadsMember, finished-ReadsMember,
  op_type-ReadsMember,
}

infixr 30 ◌⊗◌
abbrev ◌⊗◌ : {A B : Type 0} → A → B → A × B
a ⊗ b = (a, b)

module _ (show_f64 : Usecs → Text) (read_f64 : Reader Usecs) where
  -- One reader for each field.
  abbrev ReadMembers : List (Reader Setting) → List Setting → Type 0
  ReadMembers [] [] = Unit
  ReadMembers [] (x ∷ xs) = ⊥
  ReadMembers (m ∷ ms) [] = ⊥
  ReadMembers (m ∷ ms) (x ∷ xs) = ReadsMember show_f64 read_f64 m x × ReadMembers ms xs

  read_members-members_text :
      (ms : List (Reader Setting)) (xs : List Setting) (rest : Text)
      → ReadMembers ms xs
      → read_members ms (members_text show_f64 xs (b'}' ∷ rest)) ≡ some (xs, b'}' ∷ rest)
  unfolding read_members members_text strip
  read_members-members_text [] [] rest h = refl
  read_members-members_text [] (x ∷ xs) rest h = absurd h
  read_members-members_text (m ∷ ms) [] rest h = absurd h
  read_members-members_text (m ∷ []) (x ∷ []) rest h = rw (h.0 b'}' rest (inr refl))
  read_members-members_text (m ∷ []) (x ∷ y ∷ xs) rest h = absurd h.1
  read_members-members_text (m ∷ m' ∷ ms) (x ∷ []) rest h = absurd h.1
  read_members-members_text (m ∷ m' ∷ ms) (x ∷ y ∷ xs) rest h = rw (
    h.0 b',' (members_text show_f64 (y ∷ xs) (b'}' ∷ rest)) (inl refl),
    read_members-members_text (m' ∷ ms) (y ∷ xs) rest h.1,
  )

  members-ReadMembers :
      ReadsBack show_f64 read_f64
      → (kind : MpiCallType) (s : StructOf kind) → HasFiniteTime (box kind s)
      → ReadMembers (members read_f64 kind) (settings (box kind s))
  unfolding members settings box
  members-ReadMembers back MpiCallType.init s h =
      current_rank-ReadsMember show_f64 read_f64 s.current_rank
      ⊗ tsc-ReadsMember show_f64 read_f64 s.tsc
      ⊗ time-ReadsMember show_f64 read_f64 back s.time h
      ⊗ tt
  members-ReadMembers back MpiCallType.initthread s h =
      current_rank-ReadsMember show_f64 read_f64 s.current_rank
      ⊗ required_thread_lvl-ReadsMember show_f64 read_f64 s.required_thread_lvl
      ⊗ provided_thread_lvl-ReadsMember show_f64 read_f64 s.provided_thread_lvl
      ⊗ tsc-ReadsMember show_f64 read_f64 s.tsc
      ⊗ time-ReadsMember show_f64 read_f64 back s.time h
      ⊗ tt
  members-ReadMembers back MpiCallType.finalize s h =
      current_rank-ReadsMember show_f64 read_f64 s.current_rank
      ⊗ tsc-ReadsMember show_f64 read_f64 s.tsc
      ⊗ time-ReadsMember show_f64 read_f64 back s.time h
      ⊗ tt
  members-ReadMembers back MpiCallType.send s h =
      current_rank-ReadsMember show_f64 read_f64 s.current_rank
      ⊗ partner_rank-ReadsMember show_f64 read_f64 s.partner_rank
      ⊗ nb_bytes-ReadsMember show_f64 read_f64 s.nb_bytes
      ⊗ comm-ReadsMember show_f64 read_f64 s.comm
      ⊗ tag-ReadsMember show_f64 read_f64 s.tag
      ⊗ tsc-ReadsMember show_f64 read_f64 s.tsc
      ⊗ duration-ReadsMember show_f64 read_f64 s.duration
      ⊗ tt
  members-ReadMembers back MpiCallType.recv s h =
      current_rank-ReadsMember show_f64 read_f64 s.current_rank
      ⊗ partner_rank-ReadsMember show_f64 read_f64 s.partner_rank
      ⊗ nb_bytes-ReadsMember show_f64 read_f64 s.nb_bytes
      ⊗ comm-ReadsMember show_f64 read_f64 s.comm
      ⊗ tag-ReadsMember show_f64 read_f64 s.tag
      ⊗ tsc-ReadsMember show_f64 read_f64 s.tsc
      ⊗ duration-ReadsMember show_f64 read_f64 s.duration
      ⊗ tt
  members-ReadMembers back MpiCallType.isend s h =
      current_rank-ReadsMember show_f64 read_f64 s.current_rank
      ⊗ partner_rank-ReadsMember show_f64 read_f64 s.partner_rank
      ⊗ nb_bytes-ReadsMember show_f64 read_f64 s.nb_bytes
      ⊗ comm-ReadsMember show_f64 read_f64 s.comm
      ⊗ req-ReadsMember show_f64 read_f64 s.req
      ⊗ tag-ReadsMember show_f64 read_f64 s.tag
      ⊗ tsc-ReadsMember show_f64 read_f64 s.tsc
      ⊗ duration-ReadsMember show_f64 read_f64 s.duration
      ⊗ tt
  members-ReadMembers back MpiCallType.irecv s h =
      current_rank-ReadsMember show_f64 read_f64 s.current_rank
      ⊗ partner_rank-ReadsMember show_f64 read_f64 s.partner_rank
      ⊗ nb_bytes-ReadsMember show_f64 read_f64 s.nb_bytes
      ⊗ comm-ReadsMember show_f64 read_f64 s.comm
      ⊗ req-ReadsMember show_f64 read_f64 s.req
      ⊗ tag-ReadsMember show_f64 read_f64 s.tag
      ⊗ tsc-ReadsMember show_f64 read_f64 s.tsc
      ⊗ duration-ReadsMember show_f64 read_f64 s.duration
      ⊗ tt
  members-ReadMembers back MpiCallType.test s h =
      current_rank-ReadsMember show_f64 read_f64 s.current_rank
      ⊗ req-ReadsMember show_f64 read_f64 s.req
      ⊗ finished-ReadsMember show_f64 read_f64 s.finished
      ⊗ tsc-ReadsMember show_f64 read_f64 s.tsc
      ⊗ duration-ReadsMember show_f64 read_f64 s.duration
      ⊗ tt
  members-ReadMembers back MpiCallType.wait s h =
      current_rank-ReadsMember show_f64 read_f64 s.current_rank
      ⊗ req-ReadsMember show_f64 read_f64 s.req
      ⊗ tsc-ReadsMember show_f64 read_f64 s.tsc
      ⊗ duration-ReadsMember show_f64 read_f64 s.duration
      ⊗ tt
  members-ReadMembers back MpiCallType.barrier s h =
      current_rank-ReadsMember show_f64 read_f64 s.current_rank
      ⊗ comm-ReadsMember show_f64 read_f64 s.comm
      ⊗ tsc-ReadsMember show_f64 read_f64 s.tsc
      ⊗ duration-ReadsMember show_f64 read_f64 s.duration
      ⊗ tt
  members-ReadMembers back MpiCallType.ibarrier s h =
      current_rank-ReadsMember show_f64 read_f64 s.current_rank
      ⊗ comm-ReadsMember show_f64 read_f64 s.comm
      ⊗ req-ReadsMember show_f64 read_f64 s.req
      ⊗ tsc-ReadsMember show_f64 read_f64 s.tsc
      ⊗ duration-ReadsMember show_f64 read_f64 s.duration
      ⊗ tt
  members-ReadMembers back MpiCallType.ibcast s h =
      current_rank-ReadsMember show_f64 read_f64 s.current_rank
      ⊗ partner_rank-ReadsMember show_f64 read_f64 s.partner_rank
      ⊗ nb_bytes-ReadsMember show_f64 read_f64 s.nb_bytes
      ⊗ comm-ReadsMember show_f64 read_f64 s.comm
      ⊗ req-ReadsMember show_f64 read_f64 s.req
      ⊗ tsc-ReadsMember show_f64 read_f64 s.tsc
      ⊗ duration-ReadsMember show_f64 read_f64 s.duration
      ⊗ tt
  members-ReadMembers back MpiCallType.igather s h =
      current_rank-ReadsMember show_f64 read_f64 s.current_rank
      ⊗ partner_rank-ReadsMember show_f64 read_f64 s.partner_rank
      ⊗ nb_bytes_send-ReadsMember show_f64 read_f64 s.nb_bytes_send
      ⊗ nb_bytes_recv-ReadsMember show_f64 read_f64 s.nb_bytes_recv
      ⊗ comm-ReadsMember show_f64 read_f64 s.comm
      ⊗ req-ReadsMember show_f64 read_f64 s.req
      ⊗ tsc-ReadsMember show_f64 read_f64 s.tsc
      ⊗ duration-ReadsMember show_f64 read_f64 s.duration
      ⊗ tt
  members-ReadMembers back MpiCallType.ireduce s h =
      current_rank-ReadsMember show_f64 read_f64 s.current_rank
      ⊗ partner_rank-ReadsMember show_f64 read_f64 s.partner_rank
      ⊗ nb_bytes-ReadsMember show_f64 read_f64 s.nb_bytes
      ⊗ op_type-ReadsMember show_f64 read_f64 s.op_type
      ⊗ comm-ReadsMember show_f64 read_f64 s.comm
      ⊗ req-ReadsMember show_f64 read_f64 s.req
      ⊗ tsc-ReadsMember show_f64 read_f64 s.tsc
      ⊗ duration-ReadsMember show_f64 read_f64 s.duration
      ⊗ tt
  members-ReadMembers back MpiCallType.iscatter s h =
      current_rank-ReadsMember show_f64 read_f64 s.current_rank
      ⊗ partner_rank-ReadsMember show_f64 read_f64 s.partner_rank
      ⊗ nb_bytes_send-ReadsMember show_f64 read_f64 s.nb_bytes_send
      ⊗ nb_bytes_recv-ReadsMember show_f64 read_f64 s.nb_bytes_recv
      ⊗ comm-ReadsMember show_f64 read_f64 s.comm
      ⊗ req-ReadsMember show_f64 read_f64 s.req
      ⊗ tsc-ReadsMember show_f64 read_f64 s.tsc
      ⊗ duration-ReadsMember show_f64 read_f64 s.duration
      ⊗ tt

  -- Every struct whose time is a number is read back.
  pub read_members-settings :
      ReadsBack show_f64 read_f64
      → (kind : MpiCallType) (s : StructOf kind) (rest : Text) → HasFiniteTime (box kind s)
      → read_members
          (members read_f64 kind)
          (members_text show_f64 (settings (box kind s)) (b'}' ∷ rest))
        ≡ some (settings (box kind s), b'}' ∷ rest)
  read_members-settings back kind s rest h =
      read_members-members_text (members read_f64 kind) (settings (box kind s)) rest
        (members-ReadMembers back kind s h)
