-- ===== src/Json/Reader.antt =====
-- A reader of the text of a trace, independent of the program: it finds the name of each struct and
-- the fields in their order, with their values. The theorems measure by it what a text tells.
pub mod Values
pub mod Fields
pub mod Members
pub mod Lengths
pub mod Traces
use interpol.Base.{
  ◌≡◌, ◌⊎◌, ◌++◌, ℕ, zero, suc, ◌+◌, ◌-◌, ◌*◌, Bool, true, false, ◌&&◌, String, List, [], ◌∷◌, ◌++◌,
  Option, none, some, Text, codes, length, leb, ◌==◌, if◌then◌else◌,
}
use interpol.Base.Int.{ℤ, pos, negsuc}
use interpol.Types.{is_finite, Usecs, MpiOp, MpiCallType}
use interpol.Builder.{Setting}
use interpol.Json.Format.{op_name, struct_name, quoted}

-- A reader takes its value off the front of the text and leaves the rest.
abbrev pub Reader : Type 0 → Type 0
Reader A = Text → Option (A × Text)

abbrev pub bind : {A B : Type 0} → Option A → (A → Option B) → Option B
bind none f = none
bind (some a) f = f a

-- What stands behind a value.
abbrev pub IsEnd : ℕ → Type 0
IsEnd c = (c ≡ b',') ⊎ (c ≡ b'}')

-- `read_f64` reads back what `show_f64` prints, for the numbers that JSON can hold.
abbrev pub ReadsBack : (Usecs → Text) → Reader Usecs → Type 0
ReadsBack show_f64 read_f64 =
    (x : Usecs)
    → is_finite x ≡ true
    → (c : ℕ) (rest : Text) → IsEnd c
    → read_f64 (show_f64 x ++ c ∷ rest) ≡ some (x, c ∷ rest)

unfoldable pub strip : Text → Text → Option Text
strip [] t = some t
strip (c ∷ p) [] = none
strip (c ∷ p) (d ∷ t) = let rest = strip p t in if c == d then rest else none

abbrev pub is_digit : ℕ → Bool
is_digit c = leb b'0' c && leb c b'9'

unfoldable pub more_digits : ℕ → Text → ℕ × Text
more_digits n [] = (n, [])
more_digits n (c ∷ t) =
    let rest = more_digits (n * 10 + (c - b'0')) t in if is_digit c then rest else (n, c ∷ t)

unfoldable pub read_nat : Reader ℕ
unfolding more_digits
read_nat [] = none
read_nat (c ∷ t) = if is_digit c then some (more_digits (c - b'0') t) else none

unfoldable pub read_int : Reader ℤ
unfolding read_nat strip
read_int t = elim (read_nat t) [
  | some (n, rest) ↦ some (pos n, rest)
  | none ↦
      bind (strip (b'-' ∷ []) t) λ t. bind (read_nat t) λ (n, rest). some (negsuc (n - 1), rest)
]

unfoldable pub read_bool : Reader Bool
unfolding strip
read_bool t = elim (strip (codes "true") t) [
  | some rest ↦ some (true, rest)
  | none ↦ bind (strip (codes "false") t) λ rest. some (false, rest)
]

-- The first of the values whose text stands at the front.
unfoldable pub read_one_of : {A : Type 0} → (A → Text) → List A → Reader A
unfolding strip
read_one_of name [] t = none
read_one_of name (a ∷ more) t = elim (strip (name a) t) [
  | some rest ↦ some (a, rest)
  | none ↦ read_one_of name more t
]

abbrev mpi_ops : List MpiOp
mpi_ops =
    MpiOp.opnull ∷ MpiOp.max ∷ MpiOp.min ∷ MpiOp.sum ∷ MpiOp.prod ∷ MpiOp.land ∷ MpiOp.band
    ∷ MpiOp.lor ∷ MpiOp.bor ∷ MpiOp.lxor ∷ MpiOp.bxor ∷ MpiOp.minloc ∷ MpiOp.maxloc ∷ MpiOp.replace
    ∷ []

unfoldable pub read_op : Reader MpiOp
unfolding read_one_of
read_op = read_one_of (λ op. quoted (op_name op) []) mpi_ops

-- `"name":` and a value.
unfoldable pub read_member : {A : Type 0} → String → (A → Setting) → Reader A → Reader Setting
unfolding strip
read_member name setting read t =
    bind (strip (quoted (codes name) (b':' ∷ [])) t)
      λ t. bind (read t) λ (v, rest). some (setting v, rest)

unfoldable pub read_members : List (Reader Setting) → Reader (List Setting)
unfolding strip
read_members [] t = some ([], t)
read_members (m ∷ []) t = bind (m t) λ (x, rest). some (x ∷ [], rest)
read_members (m ∷ m' ∷ ms) t = bind (m t) λ (x, t).
    bind (strip (b',' ∷ []) t)
      λ t. bind (read_members (m' ∷ ms) t) λ (xs, rest). some (x ∷ xs, rest)

abbrev kinds : List MpiCallType
kinds =
    MpiCallType.init ∷ MpiCallType.initthread ∷ MpiCallType.finalize ∷ MpiCallType.send
    ∷ MpiCallType.recv ∷ MpiCallType.isend ∷ MpiCallType.irecv ∷ MpiCallType.test ∷ MpiCallType.wait
    ∷ MpiCallType.barrier ∷ MpiCallType.ibarrier ∷ MpiCallType.ibcast ∷ MpiCallType.igather
    ∷ MpiCallType.ireduce ∷ MpiCallType.iscatter ∷ []

unfoldable pub read_kind : Reader MpiCallType
unfolding read_one_of
read_kind = read_one_of (λ kind. quoted (struct_name kind) []) kinds

module _ (read_f64 : Reader Usecs) where
  unfoldable pub current_rank : Reader Setting
  unfolding read_member read_int
  current_rank = read_member "current_rank" Setting.current_rank read_int

  unfoldable pub partner_rank : Reader Setting
  unfolding read_member read_int
  partner_rank = read_member "partner_rank" Setting.partner_rank read_int

  unfoldable pub nb_bytes : Reader Setting
  unfolding read_member read_nat
  nb_bytes = read_member "nb_bytes" Setting.nb_bytes read_nat

  unfoldable pub nb_bytes_send : Reader Setting
  unfolding read_member read_nat
  nb_bytes_send = read_member "nb_bytes_send" Setting.nb_bytes_send read_nat

  unfoldable pub nb_bytes_recv : Reader Setting
  unfolding read_member read_nat
  nb_bytes_recv = read_member "nb_bytes_recv" Setting.nb_bytes_recv read_nat

  unfoldable pub comm : Reader Setting
  unfolding read_member read_int
  comm = read_member "comm" Setting.comm read_int

  unfoldable pub req : Reader Setting
  unfolding read_member read_int
  req = read_member "req" Setting.req read_int

  unfoldable pub tag : Reader Setting
  unfolding read_member read_int
  tag = read_member "tag" Setting.tag read_int

  unfoldable pub tsc : Reader Setting
  unfolding read_member read_nat
  tsc = read_member "tsc" Setting.tsc read_nat

  unfoldable pub duration : Reader Setting
  unfolding read_member read_nat
  duration = read_member "duration" Setting.duration read_nat

  unfoldable pub time : Reader Setting
  unfolding read_member
  time = read_member "time" Setting.time read_f64

  unfoldable pub required_thread_lvl : Reader Setting
  unfolding read_member read_int
  required_thread_lvl = read_member "required_thread_lvl" Setting.required_thread_lvl read_int

  unfoldable pub provided_thread_lvl : Reader Setting
  unfolding read_member read_int
  provided_thread_lvl = read_member "provided_thread_lvl" Setting.provided_thread_lvl read_int

  unfoldable pub finished : Reader Setting
  unfolding read_member read_bool
  finished = read_member "finished" Setting.finished read_bool

  unfoldable pub op_type : Reader Setting
  unfolding read_member read_op
  op_type = read_member "op_type" Setting.op_type read_op

  -- The fields of each struct.
  unfoldable pub members : MpiCallType → List (Reader Setting)
  unfolding current_rank partner_rank nb_bytes nb_bytes_send nb_bytes_recv comm req tag tsc duration
      time required_thread_lvl provided_thread_lvl finished op_type
  members MpiCallType.init = current_rank ∷ tsc ∷ time ∷ []
  members MpiCallType.initthread =
      current_rank ∷ required_thread_lvl ∷ provided_thread_lvl ∷ tsc ∷ time ∷ []
  members MpiCallType.finalize = current_rank ∷ tsc ∷ time ∷ []
  members MpiCallType.send =
      current_rank ∷ partner_rank ∷ nb_bytes ∷ comm ∷ tag ∷ tsc ∷ duration ∷ []
  members MpiCallType.recv =
      current_rank ∷ partner_rank ∷ nb_bytes ∷ comm ∷ tag ∷ tsc ∷ duration ∷ []
  members MpiCallType.isend =
      current_rank ∷ partner_rank ∷ nb_bytes ∷ comm ∷ req ∷ tag ∷ tsc ∷ duration ∷ []
  members MpiCallType.irecv =
      current_rank ∷ partner_rank ∷ nb_bytes ∷ comm ∷ req ∷ tag ∷ tsc ∷ duration ∷ []
  members MpiCallType.test = current_rank ∷ req ∷ finished ∷ tsc ∷ duration ∷ []
  members MpiCallType.wait = current_rank ∷ req ∷ tsc ∷ duration ∷ []
  members MpiCallType.barrier = current_rank ∷ comm ∷ tsc ∷ duration ∷ []
  members MpiCallType.ibarrier = current_rank ∷ comm ∷ req ∷ tsc ∷ duration ∷ []
  members MpiCallType.ibcast =
      current_rank ∷ partner_rank ∷ nb_bytes ∷ comm ∷ req ∷ tsc ∷ duration ∷ []
  members MpiCallType.igather =
      current_rank ∷ partner_rank ∷ nb_bytes_send ∷ nb_bytes_recv ∷ comm ∷ req ∷ tsc ∷ duration ∷ []
  members MpiCallType.ireduce =
      current_rank ∷ partner_rank ∷ nb_bytes ∷ op_type ∷ comm ∷ req ∷ tsc ∷ duration ∷ []
  members MpiCallType.iscatter =
      current_rank ∷ partner_rank ∷ nb_bytes_send ∷ nb_bytes_recv ∷ comm ∷ req ∷ tsc ∷ duration ∷ []

  unfoldable pub read_event : Reader (MpiCallType × List Setting)
  unfolding read_kind read_members members strip
  read_event t = bind (strip (b'{' ∷ quoted (codes "type") (b':' ∷ [])) t) λ t.
      bind (read_kind t) λ (kind, t). bind (strip (b',' ∷ []) t) λ t.
        bind (read_members (members kind) t)
          λ (xs, t). bind (strip (b'}' ∷ []) t) λ rest. some ((kind, xs), rest)

  -- Each round reads one event; the fuel bounds their number.
  unfoldable pub read_events : ℕ → Reader (List (MpiCallType × List Setting))
  unfolding read_event strip
  read_events zero t = none
  read_events (suc n) t = bind (read_event t) λ (e, t). elim (strip (b',' ∷ []) t) [
    | none ↦ some (e ∷ [], t)
    | some t' ↦ bind (read_events n t') λ (es, rest). some (e ∷ es, rest)
  ]

  -- The end of the whole text.
  abbrev pub ended : {A : Type 0} → A → Text → Option A
  ended a [] = some a
  ended a (c ∷ rest) = none

  -- Behind the opening bracket, given what is left if the closing one comes next.
  unfoldable pub read_elements : Text → Option Text → Option (List (MpiCallType × List Setting))
  unfolding read_events strip
  read_elements t (some rest) = ended [] rest
  read_elements t none =
      bind (read_events (length t) t) λ (es, t). bind (strip (b']' ∷ []) t) (ended es)

  unfoldable pub read_trace : Text → Option (List (MpiCallType × List Setting))
  unfolding read_elements strip
  read_trace t = bind (strip (b'[' ∷ []) t) λ t. read_elements t (strip (b']' ∷ []) t)
