-- ===== src/Tests/Cells.antt =====
-- The cells of the fields of an event, and how they are read back.
use interpol.Base.{
  ◌≡◌, refl, ℕ, zero, suc, Bool, true, false, List, [], ◌∷◌, Option, none, some, Text, length,
}
use interpol.Base.Int.{ℤ, pos, negsuc}
use interpol.Types.{MpiOp, MpiCallType}
use interpol.Types.Repr.{mpi_op_repr, mpi_op_of, repr_roundtrip}
use interpol.Builder.{Setting}

abbrev int_cells : ℤ → Text → Text
int_cells (pos n) rest = 0 ∷ n ∷ rest
int_cells (negsuc n) rest = 1 ∷ n ∷ rest

abbrev bool_cell : Bool → ℕ
bool_cell false = 0
bool_cell true = 1

unfoldable pub cells : Setting → Text → Text
cells (Setting.current_rank v) rest = 0 ∷ int_cells v rest
cells (Setting.partner_rank v) rest = 1 ∷ int_cells v rest
cells (Setting.nb_bytes v) rest = 2 ∷ 0 ∷ v ∷ rest
cells (Setting.nb_bytes_send v) rest = 3 ∷ 0 ∷ v ∷ rest
cells (Setting.nb_bytes_recv v) rest = 4 ∷ 0 ∷ v ∷ rest
cells (Setting.comm v) rest = 5 ∷ int_cells v rest
cells (Setting.req v) rest = 6 ∷ int_cells v rest
cells (Setting.tag v) rest = 7 ∷ int_cells v rest
cells (Setting.tsc v) rest = 8 ∷ 0 ∷ v ∷ rest
cells (Setting.duration v) rest = 9 ∷ 0 ∷ v ∷ rest
cells (Setting.time v) rest = 10 ∷ 0 ∷ v ∷ rest
cells (Setting.required_thread_lvl v) rest = 11 ∷ int_cells v rest
cells (Setting.provided_thread_lvl v) rest = 12 ∷ int_cells v rest
cells (Setting.finished v) rest = 13 ∷ 0 ∷ bool_cell v ∷ rest
cells (Setting.op_type v) rest = 14 ∷ 0 ∷ mpi_op_repr v ∷ rest

abbrev int_of : ℕ → ℕ → ℤ
int_of zero n = pos n
int_of (suc _) n = negsuc n

abbrev bool_of : ℕ → Bool
bool_of zero = false
bool_of (suc _) = true

abbrev op_of : Option MpiOp → MpiOp
op_of none = MpiOp.opnull
op_of (some o) = o

abbrev nth : List (ℕ → ℕ → Setting) → ℕ → Option (ℕ → ℕ → Setting)
nth [] i = none
nth (x ∷ xs) zero = some x
nth (x ∷ xs) (suc i) = nth xs i

abbrev decoders : List (ℕ → ℕ → Setting)
decoders =
    (λ a n. Setting.current_rank (int_of a n))
    ∷ (λ a n. Setting.partner_rank (int_of a n))
    ∷ (λ a n. Setting.nb_bytes n)
    ∷ (λ a n. Setting.nb_bytes_send n)
    ∷ (λ a n. Setting.nb_bytes_recv n)
    ∷ (λ a n. Setting.comm (int_of a n))
    ∷ (λ a n. Setting.req (int_of a n))
    ∷ (λ a n. Setting.tag (int_of a n))
    ∷ (λ a n. Setting.tsc n)
    ∷ (λ a n. Setting.duration n)
    ∷ (λ a n. Setting.time n)
    ∷ (λ a n. Setting.required_thread_lvl (int_of a n))
    ∷ (λ a n. Setting.provided_thread_lvl (int_of a n))
    ∷ (λ a n. Setting.finished (bool_of n))
    ∷ (λ a n. Setting.op_type (op_of (mpi_op_of (pos n))))
    ∷ []

unfoldable pub read_cells : ℕ → Text → Option (List Setting × Text)
unfolding mpi_op_of
read_cells (suc n) (tag ∷ a ∷ v ∷ rest) = elim (nth decoders tag) [
  | none ↦ none
  | some d ↦ elim (read_cells n rest) [ none ↦ none | some (xs, rest') ↦ some (d a v ∷ xs, rest') ]
]
read_cells zero rest = some ([], rest)
read_cells _ _ = none

pub all_cells : List Setting → Text → Text
unfolding cells
all_cells [] rest = rest
all_cells (x ∷ xs) rest = cells x (all_cells xs rest)

pub read_cells-all_cells :
    (xs : List Setting) (rest : Text) → read_cells (length xs) (all_cells xs rest) ≡ some (xs, rest)
unfolding read_cells all_cells mpi_op_repr
read_cells-all_cells [] rest = refl
read_cells-all_cells (Setting.current_rank (pos n) ∷ xs) rest = rw (read_cells-all_cells xs rest)
read_cells-all_cells (Setting.current_rank (negsuc n) ∷ xs) rest = rw (read_cells-all_cells xs rest)
read_cells-all_cells (Setting.partner_rank (pos n) ∷ xs) rest = rw (read_cells-all_cells xs rest)
read_cells-all_cells (Setting.partner_rank (negsuc n) ∷ xs) rest = rw (read_cells-all_cells xs rest)
read_cells-all_cells (Setting.nb_bytes v ∷ xs) rest = rw (read_cells-all_cells xs rest)
read_cells-all_cells (Setting.nb_bytes_send v ∷ xs) rest = rw (read_cells-all_cells xs rest)
read_cells-all_cells (Setting.nb_bytes_recv v ∷ xs) rest = rw (read_cells-all_cells xs rest)
read_cells-all_cells (Setting.comm (pos n) ∷ xs) rest = rw (read_cells-all_cells xs rest)
read_cells-all_cells (Setting.comm (negsuc n) ∷ xs) rest = rw (read_cells-all_cells xs rest)
read_cells-all_cells (Setting.req (pos n) ∷ xs) rest = rw (read_cells-all_cells xs rest)
read_cells-all_cells (Setting.req (negsuc n) ∷ xs) rest = rw (read_cells-all_cells xs rest)
read_cells-all_cells (Setting.tag (pos n) ∷ xs) rest = rw (read_cells-all_cells xs rest)
read_cells-all_cells (Setting.tag (negsuc n) ∷ xs) rest = rw (read_cells-all_cells xs rest)
read_cells-all_cells (Setting.tsc v ∷ xs) rest = rw (read_cells-all_cells xs rest)
read_cells-all_cells (Setting.duration v ∷ xs) rest = rw (read_cells-all_cells xs rest)
read_cells-all_cells (Setting.time v ∷ xs) rest = rw (read_cells-all_cells xs rest)
read_cells-all_cells (Setting.required_thread_lvl (pos n) ∷ xs) rest =
    rw (read_cells-all_cells xs rest)
read_cells-all_cells (Setting.required_thread_lvl (negsuc n) ∷ xs) rest =
    rw (read_cells-all_cells xs rest)
read_cells-all_cells (Setting.provided_thread_lvl (pos n) ∷ xs) rest =
    rw (read_cells-all_cells xs rest)
read_cells-all_cells (Setting.provided_thread_lvl (negsuc n) ∷ xs) rest =
    rw (read_cells-all_cells xs rest)
read_cells-all_cells (Setting.finished false ∷ xs) rest = rw (read_cells-all_cells xs rest)
read_cells-all_cells (Setting.finished true ∷ xs) rest = rw (read_cells-all_cells xs rest)
read_cells-all_cells (Setting.op_type v ∷ xs) rest =
    rw (read_cells-all_cells xs rest, (repr_roundtrip v MpiCallType.init).0)
