-- ===== src/Tests/Runs.antt =====
-- Runs of the program at concrete inputs.
use interpol.Base.{ℕ, ◌≡◌, refl, none, some, [], ◌∷◌, codes}
use interpol.Base.Int.{pos, negsuc, show_int}
use interpol.Vector.{register, pushed, refused}
use interpol.Error.{TryReserveError}
use interpol.Serialize.{file_name}
use interpol.Aggregate.{extension}
use interpol.Tests.Data.{generous, exhausted}

file_name_of_rank : file_name (pos 12) ≡ codes "rank12_traces.json"
unfolding file_name show_int
file_name_of_rank = refl

file_name_of_no_rank : file_name (negsuc 0) ≡ codes "rank-1_traces.json"
unfolding file_name show_int
file_name_of_no_rank = refl

extension_of_last_dot : extension (codes "a.tar.gz") ≡ some (codes "gz")
unfolding extension
extension_of_last_dot = refl

extension_of_hidden_file : extension (codes ".json") ≡ none
unfolding extension
extension_of_hidden_file = refl

-- Room for three times the items is there already, or is not to be had.
register_twice :
    register {A = ℕ} generous (record { items = 7 ∷ []; capacity = 4 }) 8
    ≡ pushed (record { items = 7 ∷ 8 ∷ []; capacity = 4 })
unfolding register
register_twice = refl

register_full :
    register {A = ℕ} exhausted (record { items = 7 ∷ 8 ∷ []; capacity = 4 }) 9
    ≡ refused TryReserveError.alloc_error
unfolding register
register_full = refl
