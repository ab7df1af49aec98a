-- ===== src/Serialize/FileName.antt =====
-- The names of the ranks' files.
use interpol.Base.{◌≡◌, codes}
use interpol.Base.Int.{show_int, show_int-injective}
use interpol.Types.{MpiRank}
use interpol.Serialize.{file_name}
use mathlib.Core.List.{append_cancel_right, append_cancel_left}

-- Two ranks with the same file name are one rank.
pub file_name-injective : (a b : MpiRank) → file_name a ≡ file_name b → a ≡ b
unfolding file_name
file_name-injective a b e = show_int-injective a b (
    append_cancel_right (show_int a) (show_int b) (codes "_traces.json")
      (append_cancel_left (codes "rank") _ _ e))
