-- ===== src/Base/Distinct.antt =====
-- Lists of numbers without repetition.
use mathlib.Core.List.{List, [], ◌∷◌, ◌++◌}
use mathlib.Core.Path.{◌≡◌, refl, ◌∙◌}
use mathlib.Core.Bool.{Bool, false, ◌||◌}
use Prim.Native.Nat.{ℕ}
use native.Mathlib.Omega.{arith}
use interpol.Base.Tests.{◌==◌}

abbrev pub is_in : ℕ → List ℕ → Bool
is_in i [] = false
is_in i (j ∷ l) = (j == i) || is_in i l

abbrev pub IsDistinct : List ℕ → Type 0
IsDistinct [] = Unit
IsDistinct (i ∷ l) = (is_in i l ≡ false) × IsDistinct l

pub is_in-snoc : (i k : ℕ) (l : List ℕ) → is_in i (l ++ k ∷ []) ≡ (is_in i l || (k == i))
is_in-snoc i k [] = ground arith
is_in-snoc i k (j ∷ l) = ground (arith, is_in-snoc i k l)

pub IsDistinct-snoc :
    (k : ℕ) (l : List ℕ) → IsDistinct l → is_in k l ≡ false → IsDistinct (l ++ k ∷ [])
IsDistinct-snoc k [] h absent = (refl, tt)
IsDistinct-snoc k (j ∷ l) (fresh, h) absent =
    (is_in-snoc j k l ∙ ground arith, IsDistinct-snoc k l h (ground arith))
