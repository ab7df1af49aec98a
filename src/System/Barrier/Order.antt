-- ===== src/System/Barrier/Order.antt =====
-- Lists of ranks without repetition: the order in which the ranks have made their files.
use mathlib.Core.List.{Perm, append_assoc, perm_append_comm}
use mathlib.Core.List.Perm
use interpol.Base.{
  is_in, IsDistinct, ◌≡◌, ◌∙◌, refl, sym, ap, subst, ℕ, zero, suc, ◌<◌, ◌==◌, ==_iff, true, false,
  if◌then◌else◌, List, [], ◌∷◌, ◌++◌, All, arith, Bool-cases, inl, inr,
}

-- The numbers below `n`.
abbrev pub upto : ℕ → List ℕ
upto zero = []
upto (suc n) = n ∷ upto n

-- The list without the first occurrence of a number.
abbrev drop_first : ℕ → List ℕ → List ℕ
drop_first i [] = []
drop_first i (j ∷ l) = if j == i then l else j ∷ drop_first i l

is_in-drop_first : (n i : ℕ) (l : List ℕ) → (n == i) ≡ false → is_in i (drop_first n l) ≡ is_in i l
is_in-drop_first n i [] h = refl
is_in-drop_first n i (j ∷ l) h = ground (arith, is_in-drop_first n i l h)

drop_first-IsDistinct : (n : ℕ) (l : List ℕ) → IsDistinct l → IsDistinct (drop_first n l)
drop_first-IsDistinct n [] h = tt
drop_first-IsDistinct n (j ∷ l) (fresh, h) = elim (Bool-cases (j == n)) [
  | inl e ↦ rw e h
  | inr e ↦ rw e (is_in-drop_first n j l (ground arith) ∙ fresh, drop_first-IsDistinct n l h)
]

All-below : (n : ℕ) (l : List ℕ) → is_in n l ≡ false → All (λ i. i < suc n) l → All (λ i. i < n) l
All-below n [] absent h = tt
All-below n (j ∷ l) absent (lt, h) = (ground arith, All-below n l (ground arith) h)

-- Below `n + 1` and other than `n` is below `n`.
All-drop_first :
    (n : ℕ) (l : List ℕ) → IsDistinct l → All (λ i. i < suc n) l → All (λ i. i < n) (drop_first n l)
All-drop_first n [] distinct h = tt
All-drop_first n (j ∷ l) (fresh, distinct) (lt, h) = elim (Bool-cases (j == n)) [
  | inl e ↦ rw e (All-below n l (ap (λ k. is_in k l) (sym ((==_iff j n).0 e)) ∙ fresh) h)
  | inr e ↦ rw e (ground arith, All-drop_first n l distinct h)
]

append_swap : {A : Type 0} (a b c : List A) → Perm (a ++ (b ++ c)) (b ++ (a ++ c))
append_swap a b c =
    subst (λ x. Perm x (b ++ (a ++ c))) (append_assoc a b c)
      (subst (Perm ((a ++ b) ++ c)) (append_assoc b a c)
        (Perm.append_right c (perm_append_comm a b)))

module _ {A : Type 0} (f : ℕ → List A) where
  -- What belongs to the numbers of a list.
  abbrev pub collected : List ℕ → List A
  collected [] = []
  collected (i ∷ l) = f i ++ collected l

  -- The number `n` is brought to the front.
  collected-drop_first :
      (n : ℕ) (l : List ℕ)
      → is_in n l ≡ true
      → Perm (collected l) (f n ++ collected (drop_first n l))
  collected-drop_first n [] h = absurd (ground arith)
  collected-drop_first n (j ∷ l) h = elim (Bool-cases (j == n)) [
    | inl e ↦ rw e (
        subst (λ k. Perm (f k ++ collected l) (f n ++ collected l)) (sym ((==_iff j n).0 e))
          (Perm.refl (f n ++ collected l)))
    | inr e ↦ rw e (
        Perm.trans (Perm.append_left (f j) (collected-drop_first n l (ground arith)))
          (append_swap (f j) (f n) (collected (drop_first n l))))
  ]

  -- A list that holds each number below `n` once.
  pub collected-Perm :
      (n : ℕ) (l : List ℕ)
      → IsDistinct l
      → All (λ i. i < n) l
      → ((i : ℕ) → i < n → is_in i l ≡ true)
      → Perm (collected l) (collected (upto n))
  collected-Perm zero [] distinct below all = Perm.refl []
  collected-Perm zero (j ∷ l) distinct below all = absurd (omega (arith, below.0))
  collected-Perm (suc n) l distinct below all =
      Perm.trans (collected-drop_first n l (all n (omega arith))) (
        Perm.append_left (f n) (
          collected-Perm n (drop_first n l) (drop_first-IsDistinct n l distinct)
            (All-drop_first n l distinct below)
            (λ i lt. is_in-drop_first n i l (ground arith) ∙ all i (omega arith))))
