-- ===== src/System/Barrier/Contents.antt =====
-- The files of the ranks of a list, while the ranks finalize.
use interpol.Base.{
  is_in, IsDistinct, ◌≡◌, ◌∙◌, refl, sym, ap, ap₂, ℕ, ◌<◌, ◌==◌, ==_iff, Bool, true, false, update,
  none, List, [], ◌∷◌, ◌++◌, Text, text_eq, text_eq_self, All, arith, Bool-cases, inl, inr,
}
use interpol.Machine.{Directory}
use interpol.Files.{lookup, put}
use interpol.System.Barrier.{Pc, starting, created, arrived, released, Ranks}
use interpol.System.Barrier.Invariant.{AreRegular, name_of, name_of-differ}

abbrev pub is_open : Pc → Bool
is_open starting = false
is_open created = false
is_open p = true

-- What the file of a rank holds.
abbrev pub content : Pc → Text → Text
content arrived t = t
content released t = t
content p t = []

module _ (ranks : Ranks) where
  abbrev pub file : (ℕ → Pc) → ℕ → Text × Text
  file pc i = (name_of ranks i, content (pc i) (ranks.text i))

  abbrev pub files : (ℕ → Pc) → List ℕ → Directory
  files pc [] = []
  files pc (i ∷ l) = file pc i ∷ files pc l

  pub files_ext :
      (p q : ℕ → Pc)
      → ((i : ℕ) → content (p i) (ranks.text i) ≡ content (q i) (ranks.text i))
      → (l : List ℕ) → files p l ≡ files q l
  files_ext p q same [] = refl
  files_ext p q same (i ∷ l) = cc (same i, files_ext p q same l)

  pub files_absent :
      (pc : ℕ → Pc) (k : ℕ) (p : Pc) (l : List ℕ)
      → is_in k l ≡ false
      → files (update pc k p) l ≡ files pc l
  files_absent pc k p [] h = refl
  files_absent pc k p (i ∷ l) h = elim (Bool-cases (k == i)) [
    | inl e ↦ absurd (ground arith)
    | inr e ↦ rw e (ap (λ r. file pc i ∷ r) (files_absent pc k p l (ground arith)))
  ]

  pub files-snoc :
      (pc : ℕ → Pc) (k : ℕ) (p : Pc) (l : List ℕ)
      → is_in k l ≡ false
      → files (update pc k p) (l ++ k ∷ [])
        ≡ files pc l ++ (name_of ranks k, content p (ranks.text k)) ∷ []
  files-snoc pc k p [] h = rw ((==_iff k k).1 refl) refl
  files-snoc pc k p (i ∷ l) h = elim (Bool-cases (k == i)) [
    | inl e ↦ absurd (ground arith)
    | inr e ↦ rw e (ap (λ r. file pc i ∷ r) (files-snoc pc k p l (ground arith)))
  ]

  lookup-append :
      (name : Text) (d d' : Directory)
      → lookup name d ≡ none
      → lookup name d' ≡ none
      → lookup name (d ++ d') ≡ none
  lookup-append name [] d' h h' = h'
  lookup-append name ((n, t) ∷ d) d' h h' = ground (arith, lookup-append name d d')

  pub put-append :
      (name t : Text) (d d' : Directory)
      → lookup name d ≡ none
      → put name t (d ++ d') ≡ d ++ put name t d'
  unfolding put
  put-append name t [] d' h = refl
  put-append name t ((n, old) ∷ d) d' h = ground (arith, put-append name t d d')

module _ {ranks : Ranks} (regular : AreRegular ranks) where
  pub lookup-files :
      (pc : ℕ → Pc) (k : ℕ)
      → k < ranks.count
      → (l : List ℕ) → All (λ i. i < ranks.count) l
      → is_in k l ≡ false
      → lookup (name_of ranks k) (files ranks pc l) ≡ none
  lookup-files pc k lt [] below h = refl
  lookup-files pc k lt (i ∷ l) (lt', below) h =
      rw (name_of-differ regular i k lt' lt (λ e. ground arith))
        (lookup-files pc k lt l below (ground arith))

  pub put-files :
      (pc : ℕ → Pc) (k : ℕ)
      → k < ranks.count
      → (p : Pc) (t : Text) → t ≡ content p (ranks.text k)
      → (l : List ℕ) → All (λ i. i < ranks.count) l
      → IsDistinct l
      → is_in k l ≡ true
      → put (name_of ranks k) t (files ranks pc l) ≡ files ranks (update pc k p) l
  unfolding put
  put-files pc k lt p t content_eq [] below distinct h = absurd (ground arith)
  put-files pc k lt p t content_eq (i ∷ l) (lt', below) (fresh_i, distinct) h =
      elim (Bool-cases (k == i)) [
        | inl e ↦
            let same = (==_iff k i).0 e in
            rw
              (
                ap (λ j. text_eq (name_of ranks i) (name_of ranks j)) same
                    ∙ text_eq_self (name_of ranks i),
                e,
              )
              (ap₂ (λ x r. (name_of ranks i, x) ∷ r)
                (content_eq ∙ ap (λ j. content p (ranks.text j)) same)
                (sym (files_absent ranks pc k p l (ap (λ j. is_in j l) same ∙ fresh_i))))
        | inr e ↦
            rw (name_of-differ regular i k lt' lt (λ q. ground arith), e)
              (ap (λ r. file ranks pc i ∷ r)
                (put-files pc k lt p t content_eq l below distinct (ground arith)))
      ]
