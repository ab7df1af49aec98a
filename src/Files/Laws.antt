-- ===== src/Files/Laws.antt =====
-- Laws of the directory, by the names of its files.
use interpol.Base.{
  ◌++◌, ◌≡◌, refl, false, if◌then◌else◌, none, some, [], ◌∷◌, Text, text_eq, text_eq_iff,
  text_eq_self, arith, Bool-cases, inl, inr,
}
use interpol.Machine.{Directory}
use interpol.Files.{lookup, put, remove}

-- Writing a file twice is writing it once.
pub put-put : (name t u : Text) (d : Directory) → put name t (put name u d) ≡ put name t d
unfolding put
put-put name t u [] = rw (text_eq_self name)
put-put name t u ((n, old) ∷ d) = elim (Bool-cases (text_eq n name)) [
  | inl same ↦ rw (same, same) refl
  | inr other ↦ rw (other, other, put-put name t u d)
]

-- After a write the file has the new contents, and every other file the old ones.
pub lookup-put :
    (name other t : Text) (d : Directory)
    → lookup other (put name t d) ≡ (if text_eq name other then some t else lookup other d)
unfolding put
lookup-put name other t [] = refl
lookup-put name other t ((n, old) ∷ d) = ground (
  arith,
  text_eq_iff n name,
  text_eq_iff n other,
  text_eq_iff name other,
  lookup-put name other t d,
)

-- A new file stands at the end of the listing.
pub put-absent :
    (name t : Text) (d : Directory) → lookup name d ≡ none → put name t d ≡ d ++ (name, t) ∷ []
unfolding put
put-absent name t [] h = refl
put-absent name t ((n, old) ∷ d) h = ground (arith, put-absent name t d)

-- Removing a file leaves the others.
pub lookup-remove :
    (name other : Text) (d : Directory)
    → text_eq name other ≡ false
    → lookup other (remove name d) ≡ lookup other d
unfolding remove
lookup-remove name other [] h = refl
lookup-remove name other ((n, old) ∷ d) h = ground (
  arith,
  text_eq_iff n name,
  text_eq_iff n other,
  text_eq_iff name other,
  lookup-remove name other d h,
)
